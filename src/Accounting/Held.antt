-- ===== src/Accounting/Held.antt =====
-- A hash that is held stays so through its retention, while the capacity is not reached.
use ratum.Base.{
  ◌⊎◌, ℕ, ◌+◌, ◌≤◌, ◌<◌, ◌≡◌, ◌≢◌, refl, ap, ◌∙◌, arith, List, [], ◌∷◌, some, Bool, true, false,
  ◌||◌, ◌==◌, leb, length, length-append, All, Bool-cases, inl, inr,
}
use ratum.Base.Dict.{Dict, find, contains_key, find-contains_key, find-put_ne, find-remove_ne}
use ratum.Accounting.{
  AcceptedShareHashes, forget, held_until, expire, make_room, held, hold, release,
}

-- Forgetting another hash, or this one at another time, keeps it.
forget_other :
    (d : Dict ℕ) (at k t h : ℕ)
    → find d h ≡ some t
    → (k ≢ h) ⊎ (at ≢ t)
    → find ((forget d at k).1) h ≡ some t
unfolding forget
forget_other d at k t h f (inl ne) = ground (arith, f, find-remove_ne d k h ne)
forget_other d at k t h f (inr ne) = elim (Bool-cases (k == h)) [
  | inl same ↦ ground (arith, ne, f, found same)
  | inr other ↦ ground (arith, f, other, find-remove_ne d k h)
]
  where
    found : (k == h) ≡ true → find d k ≡ some t
    found e = ap (find d) (ground (arith, e)) ∙ f

-- What has not run out is kept, and the order does not grow.
expire-find :
    (now t h : ℕ) (d : Dict ℕ) (order : List (ℕ × ℕ))
    → find d h ≡ some t
    → now ≤ held_until t
    → (find ((expire now d order).0) h ≡ some t) × (length ((expire now d order).1) ≤ length order)
unfolding expire
expire-find now t h d [] f l = (f, omega arith)
expire-find now t h d ((at, k) ∷ order) f l = elim (Bool-cases (leb now (held_until at))) [
  | inl still ↦ rw still (f, omega arith)
  | inr over ↦
      let rest =
        expire-find now t h ((forget d at k).1) order
          (forget_other d at k t h f (inr (λ e. earlier over e))) l in
      rw over (rest.0, omega (arith, rest.1))
]
  where
    earlier : leb now (held_until at) ≡ false → at ≢ t
    earlier over e = ground (arith, over, l, e)

room_left :
    (capacity : ℕ) (d : Dict ℕ) (order : List (ℕ × ℕ))
    → length order < capacity
    → make_room capacity false d order ≡ (false, d, order)
unfolding make_room
room_left capacity d [] l = refl
room_left capacity d ((at, k) ∷ order) l = ground (arith, l)

-- The hash is held since a time, the order has so many entries at most, under the capacity.
pub record Holds (s : AcceptedShareHashes) (h t n : ℕ) : Type 0 where
  pub found : find s.accepted_at h ≡ some t
  pub short : length s.order + n ≤ s.capacity

hold-Holds :
    (s : AcceptedShareHashes) (h t n k at now : ℕ)
    → Holds s h t (1 + n)
    → now ≤ held_until t
    → Holds ((hold s k at now).1) h t n
unfolding hold held
hold-Holds s h t n k at now held_before l =
    let left = expire now s.accepted_at s.order in
    let (f, short) = expire-find now t h s.accepted_at s.order held_before.found l in
    elim (Bool-cases (contains_key (left.0) k)) [
      | inl twice ↦ rw twice (record { found = f; short = omega (arith, short, held_before.short) })
      | inr fresh ↦
          rw
            (
              fresh,
              room_left s.capacity (left.0) (left.1) (omega (arith, short, held_before.short)),
            )
            (record {
              found = find-put_ne (left.0) k h at (differs fresh f) ∙ f;
              short =
                  omega (arith, short, held_before.short, length-append (left.1) ((at, k) ∷ []));
            })
    ]
  where
    differs :
        contains_key ((expire now s.accepted_at s.order).0) k ≡ false
        → find ((expire now s.accepted_at s.order).0) h ≡ some t
        → k ≢ h
    differs fresh f e = ground (
      arith,
      fresh,
      ap (contains_key ((expire now s.accepted_at s.order).0)) e,
      find-contains_key ((expire now s.accepted_at s.order).0) h t f,
    )

-- What the pool does with the hashes of other shares, and resends.
pub data Op : Type 0 where
  holding : ℕ → ℕ → ℕ → Op
  releasing : ℕ → Op

unfoldable pub step : Op → AcceptedShareHashes → AcceptedShareHashes
step (holding k at now) s = (hold s k at now).1
step (releasing k) s = (release s k).1

unfoldable pub steps : List Op → AcceptedShareHashes → AcceptedShareHashes
steps [] s = s
steps (op ∷ ops) s = steps ops (step op s)

-- An operation within the retention of a hash accepted at a time, which does not release it.
abbrev pub Within : ℕ → ℕ → Op → Type 0
Within h t (holding k at now) = now ≤ held_until t
Within h t (releasing k) = k ≢ h

step-Holds :
    (op : Op) (s : AcceptedShareHashes) (h t n : ℕ)
    → Within h t op
    → Holds s h t (1 + n)
    → Holds (step op s) h t n
unfolding step release
step-Holds (holding k at now) s h t n w b = hold-Holds s h t n k at now b w
step-Holds (releasing k) s h t n w b = record {
  found = find-remove_ne s.accepted_at k h w ∙ b.found;
  short = omega (arith, b.short);
}

steps-Holds :
    (ops : List Op) (s : AcceptedShareHashes) (h t n : ℕ)
    → All (Within h t) ops
    → Holds s h t (length ops + n)
    → Holds (steps ops s) h t n
unfolding steps
steps-Holds [] s h t n w b = record { found = b.found; short = omega (arith, b.short) }
steps-Holds (op ∷ ops) s h t n w b = steps-Holds ops (step op s) h t n w.1 (
    step-Holds op s h t (length ops + n) w.0
      (record { found = b.found; short = omega (arith, b.short) }))

refused :
    (s : AcceptedShareHashes) (h t at now : ℕ)
    → find s.accepted_at h ≡ some t
    → now ≤ held_until t
    → (hold s h at now).0 ≡ false
unfolding hold
refused s h t at now f l =
    let left = (expire now s.accepted_at s.order).0 in
    rw (find-contains_key left h t (expire-find now t h s.accepted_at s.order f l).0) refl

-- A share is credited once: while a hash is held since a time, whatever other hashes are claimed,
-- restored or released within its retention, fewer than the capacity leaves room for, claiming it
-- again within its retention is refused.
pub hold-once :
    (ops : List Op) (s : AcceptedShareHashes) (h t at now : ℕ)
    → find s.accepted_at h ≡ some t
    → length s.order + length ops ≤ s.capacity
    → All (Within h t) ops
    → now ≤ held_until t
    → (hold (steps ops s) h at now).0 ≡ false
hold-once ops s h t at now f short w l =
    refused (steps ops s) h t at now
      (steps-Holds ops s h t 0 w (record { found = f; short = omega (arith, short) })).found l

make_room-lt :
    (capacity : ℕ) (early : Bool) (d : Dict ℕ) (order : List (ℕ × ℕ))
    → 0 < capacity
    → length ((make_room capacity early d order).2) < capacity
unfolding make_room
make_room-lt capacity early d [] c = c
make_room-lt capacity early d ((at, k) ∷ order) c =
    ground (arith, make_room-lt capacity (early || (forget d at k).0) ((forget d at k).1) order c)

expire-length :
    (now : ℕ) (d : Dict ℕ) (order : List (ℕ × ℕ)) → length ((expire now d order).1) ≤ length order
unfolding expire
expire-length now d [] = omega arith
expire-length now d ((at, k) ∷ order) = ground (arith, expire-length now ((forget d at k).1) order)

-- The order never holds more hashes than the capacity, when it did not and the capacity is 1 at the
-- least.
pub hold-order :
    (s : AcceptedShareHashes) (k at now : ℕ)
    → 0 < s.capacity
    → length s.order ≤ s.capacity
    → length ((hold s k at now).1).order ≤ s.capacity
unfolding hold held
hold-order s k at now c h =
    let left = expire now s.accepted_at s.order in
    let room = make_room s.capacity false (left.0) (left.1) in
    ground (
      arith,
      expire-length now s.accepted_at s.order,
      make_room-lt s.capacity false (left.0) (left.1) c,
      length-append (room.2) ((at, k) ∷ []),
    )
