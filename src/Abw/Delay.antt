-- ===== src/Abw/Delay.antt =====
-- A retired slot's key stays undisclosed through the delay, whatever the session does.
use ratum.Base.{
  String, sym, ℕ, ◌+◌, ◌%◌, ◌<◌, ◌≤◌, ◌≡◌, ◌≢◌, refl, ap, ◌∙◌, arith, List, [], ◌∷◌, Option, none,
  some, true, ◌==◌, All, Bool-cases, ltb, All-append, inl, inr,
}
use mathlib.Core.Bool.{false≢true}
use ratum.Datum.Messages.Abw.{assignment_slots}
use ratum.Abw.Session.{
  Op, connecting, resuming, sharing, tip, publishing, rotating, revealing, rotate_if_due, step,
  steps,
}
use ratum.Abw.Kept.{
  Silent, Kept, update_other, reveal_entry-other, push_reveal-Silent, same_slot, reveals_due-Kept,
  resumed-retired, waits_for_reveal, rotated-Kept,
}
use ratum.Abw.{
  reveal_after, seeded, retired, AbwSlotState, update, seed, note_published, publish_key,
  secret_key, connect, resume, reveal_entry, reveal, next_slot, retire, rotated, rotate, note_share,
  is_some, rotation_due, note_tip,
}

module _ (k : ℕ) (key : List ℕ) (from : ℕ) where
  rotate_if_due-Kept :
      (xor_key_hash : List ℕ → List ℕ) (s : AbwSlotState) (at : ℕ) (fresh : List ℕ)
      (why : Option String)
      → (next_slot s ≡ k → why ≡ none)
      → Kept s k key from
      → Silent k ((rotate_if_due xor_key_hash s at fresh why).0)
        × Kept ((rotate_if_due xor_key_hash s at fresh why).1) k key from
  unfolding rotate_if_due rotate reveal
  rotate_if_due-Kept xor_key_hash s at fresh none p h = (tt, h)
  rotate_if_due-Kept xor_key_hash s at fresh (some why) p h = (
    push_reveal-Silent k key from s (next_slot s) (s.slots (next_slot s)) [] other tt,
    rotated-Kept k key from s at fresh other h,
  )
    where
      other : next_slot s ≢ k
      other e = false≢true (sym (ap is_some (p e)))

  publish_key-slots :
      (s : AbwSlotState) (j : ℕ) (e : Option (List ℕ)) → ((publish_key s j e).1).slots k ≡ s.slots k
  publish_key-slots s j none = refl
  publish_key-slots s j (some x) = elim (Bool-cases (s.published j)) [
    | inl before ↦ rw before refl
    | inr first ↦ rw first refl
  ]

  note_published-slots : (s : AbwSlotState) (j : ℕ) → ((note_published s j).1).slots k ≡ s.slots k
  unfolding note_published
  note_published-slots s j = elim (Bool-cases (ltb j assignment_slots)) [
    | inl inside ↦ rw inside (publish_key-slots s j (secret_key (s.slots j)))
    | inr outside ↦ rw outside refl
  ]

-- An operation before the key is due: a connection that closes does so since the retirement.
abbrev pub Before : ℕ → Op → Type 0
Before from (connecting opened_at) = Unit
Before from (resuming closed_at) = from ≤ closed_at + reveal_after
Before from sharing = Unit
Before from (tip now) = Unit
Before from (publishing slot) = Unit
Before from (rotating now at key) = Unit
Before from (revealing now) = now < from

module _ (xor_key_hash : List ℕ → List ℕ) (k : ℕ) (key : List ℕ) (from : ℕ) where
  step-Kept :
      (op : Op) (s : AbwSlotState)
      → Before from op
      → Kept s k key from
      → Silent k ((step xor_key_hash op s).0) × Kept ((step xor_key_hash op s).1) k key from
  unfolding step connect resume note_share note_tip
  step-Kept (connecting opened_at) s b h = (tt, same_slot k key from s _ refl h)
  step-Kept (resuming closed_at) s b h = (
    tt,
    resumed-retired k key from closed_at h.reveal_at h.on_open (s.slots k) h.is_retired b h.late _
        refl,
  )
  step-Kept sharing s b h = (tt, same_slot k key from s _ refl h)
  step-Kept (tip now) s b h = (tt, same_slot k key from s _ refl h)
  step-Kept (publishing slot) s b h =
      (tt, same_slot k key from s _ (note_published-slots k key from s slot) h)
  step-Kept (rotating now at fresh) s b h =
      rotate_if_due-Kept k key from xor_key_hash s at fresh (rotation_due s now)
        (waits_for_reveal k key from s now h) h
  step-Kept (revealing now) s b h = reveals_due-Kept k key from s now b h

  steps-Kept :
      (ops : List Op) (s : AbwSlotState)
      → All (Before from) ops
      → Kept s k key from
      → Silent k ((steps xor_key_hash ops s).0) × Kept ((steps xor_key_hash ops s).1) k key from
  unfolding steps
  steps-Kept [] s b h = (tt, h)
  steps-Kept (op ∷ ops) s b h =
      let one = step-Kept op s b.0 h in
      let rest = steps-Kept ops ((step xor_key_hash op s).1) b.1 one.1 in
      (All-append (λ r. r.slot ≢ k) _ _ one.0 rest.0, rest.1)

next_ne : (a : ℕ) → (a + 1) % 16 ≢ a
next_ne a e = omega (arith, e)

-- A rotation retires the active slot until the delay has passed.
rotated-retires :
    (s : AbwSlotState) (now : ℕ) (fresh key : List ℕ)
    → s.slots s.active ≡ seeded key
    → Kept (rotated s now fresh) s.active key (now + reveal_after)
unfolding rotated reveal seed retire next_slot
rotated-retires s now fresh key h = record {
  reveal_at = now + reveal_after;
  on_open = true;
  is_retired =
      update_other (update after.slots s.active (retire (after.slots s.active) now)) (next_slot s)
        (seeded fresh) s.active (λ e. moved (sym e))
      ∙ old;
  late = omega arith;
}
  where
    moved : next_slot s ≢ s.active
    moved e = next_ne s.active e

    after : AbwSlotState
    after = (reveal_entry s (next_slot s) (s.slots (next_slot s))).1

    stays : after.slots s.active ≡ seeded key
    stays = reveal_entry-other s.active key 0 s (next_slot s) (s.slots (next_slot s)) moved ∙ h

    same : (s.active == s.active) ≡ true
    same = ground arith

    old :
        update after.slots s.active (retire (after.slots s.active) now) s.active
        ≡ retired key (now + reveal_after) true
    old = rw same (ap (λ e. retire e now) stays)

-- A key stays the pool's through the delay: from the rotation that retires the active slot on,
-- whatever the session does, no reveal of that slot is sent before the delay has passed, and the
-- slot keeps its key, retired; a connection that closes does so no earlier than that rotation.
pub steps-Kept_rotated :
    (xor_key_hash : List ℕ → List ℕ) (ops : List Op) (s : AbwSlotState) (now : ℕ)
    (fresh key : List ℕ)
    → s.slots s.active ≡ seeded key
    → All (Before (now + reveal_after)) ops
    → Silent s.active ((steps xor_key_hash ops ((rotate xor_key_hash s now fresh).1)).0)
      × Kept
          ((steps xor_key_hash ops ((rotate xor_key_hash s now fresh).1)).1)
          s.active
          key
          (now + reveal_after)
unfolding rotate
steps-Kept_rotated xor_key_hash ops s now fresh key h b =
    steps-Kept xor_key_hash s.active key (now + reveal_after) ops _ b
      (rotated-retires s now fresh key h)
