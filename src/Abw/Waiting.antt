-- ===== src/Abw/Waiting.antt =====
-- prime/src/abw.rs: what a connection asks of its slots without changing them, the notices it opens
-- with and the instant it waits for.
use ratum.Base.{
  ℕ, zero, suc, ◌+◌, ◌≤◌, ◌≡◌, refl, ap, ◌∙◌, arith, min, max, List, [], ◌∷◌, ◌++◌, Option, none,
  some, Bool, true, false, not, ◌||◌, ◌&&◌, if◌then◌else◌, Bool-cases, inl, inr,
}
use ratum.Datum.Messages.Abw.{assignment_slots}
use ratum.Abw.{
  Slot, empty, seeded, retired, revealed, AbwSlotState, held, rotate_after, active_published,
  notice, next_slot_reveal_at, due_at, is_due, due_from, reveal_all, reveals_due,
}

abbrev pub is_retired : Slot → Bool
is_retired empty = false
is_retired (seeded key) = false
is_retired (retired key reveal_at on_open) = true
is_retired (revealed key resend_at) = false

abbrev pub push_notice : Option (List ℕ) → List (List ℕ) → List (List ℕ)
push_notice none ns = ns
push_notice (some n) ns = n ∷ ns

unfoldable pub retired_notices : (List ℕ → List ℕ) → AbwSlotState → (count slot : ℕ) → List (List ℕ)
retired_notices xor_key_hash s zero slot = []
retired_notices xor_key_hash s (suc count) slot =
    let rest = retired_notices xor_key_hash s count (slot + 1) in
    if is_retired (s.slots slot) then push_notice (notice xor_key_hash s slot false) rest else rest

unfoldable pub notices : (List ℕ → List ℕ) → AbwSlotState → List (List ℕ)
notices xor_key_hash s =
    retired_notices xor_key_hash s assignment_slots 0
    ++ push_notice (notice xor_key_hash s s.active true) []

unfoldable pub any_due : (ℕ → Slot) → ℕ → (count slot : ℕ) → Bool
any_due slots now zero slot = false
any_due slots now (suc count) slot =
    is_due now (due_at (slots slot)) || any_due slots now count (slot + 1)

unfoldable pub reveal_due : AbwSlotState → ℕ → Bool
reveal_due s now = not (held s now) && any_due s.slots now assignment_slots 0

abbrev pub sooner : Option ℕ → Option ℕ → Option ℕ
sooner none b = b
sooner (some a) none = some a
sooner (some a) (some b) = some (min a b)

unfoldable pub earliest : (ℕ → Slot) → (count slot : ℕ) → Option ℕ
earliest slots zero slot = none
earliest slots (suc count) slot = sooner (due_at (slots slot)) (earliest slots count (slot + 1))

abbrev pub or_later : ℕ → Option ℕ → ℕ
or_later at none = at
or_later at (some other) = max at other

abbrev pub or_sooner : ℕ → Option ℕ → ℕ
or_sooner at none = at
or_sooner at (some other) = min at other

unfoldable pub next_due : AbwSlotState → ℕ
next_due s =
    let rotation =
      if s.tip_rotation_pending || active_published s
      then s.held_until
      else s.activated_at + rotate_after in
    max
      (or_sooner (or_later rotation (next_slot_reveal_at s)) (earliest s.slots assignment_slots 0))
      s.held_until

is_due-sooner :
    (now : ℕ) (a b : Option ℕ) → is_due now (sooner a b) ≡ (is_due now a || is_due now b)
is_due-sooner now none b = refl
is_due-sooner now (some a) none = ground arith
is_due-sooner now (some a) (some b) = ground arith

is_due-earliest :
    (slots : ℕ → Slot) (now count slot : ℕ)
    → is_due now (earliest slots count slot) ≡ any_due slots now count slot
unfolding earliest any_due
is_due-earliest slots now zero slot = refl
is_due-earliest slots now (suc count) slot =
    is_due-sooner now (due_at (slots slot)) (earliest slots count (slot + 1))
    ∙ ap (λ b. is_due now (due_at (slots slot)) || b) (is_due-earliest slots now count (slot + 1))

-- With no slot due there is none to reveal.
due_from-none :
    (slots : ℕ → Slot) (now count slot : ℕ)
    → any_due slots now count slot ≡ false
    → due_from slots now count slot ≡ []
unfolding due_from any_due
due_from-none slots now zero slot h = refl
due_from-none slots now (suc count) slot h =
    ground (arith, h, due_from-none slots now count (slot + 1))

-- Where no reveal is due, sending those that are due sends none and changes nothing.
pub reveals_due-none :
    (s : AbwSlotState) (now : ℕ) → reveal_due s now ≡ false → reveals_due s now ≡ ([], s)
unfolding reveals_due reveal_due reveal_all
reveals_due-none s now h = elim (Bool-cases (held s now)) [
  | inl waits ↦ rw waits refl
  | inr goes ↦ rw (goes, due_from-none s.slots now assignment_slots 0 (any_false goes)) refl
]
  where
    any_false : held s now ≡ false → any_due s.slots now assignment_slots 0 ≡ false
    any_false goes = ground (arith, h, goes)

or_sooner-is_due : (at now : ℕ) (e : Option ℕ) → is_due now e ≡ true → or_sooner at e ≤ now
or_sooner-is_due at now none h = ground (arith, h)
or_sooner-is_due at now (some m) h = ground (arith, h)

-- A connection that waits until the next due instant misses no reveal: one is due only from then on.
pub next_due-le : (s : AbwSlotState) (now : ℕ) → reveal_due s now ≡ true → next_due s ≤ now
unfolding next_due reveal_due held
next_due-le s now h = omega (arith, over, soon)
  where
    over : s.held_until ≤ now
    over = ground (arith, h)

    some_due : any_due s.slots now assignment_slots 0 ≡ true
    some_due = ground (arith, h)

    soon : (at : ℕ) → or_sooner at (earliest s.slots assignment_slots 0) ≤ now
    soon at = or_sooner-is_due at now _ (is_due-earliest s.slots now assignment_slots 0 ∙ some_due)
