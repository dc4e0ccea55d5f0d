-- ===== src/Abw/Kept.antt =====
-- A retired slot's key stays, with no reveal, through each operation.
use ratum.Base.{
  sym, ℕ, zero, suc, ◌+◌, ◌<◌, ◌≤◌, ◌≡◌, ◌≢◌, refl, ap, ◌∙◌, arith, List, [], ◌∷◌, none, some, Bool,
  true, false, ◌==◌, leb, All, Bool-cases, inl, inr,
}
use mathlib.Core.Bool.{false≢true}
use ratum.Datum.Messages.Abw.{assignment_slots}
use ratum.Abw.{
  reveal_after, Slot, empty, seeded, retired, revealed, PendingReveal, AbwSlotState, update, seed,
  held, resumed, reveal_entry, reveal, next_slot, retired_until, next_slot_reveal_at, due_at,
  is_due, due_from, push_reveal, reveal_all, reveals_due, retire, rotated, rotation_due,
}

-- No reveal is the slot's.
abbrev pub Silent : ℕ → List PendingReveal → Type 0
Silent k rs = All (λ r. r.slot ≢ k) rs

-- The slot is retired with its key, to be revealed at a time or later.
pub record Kept (s : AbwSlotState) (k : ℕ) (key : List ℕ) (from : ℕ) : Type 0 where
  pub reveal_at : ℕ
  pub on_open : Bool
  pub is_retired : s.slots k ≡ retired key reveal_at on_open
  pub late : from ≤ reveal_at

pub update_other : {A : Type 0} (f : ℕ → A) (k : ℕ) (v : A) (j : ℕ) → j ≢ k → update f k v j ≡ f j
update_other f k v j n = ground (arith, n)

module _ (k : ℕ) (key : List ℕ) (from : ℕ) where
  -- Revealing another slot leaves this one.
  pub reveal_entry-other :
      (s : AbwSlotState) (j : ℕ) (e : Slot) → j ≢ k → ((reveal_entry s j e).1).slots k ≡ s.slots k
  unfolding reveal_entry
  reveal_entry-other s j empty n = refl
  reveal_entry-other s j (seeded x) n = refl
  reveal_entry-other s j (retired x at o) n =
      update_other s.slots j (revealed x none) k (λ e. n (sym e))
  reveal_entry-other s j (revealed x none) n = refl
  reveal_entry-other s j (revealed x (some at)) n =
      update_other s.slots j (revealed x none) k (λ e. n (sym e))

  pub push_reveal-Silent :
      (s : AbwSlotState) (j : ℕ) (e : Slot) (rs : List PendingReveal)
      → j ≢ k
      → Silent k rs
      → Silent k (push_reveal ((reveal_entry s j e).0) rs)
  unfolding reveal_entry
  push_reveal-Silent s j empty rs n h = h
  push_reveal-Silent s j (seeded x) rs n h = h
  push_reveal-Silent s j (retired x at o) rs n h = (n, h)
  push_reveal-Silent s j (revealed x none) rs n h = h
  push_reveal-Silent s j (revealed x (some at)) rs n h = (n, h)

  pub same_slot :
      (s s' : AbwSlotState) → s'.slots k ≡ s.slots k → Kept s k key from → Kept s' k key from
  same_slot s s' e h = record {
    reveal_at = h.reveal_at;
    on_open = h.on_open;
    is_retired = e ∙ h.is_retired;
    late = h.late;
  }

  reveal_all-Kept :
      (s : AbwSlotState) (js : List ℕ)
      → All (λ j. j ≢ k) js
      → Kept s k key from
      → Silent k ((reveal_all s js).0) × Kept ((reveal_all s js).1) k key from
  unfolding reveal_all reveal
  reveal_all-Kept s [] n h = (tt, h)
  reveal_all-Kept s (j ∷ js) n h =
      let s' = (reveal_entry s j (s.slots j)).1 in
      let rest =
        reveal_all-Kept s' js n.1 (same_slot s s' (reveal_entry-other s j (s.slots j) n.0) h) in
      (push_reveal-Silent s j (s.slots j) ((reveal_all s' js).0) n.0 rest.0, rest.1)

  due_from-others :
      (slots : ℕ → Slot) (now : ℕ)
      → is_due now (due_at (slots k)) ≡ false
      → (count i : ℕ) → All (λ j. j ≢ k) (due_from slots now count i)
  unfolding due_from
  due_from-others slots now h zero i = tt
  due_from-others slots now h (suc count) i =
      let rest = due_from-others slots now h count (i + 1) in
      elim (Bool-cases (is_due now (due_at (slots i)))) [
        | inl due ↦ rw due (
          (λ e. false≢true (sym h ∙ ap (λ j. is_due now (due_at (slots j))) (sym e) ∙ due)),
          rest,
        )
        | inr other ↦ rw other rest
      ]

  pub reveals_due-Kept :
      (s : AbwSlotState) (now : ℕ)
      → now < from
      → Kept s k key from
      → Silent k ((reveals_due s now).0) × Kept ((reveals_due s now).1) k key from
  unfolding reveals_due due_at
  reveals_due-Kept s now early h = elim (Bool-cases (held s now)) [
    | inl waits ↦ rw waits (tt, h)
    | inr goes ↦ rw goes (
        reveal_all-Kept s (due_from s.slots now assignment_slots 0)
          (due_from-others s.slots now not_due assignment_slots 0) h)
  ]
    where
      later : leb h.reveal_at now ≡ false
      later = ground (arith, h.late, early)

      not_due : is_due now (due_at (s.slots k)) ≡ false
      not_due = ap (λ e. is_due now (due_at e)) h.is_retired ∙ later

  pub resumed-retired :
      (closed_at at : ℕ) (on_open : Bool) (e : Slot)
      → e ≡ retired key at on_open
      → from ≤ closed_at + reveal_after
      → from ≤ at
      → (s : AbwSlotState) → s.slots k ≡ resumed closed_at e
      → Kept s k key from
  unfolding resumed
  resumed-retired closed_at at true e p l m s q = record {
    reveal_at = closed_at + reveal_after;
    on_open = false;
    is_retired = q ∙ ap (resumed closed_at) p;
    late = l;
  }
  resumed-retired closed_at at false e p l m s q = record {
    reveal_at = at;
    on_open = false;
    is_retired = q ∙ ap (resumed closed_at) p;
    late = m;
  }

  -- No rotation is due while the slot is the next one.
  pub waits_for_reveal :
      (s : AbwSlotState) (now : ℕ) → Kept s k key from → next_slot s ≡ k → rotation_due s now ≡ none
  unfolding rotation_due next_slot_reveal_at retired_until
  waits_for_reveal s now h e = ground (arith, pending)
    where
      pending : retired_until (s.slots (next_slot s)) ≡ some h.reveal_at
      pending = ap (λ j. retired_until (s.slots j)) e ∙ ap retired_until h.is_retired

  pub rotated-Kept :
      (s : AbwSlotState) (now : ℕ) (fresh : List ℕ)
      → next_slot s ≢ k
      → Kept s k key from
      → Kept (rotated s now fresh) k key from
  unfolding rotated reveal seed retire
  rotated-Kept s now fresh n h = record {
    reveal_at = h.reveal_at;
    on_open = h.on_open;
    is_retired =
        update_other (update after.slots s.active (retire (after.slots s.active) now)) (next_slot s)
          (seeded fresh) k (λ e. n (sym e))
        ∙ old;
    late = h.late;
  }
    where
      after : AbwSlotState
      after = (reveal_entry s (next_slot s) (s.slots (next_slot s))).1

      stays : after.slots k ≡ retired key h.reveal_at h.on_open
      stays = reveal_entry-other s (next_slot s) (s.slots (next_slot s)) n ∙ h.is_retired

      old :
          update after.slots s.active (retire (after.slots s.active) now) k
          ≡ retired key h.reveal_at h.on_open
      old = elim (Bool-cases (k == s.active)) [
        | inl same ↦ rw same (
            ap (λ j. retire (after.slots j) now) (sym (is_same same))
            ∙ ap (λ e. retire e now) stays)
        | inr other ↦ rw other stays
      ]
        where
          is_same : (k == s.active) ≡ true → k ≡ s.active
          is_same e = ground (arith, e)
