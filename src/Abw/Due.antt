-- ===== src/Abw/Due.antt =====
-- A key that is due is disclosed.
use ratum.Base.{
  ℕ, zero, suc, ◌+◌, ◌<◌, ◌≤◌, ◌≡◌, ◌⊎◌, refl, sym, ap, subst, ◌∙◌, arith, List, [], ◌∷◌, Option,
  none, some, Bool, true, false, ◌==◌, leb, ltb, Bool-cases, inl, inr,
}
use ratum.Datum.Messages.Abw.{assignment_slots, encode_reveal}
use ratum.Abw.{
  Slot, retired, revealed, PendingReveal, AbwSlotState, held, reveal_entry, reveal, due_at, is_due,
  due_from, push_reveal, reveal_all, reveals_due,
}
use ratum.Abw.Kept.{reveal_entry-other}

-- One of the list's entries is the value.
abbrev pub IsIn : {A : Type 0} → A → List A → Type 0
IsIn a [] = ⊥
IsIn a (x ∷ xs) = (a ≡ x) ⊎ IsIn a xs

-- The first reveal of a slot's key.
abbrev pub first_reveal : ℕ → List ℕ → PendingReveal
first_reveal slot key = record {
  slot = slot;
  resend = false;
  payload = encode_reveal (record { slot = slot; xor_key = key });
}

due_from-IsIn :
    (slots : ℕ → Slot) (now k : ℕ)
    → is_due now (due_at (slots k)) ≡ true
    → (count i : ℕ) → i ≤ k
    → k < i + count
    → IsIn k (due_from slots now count i)
unfolding due_from
due_from-IsIn slots now k h zero i l m = absurd (omega (arith, l, m))
due_from-IsIn slots now k h (suc count) i l m = elim (Bool-cases (i == k)) [
  | inl same ↦ rw (ap (λ j. is_due now (due_at (slots j))) (here same) ∙ h) (inl (sym (here same)))
  | inr other ↦
      let rest =
        due_from-IsIn slots now k h count (i + 1) (ground (arith, other, l)) (omega (arith, m)) in
      elim (Bool-cases (is_due now (due_at (slots i)))) [
        | inl due ↦ rw due (inr rest)
        | inr early ↦ rw early rest
      ]
]
  where
    here : (i == k) ≡ true → i ≡ k
    here e = ground (arith, e)

module _ (k : ℕ) (key : List ℕ) where
  push_reveal-IsIn :
      (r : PendingReveal) (one : Option PendingReveal) (rs : List PendingReveal)
      → IsIn r rs
      → IsIn r (push_reveal one rs)
  push_reveal-IsIn r none rs h = h
  push_reveal-IsIn r (some x) rs h = inr h

  -- A key that is out stays so.
  reveal_entry-revealed :
      (s : AbwSlotState) (j : ℕ)
      → s.slots k ≡ revealed key none
      → ((reveal_entry s j (s.slots j)).1).slots k ≡ revealed key none
  unfolding reveal_entry
  reveal_entry-revealed s j h = elim (Bool-cases (j == k)) [
    | inl same ↦
        subst (λ (i : ℕ). ((reveal_entry s i (s.slots i)).1).slots k ≡ revealed key none)
          (sym (here same))
          (subst (λ (e : Slot). ((reveal_entry s k e).1).slots k ≡ revealed key none) (sym h) h)
    | inr other ↦ reveal_entry-other k key 0 s j (s.slots j) (λ e. ground (arith, other, e)) ∙ h
  ]
    where
      here : (j == k) ≡ true → j ≡ k
      here e = ground (arith, e)

  reveal_all-revealed :
      (s : AbwSlotState) (js : List ℕ)
      → s.slots k ≡ revealed key none
      → ((reveal_all s js).1).slots k ≡ revealed key none
  unfolding reveal_all reveal
  reveal_all-revealed s [] h = h
  reveal_all-revealed s (j ∷ js) h =
      reveal_all-revealed ((reveal_entry s j (s.slots j)).1) js (reveal_entry-revealed s j h)

  reveal_entry-retired :
      (s : AbwSlotState) (at : ℕ) (on_open : Bool) (e : Slot)
      → e ≡ retired key at on_open
      → ((reveal_entry s k e).0 ≡ some (first_reveal k key))
        × (((reveal_entry s k e).1).slots k ≡ revealed key none)
  unfolding reveal_entry
  reveal_entry-retired s at on_open e h =
      subst
        (λ (e : Slot).
          ((reveal_entry s k e).0 ≡ some (first_reveal k key))
          × (((reveal_entry s k e).1).slots k ≡ revealed key none))
        (sym h) (refl, ground arith)

  reveal_all-IsIn :
      (at : ℕ) (on_open : Bool) (s : AbwSlotState) (js : List ℕ)
      → IsIn k js
      → s.slots k ≡ retired key at on_open
      → IsIn (first_reveal k key) ((reveal_all s js).0)
        × (((reveal_all s js).1).slots k ≡ revealed key none)
  unfolding reveal_all reveal
  reveal_all-IsIn at on_open s [] l h = absurd l
  reveal_all-IsIn at on_open s (j ∷ js) l h = elim (Bool-cases (j == k)) [
    | inl same ↦
        subst
          (λ (i : ℕ).
            IsIn (first_reveal k key) ((reveal_all s (i ∷ js)).0)
            × (((reveal_all s (i ∷ js)).1).slots k ≡ revealed key none))
          (sym (here same))
          (
            rw (reveal_entry-retired s at on_open (s.slots k) h).0 (inl refl),
            reveal_all-revealed _ js (reveal_entry-retired s at on_open (s.slots k) h).1,
          )
    | inr other ↦
        let rest =
          reveal_all-IsIn at on_open ((reveal_entry s j (s.slots j)).1) js (later other l)
            (reveal_entry-other k key 0 s j (s.slots j) (λ e. ground (arith, other, e)) ∙ h) in
        (push_reveal-IsIn _ _ _ rest.0, rest.1)
  ]
    where
      here : (j == k) ≡ true → j ≡ k
      here e = ground (arith, e)

      later : (j == k) ≡ false → (k ≡ j) ⊎ IsIn k js → IsIn k js
      later o (inl e) = absurd (ground (arith, o, e))
      later o (inr m) = m

-- A retired slot whose time has come is disclosed: once the connection's hold is over, the reveals
-- that are due hold its key's first one, and the slot is revealed with its key.
pub reveals_due-IsIn :
    (s : AbwSlotState) (now k at : ℕ) (key : List ℕ) (on_open : Bool)
    → k < assignment_slots
    → s.slots k ≡ retired key at on_open
    → at ≤ now
    → s.held_until ≤ now
    → IsIn (first_reveal k key) ((reveals_due s now).0)
      × (((reveals_due s now).1).slots k ≡ revealed key none)
unfolding reveals_due held due_at
reveals_due-IsIn s now k at key on_open l h due over = rw free (
    reveal_all-IsIn k key at on_open s (due_from s.slots now assignment_slots 0)
      (due_from-IsIn s.slots now k is_time assignment_slots 0 (omega arith) l) h)
  where
    free : ltb now s.held_until ≡ false
    free = ground (arith, over)

    come : leb at now ≡ true
    come = ground (arith, due)

    is_time : is_due now (due_at (s.slots k)) ≡ true
    is_time = ap (λ e. is_due now (due_at e)) h ∙ come
