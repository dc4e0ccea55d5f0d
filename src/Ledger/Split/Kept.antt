-- ===== src/Ledger/Split/Kept.antt =====
-- What the sort, the limit on the outputs and the loop that drops small entries leave.
use ratum.Base.{
  ◌-◌, ◌<◌, ◌==◌, leb, ◌/◌, ℕ, zero, suc, ◌+◌, ◌≤◌, ◌≡◌, refl, List, [], ◌∷◌, ◌++◌, arith, true,
  false, Bool-cases, inl, inr, ==_iff, leb→le, length, length-append, All, All-append, take,
}
use mathlib.Core.List.{reverse, reverse-cons}
use native.Mathlib.Nat.{le_trans}
use ratum.Ledger.Split.{
  Entry, prune, saturating_mul, total_weight, behind, insert_entry, sort_entries,
}

-- Weights fall from the head, and rise from it.
abbrev pub IsFalling : List Entry → Type 0
IsFalling [] = Unit
IsFalling (e ∷ es) = All (λ x. x.1 ≤ e.1) es × IsFalling es

abbrev pub IsRising : List Entry → Type 0
IsRising [] = Unit
IsRising (e ∷ es) = All (λ x. e.1 ≤ x.1) es × IsRising es

behind_weight : (e x : Entry) → (behind e x ≡ true → e.1 ≤ x.1) × (behind e x ≡ false → x.1 ≤ e.1)
unfolding behind
behind_weight e x = (λ h. ground arith, λ h. ground arith)

All-insert_entry {κ} :
    (P : Entry → Type κ) (e : Entry) (xs : List Entry) → P e → All P xs → All P (insert_entry e xs)
unfolding insert_entry
All-insert_entry P e [] p h = (p, tt)
All-insert_entry P e (x ∷ xs) p h = elim (Bool-cases (behind e x)) [
  | inl later ↦ rw later (h.0, All-insert_entry P e xs p h.1)
  | inr now ↦ rw now (p, h)
]

heavier :
    (e x : Entry) (xs : List Entry) → x.1 ≤ e.1 → All (λ y. y.1 ≤ x.1) xs → All (λ y. y.1 ≤ e.1) xs
heavier e x [] h k = tt
heavier e x (y ∷ ys) h k = (le_trans k.0 h, heavier e x ys h k.1)

insert_entry-IsFalling :
    (e : Entry) (xs : List Entry) → IsFalling xs → IsFalling (insert_entry e xs)
unfolding insert_entry
insert_entry-IsFalling e [] h = (tt, tt)
insert_entry-IsFalling e (x ∷ xs) h = elim (Bool-cases (behind e x)) [
  | inl later ↦
      rw later
        (All-insert_entry _ e xs ((behind_weight e x).0 later) h.0, insert_entry-IsFalling e xs h.1)
  | inr now ↦
      rw now (((behind_weight e x).1 now, heavier e x xs ((behind_weight e x).1 now) h.0), h)
]

-- The sort puts the most work first.
pub sort_entries-IsFalling : (es : List Entry) → IsFalling (sort_entries es)
unfolding sort_entries
sort_entries-IsFalling [] = tt
sort_entries-IsFalling (e ∷ es) = insert_entry-IsFalling e _ (sort_entries-IsFalling es)

total_weight-insert_entry :
    (e : Entry) (xs : List Entry) → total_weight (insert_entry e xs) ≡ e.1 + total_weight xs
unfolding insert_entry
total_weight-insert_entry e [] = omega arith
total_weight-insert_entry e (x ∷ xs) = ground (arith, total_weight-insert_entry e xs)

-- No work is lost in the sort.
pub total_weight-sort_entries : (es : List Entry) → total_weight (sort_entries es) ≡ total_weight es
unfolding sort_entries
total_weight-sort_entries [] = refl
total_weight-sort_entries (e ∷ es) =
    omega (arith, total_weight-insert_entry e (sort_entries es), total_weight-sort_entries es)

pub total_weight-take : (n : ℕ) (es : List Entry) → total_weight (take n es) ≤ total_weight es
total_weight-take zero es = omega arith
total_weight-take (suc n) [] = omega arith
total_weight-take (suc n) (e ∷ es) = omega (arith, total_weight-take n es)

pub All-take {ℓ κ} :
    {A : Type ℓ} (P : A → Type κ) (n : ℕ) (xs : List A) → All P xs → All P (take n xs)
All-take P zero xs h = tt
All-take P (suc n) [] h = tt
All-take P (suc n) (x ∷ xs) h = (h.0, All-take P n xs h.1)

pub take-IsFalling : (n : ℕ) (es : List Entry) → IsFalling es → IsFalling (take n es)
take-IsFalling zero es h = tt
take-IsFalling (suc n) [] h = tt
take-IsFalling (suc n) (e ∷ es) h = (All-take _ n es h.0, take-IsFalling n es h.1)

total_weight-append :
    (xs ys : List Entry) → total_weight (xs ++ ys) ≡ total_weight xs + total_weight ys
total_weight-append [] ys = omega arith
total_weight-append (x ∷ xs) ys = omega (arith, total_weight-append xs ys)

pub total_weight-reverse : (es : List Entry) → total_weight (reverse es) ≡ total_weight es
total_weight-reverse [] = refl
total_weight-reverse (e ∷ es) =
    rw reverse-cons
      (omega (arith, total_weight-append (reverse es) (e ∷ []), total_weight-reverse es))

pub length-reverse : (es : List Entry) → length (reverse es) ≡ length es
length-reverse [] = refl
length-reverse (e ∷ es) =
    rw reverse-cons (omega (arith, length-append (reverse es) (e ∷ []), length-reverse es))

pub All-reverse {κ} : (P : Entry → Type κ) (es : List Entry) → All P es → All P (reverse es)
All-reverse P [] h = tt
All-reverse P (e ∷ es) h =
    rw reverse-cons (All-append P (reverse es) (e ∷ []) (All-reverse P es h.1) (h.0, tt))

IsRising-snoc :
    (xs : List Entry) (e : Entry)
    → IsRising xs
    → All (λ x. x.1 ≤ e.1) xs
    → IsRising (xs ++ (e ∷ []))
IsRising-snoc [] e h k = (tt, tt)
IsRising-snoc (x ∷ xs) e h k = (All-append _ xs (e ∷ []) h.0 (k.0, tt), IsRising-snoc xs e h.1 k.1)

pub reverse-IsRising : (es : List Entry) → IsFalling es → IsRising (reverse es)
reverse-IsRising [] h = tt
reverse-IsRising (e ∷ es) h =
    rw reverse-cons (IsRising-snoc (reverse es) e (reverse-IsRising es h.1) (All-reverse _ es h.0))

abbrev HeadIsWorth : ℕ → ℕ → ℕ → List Entry → Type 0
HeadIsWorth value minimum work [] = Unit
HeadIsWorth value minimum work (e ∷ es) = (0 < work) × (minimum ≤ saturating_mul value (e.1) / work)

-- What the loop that drops small entries leaves: the work that goes with the entries, which
-- are those behind the dropped ones, and whose lightest is worth the minimum.
pub record IsKept (value minimum : ℕ) (es : List Entry) (p : ℕ × List Entry) : Type 0 where
  pub work : p.0 ≡ total_weight (p.1)
  pub within : p.0 ≤ total_weight es
  pub fewer : length (p.1) ≤ length es
  pub rising : IsRising es → IsRising (p.1)
  pub worth : HeadIsWorth value minimum (p.0) (p.1)

pub prune-IsKept :
    (value minimum work : ℕ) (es : List Entry)
    → work ≡ total_weight es
    → IsKept value minimum es (prune value minimum work es)
unfolding prune
prune-IsKept value minimum work [] h = record {
  work = h;
  within = omega arith;
  fewer = omega arith;
  rising = λ r. r;
  worth = tt;
}
prune-IsKept value minimum work ((a, w) ∷ es) h = elim (Bool-cases (work == 0)) [
  | inl empty ↦ rw empty (record {
    work = omega (arith, (==_iff _ _).0 empty);
    within = omega arith;
    fewer = omega arith;
    rising = λ r. tt;
    worth = tt;
  })
  | inr some_work ↦ elim (Bool-cases (leb minimum (saturating_mul value w / work))) [
    | inl enough ↦
        rw (some_work, enough)
          (record {
            work = h;
            within = omega arith;
            fewer = omega arith;
            rising = λ r. r;
            worth = (ground arith, leb→le _ _ enough);
          })
    | inr small ↦
        rw (some_work, small) (popped (prune-IsKept value minimum (work - w) es (omega arith)))
  ]
]
  where
    popped :
        IsKept value minimum es (prune value minimum (work - w) es)
        → IsKept value minimum ((a, w) ∷ es) (prune value minimum (work - w) es)
    popped k = record {
      work = k.work;
      within = omega (arith, k.within);
      fewer = omega (arith, k.fewer);
      rising = λ r. k.rising r.1;
      worth = k.worth;
    }
