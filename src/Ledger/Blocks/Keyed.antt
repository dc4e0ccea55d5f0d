-- ===== src/Ledger/Blocks/Keyed.antt =====
-- Lists of records under their block's hash: what `find`, `position`, a write and `remove` at the
-- position found do.
use ratum.Base.{
  ℕ, ◌≡◌, refl, sym, ap, arith, List, [], ◌∷◌, ◌++◌, Option, none, some, true, same_bytes,
  same_bytes_refl, same_bytes→≡, if◌then◌else◌, Bool-cases, inl, inr, ◌∙◌,
}

-- Tests against the same bytes agree.
same_right : (x a k : List ℕ) → same_bytes a k ≡ true → same_bytes x k ≡ same_bytes x a
same_right x a k h = ap (same_bytes x) (sym (same_bytes→≡ a k h))

same_left : (x k j : List ℕ) → same_bytes x k ≡ true → same_bytes x j ≡ same_bytes k j
same_left x k j h = ap (λ t. same_bytes t j) (same_bytes→≡ x k h)

same_sym : (x k : List ℕ) → same_bytes x k ≡ true → same_bytes k x ≡ true
same_sym x k h = ap (λ t. same_bytes k t) (same_bytes→≡ x k h) ∙ same_bytes_refl k

module _ {A : Type 0} (key : A → List ℕ) where
  abbrev pub find_key : List A → List ℕ → Option A
  find_key [] k = none
  find_key (a ∷ xs) k = if same_bytes (key a) k then some a else find_key xs k

  -- The first record under the key is replaced, or removed.
  abbrev pub replace_key : List A → List ℕ → A → List A
  replace_key [] k b = []
  replace_key (a ∷ xs) k b =
      let rest = replace_key xs k b in if same_bytes (key a) k then b ∷ xs else a ∷ rest

  abbrev pub remove_key : List A → List ℕ → List A
  remove_key [] k = []
  remove_key (a ∷ xs) k =
      let rest = remove_key xs k in if same_bytes (key a) k then xs else a ∷ rest

  -- No key stands twice.
  abbrev pub IsUnique : List A → Type 0
  IsUnique [] = Unit
  IsUnique (a ∷ xs) = (find_key xs (key a) ≡ none) × IsUnique xs

  pub find_key-append :
      (xs : List A) (a : A) (k : List ℕ)
      → find_key xs (key a) ≡ none
      → find_key (xs ++ (a ∷ [])) k ≡ (if same_bytes (key a) k then some a else find_key xs k)
  find_key-append [] a k h = refl
  find_key-append (x ∷ xs) a k h =
      ground (arith, h, find_key-append xs a k, same_right (key x) (key a) k)

  pub find_key-replace_key :
      (xs : List A) (a b : A) (k j : List ℕ)
      → find_key xs k ≡ some a
      → key b ≡ k
      → find_key (replace_key xs k b) j ≡ (if same_bytes k j then some b else find_key xs j)
  find_key-replace_key [] a b k j h e = absurd (ground (arith, h))
  find_key-replace_key (x ∷ xs) a b k j h e = ground (
    arith,
    h,
    find_key-replace_key xs a b k j,
    e,
    ap (λ t. same_bytes t j) e,
    same_left (key x) k j,
    same_right (key x) k j,
  )

  pub find_key-remove_key :
      (xs : List A) (k j : List ℕ)
      → IsUnique xs
      → find_key (remove_key xs k) j ≡ (if same_bytes k j then none else find_key xs j)
  find_key-remove_key [] k j u = ground arith
  find_key-remove_key (x ∷ xs) k j u = ground (
    arith,
    u.0,
    find_key-remove_key xs k j u.1,
    same_left (key x) k j,
    same_right (key x) k j,
    gone,
  )
    where
      gone : same_bytes (key x) k ≡ true → same_bytes k j ≡ true → find_key xs j ≡ none
      gone h g = ap (find_key xs) (sym (same_bytes→≡ (key x) k h ∙ same_bytes→≡ k j g)) ∙ u.0

  pub IsUnique-append :
      (xs : List A) (a : A) → find_key xs (key a) ≡ none → IsUnique xs → IsUnique (xs ++ (a ∷ []))
  IsUnique-append [] a h u = (refl, tt)
  IsUnique-append (x ∷ xs) a h u = (
    ground (arith, h, u.0, find_key-append xs a (key x), same_sym (key a) (key x)),
    IsUnique-append xs a (ground (arith, h)) u.1,
  )

  pub IsUnique-replace_key :
      (xs : List A) (a b : A) (k : List ℕ)
      → find_key xs k ≡ some a
      → key b ≡ k
      → IsUnique xs
      → IsUnique (replace_key xs k b)
  IsUnique-replace_key [] a b k h e u = tt
  IsUnique-replace_key (x ∷ xs) a b k h e u = elim (Bool-cases (same_bytes (key x) k)) [
    | inl same ↦ rw same (ap (find_key xs) (e ∙ sym (same_bytes→≡ (key x) k same)) ∙ u.0, u.1)
    | inr other ↦ rw other (
      ground (arith, u.0, h, other, find_key-replace_key xs a b k (key x), same_sym k (key x)),
      IsUnique-replace_key xs a b k (ground (arith, h, other)) e u.1,
    )
  ]

  pub IsUnique-remove_key : (xs : List A) (k : List ℕ) → IsUnique xs → IsUnique (remove_key xs k)
  IsUnique-remove_key [] k u = tt
  IsUnique-remove_key (x ∷ xs) k u = elim (Bool-cases (same_bytes (key x) k)) [
    | inl same ↦ rw same u.1
    | inr other ↦
        rw other
          (ground (arith, u.0, find_key-remove_key xs k (key x) u.1), IsUnique-remove_key xs k u.1)
  ]
