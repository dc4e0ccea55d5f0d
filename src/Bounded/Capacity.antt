-- ===== src/Bounded/Capacity.antt =====
-- The map stays within its capacity.
use ratum.Base.{
  ℕ, ◌≤◌, ◌≡◌, ◌≢◌, refl, sym, ap, arith, List, [], ◌∷◌, ◌++◌, Bool, true, false, ◌==◌, ==_iff, ◌∙◌,
  ltb, if◌then◌else◌, length, Bool-cases, inl, inr,
}
use ratum.Base.Dict.{Dict, put, remove, contains_key, length-remove}
use ratum.Bounded.{BoundedMap, forget, evict, renewed_order, insert, delete}

abbrev pub is_in : List ℕ → ℕ → Bool
is_in [] x = false
is_in (y ∷ ys) x = if y == x then true else is_in ys x

is_in-append : (xs : List ℕ) (k x : ℕ) → is_in xs x ≡ true → is_in (xs ++ (k ∷ [])) x ≡ true
is_in-append [] k x h = absurd (ground arith)
is_in-append (y ∷ ys) k x h = ground (arith, is_in-append ys k x)

is_in_last : (xs : List ℕ) (k : ℕ) → is_in (xs ++ (k ∷ [])) k ≡ true
is_in_last [] k = ground arith
is_in_last (y ∷ ys) k = ground (arith, is_in_last ys k)

is_in-forget : (xs : List ℕ) (k x : ℕ) → x ≢ k → is_in xs x ≡ true → is_in (forget xs k) x ≡ true
unfolding forget
is_in-forget [] k x h m = m
is_in-forget (y ∷ ys) k x h m = ground (arith, h, m, is_in-forget ys k x h)

module _ {ℓ} {V : Type ℓ} where
  contains_key-remove_self : (d : Dict V) (k : ℕ) → contains_key (remove d k) k ≡ false
  contains_key-remove_self [] k = refl
  contains_key-remove_self ((j, u) ∷ d) k = ground (arith, contains_key-remove_self d k)

  contains_key-remove :
      (d : Dict V) (k x : ℕ) → contains_key (remove d k) x ≡ true → contains_key d x ≡ true
  contains_key-remove [] k x h = h
  contains_key-remove ((j, u) ∷ d) k x h = ground (arith, h, contains_key-remove d k x)

  contains_key-put_ne :
      (d : Dict V) (k x : ℕ) (v : V)
      → x ≢ k
      → contains_key (put d k v) x ≡ true
      → contains_key d x ≡ true
  contains_key-put_ne [] k x v h m = absurd (ground (arith, h, m))
  contains_key-put_ne ((j, u) ∷ d) k x v h m = ground (arith, h, m, contains_key-put_ne d k x v h)

  -- Every key held has its place in the order.
  abbrev pub Covered : Dict V → List ℕ → Type 0
  Covered d order = (x : ℕ) → contains_key d x ≡ true → is_in order x ≡ true

  Covered-tail :
      (d : Dict V) (o : ℕ) (order : List ℕ) → Covered d (o ∷ order) → Covered (remove d o) order
  Covered-tail d o order h x m =
      ground (arith, m, h x (contains_key-remove d o x m), contains_key-remove_self d o, same)
    where
      same : o ≡ x → contains_key (remove d o) x ≡ contains_key (remove d o) o
      same e = ap (contains_key (remove d o)) (sym e)

  nothing_held : (d : Dict V) → Covered d [] → length d ≡ 0
  nothing_held [] h = refl
  nothing_held ((j, u) ∷ d) h = absurd (ground (arith, h j))

  evict-Covered :
      (capacity : ℕ) (d : Dict V) (order : List ℕ)
      → Covered d order
      → Covered ((evict capacity d order).0) ((evict capacity d order).1)
  unfolding evict
  evict-Covered capacity d [] h = h
  evict-Covered capacity d (o ∷ order) h = elim (Bool-cases (ltb capacity (length d))) [
    | inl over ↦ rw over (evict-Covered capacity (remove d o) order (Covered-tail d o order h))
    | inr within ↦ rw within h
  ]

  evict-length :
      (capacity : ℕ) (d : Dict V) (order : List ℕ)
      → Covered d order
      → length ((evict capacity d order).0) ≤ capacity
  unfolding evict
  evict-length capacity d [] h = omega (arith, nothing_held d h)
  evict-length capacity d (o ∷ order) h =
      ground (arith, evict-length capacity (remove d o) order (Covered-tail d o order h))

  put-Covered :
      (m : BoundedMap V) (k : ℕ) (v : V)
      → Covered m.entries m.order
      → Covered (put m.entries k v) (renewed_order m k)
  unfolding renewed_order
  put-Covered m k v h x c = elim (Bool-cases (x == k)) [
    | inl same ↦
        newest (if contains_key m.entries k then forget m.order k else m.order)
          ((==_iff x k).0 same)
    | inr other ↦
        older (differs other) (h x (contains_key-put_ne m.entries k x v (differs other) c))
          (contains_key m.entries k)
  ]
    where
      differs : (x == k) ≡ false → x ≢ k
      differs e f = ground arith

      newest : (xs : List ℕ) → x ≡ k → is_in (xs ++ (k ∷ [])) x ≡ true
      newest xs e = ap (is_in (xs ++ (k ∷ []))) e ∙ is_in_last xs k

      older :
          x ≢ k
          → is_in m.order x ≡ true
          → (b : Bool) → is_in ((if b then forget m.order k else m.order) ++ (k ∷ [])) x ≡ true
      older ne i true = is_in-append (forget m.order k) k x (is_in-forget m.order k x ne i)
      older ne i false = is_in-append m.order k x i

  -- A map within its capacity, whose keys all stand in the order.
  pub record IsBounded (m : BoundedMap V) : Type ℓ where
    pub covered : Covered m.entries m.order
    pub within : length m.entries ≤ m.capacity

  -- The capacity bounds the map: an insertion into any map whose keys all stand in its order leaves
  -- one whose keys do, with no more entries than the capacity.
  pub insert-IsBounded :
      (m : BoundedMap V) (k : ℕ) (v : V) → Covered m.entries m.order → IsBounded ((insert m k v).1)
  unfolding insert
  insert-IsBounded m k v h =
      let c = put-Covered m k v h in
      record {
        covered = evict-Covered m.capacity (put m.entries k v) (renewed_order m k) c;
        within = evict-length m.capacity (put m.entries k v) (renewed_order m k) c;
      }

  -- Removing a key from a bounded map leaves it bounded, and the key is gone.
  pub delete-IsBounded :
      (m : BoundedMap V) (k : ℕ)
      → IsBounded m
      → IsBounded ((delete m k).1) × (contains_key ((delete m k).1).entries k ≡ false)
  unfolding delete
  delete-IsBounded m k h = elim (Bool-cases (contains_key m.entries k)) [
    | inl held ↦ rw held (
      record {
        covered = λ x c.
            is_in-forget m.order k x (gone x c) (h.covered x (contains_key-remove m.entries k x c));
        within = omega (arith, h.within, length-remove m.entries k);
      },
      contains_key-remove_self m.entries k,
    )
    | inr absent ↦ rw absent (h, absent)
  ]
    where
      gone : (x : ℕ) → contains_key (remove m.entries k) x ≡ true → x ≢ k
      gone x c e = absurd (
          ground (
            arith,
            c,
            contains_key-remove_self m.entries k,
            ap (contains_key (remove m.entries k)) e,
          ))
