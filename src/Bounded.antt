-- ===== src/Bounded.antt =====
-- prime/src/bounded.rs: a map and a set that forget their oldest entry once they are past a
-- capacity.
--
-- A key is a number. Every method that changes the map returns the one it leaves.
pub mod Capacity
use ratum.Base.{
  ◌+◌, ℕ, max, List, [], ◌∷◌, ◌++◌, Option, none, some, Bool, true, false, ◌==◌, ltb, if◌then◌else◌,
  length,
}
use ratum.Base.Dict.{Dict, find, put, remove, contains_key}

pub record BoundedMap {ℓ} (V : Type ℓ) : Type ℓ where
  pub entries : Dict V
  pub order : List ℕ
  pub capacity : ℕ

-- `forget_order`: the first position of the key is removed.
unfoldable pub forget : List ℕ → ℕ → List ℕ
forget [] k = []
forget (x ∷ xs) k = let rest = forget xs k in if x == k then xs else x ∷ rest

module _ {ℓ} {V : Type ℓ} where
  -- The loop that forgets the oldest keys, while there are any.
  unfoldable pub evict : ℕ → Dict V → List ℕ → Dict V × List ℕ
  evict capacity d [] = (d, [])
  evict capacity d (oldest ∷ order) =
      let rest = evict capacity (remove d oldest) order in
      if ltb capacity (length d) then rest else (d, oldest ∷ order)

  unfoldable pub keep_entries : (ℕ → V → Bool) → Dict V → Dict V
  keep_entries keep [] = []
  keep_entries keep ((k, v) ∷ d) =
      let rest = keep_entries keep d in if keep k v then (k, v) ∷ rest else rest

  unfoldable pub keep_order : Dict V → List ℕ → List ℕ
  keep_order d [] = []
  keep_order d (k ∷ order) =
      let rest = keep_order d order in if contains_key d k then k ∷ rest else rest

  unfoldable pub new : ℕ → BoundedMap V
  new capacity = record { entries = []; order = []; capacity = max capacity 1 }

  unfoldable pub get : BoundedMap V → ℕ → Option V
  get m k = find m.entries k

  unfoldable pub get_renewed : BoundedMap V → ℕ → Option V × BoundedMap V
  get_renewed m k = (
    find m.entries k,
    if contains_key m.entries k then record m { order = forget m.order k ++ (k ∷ []) } else m,
  )

  -- The order once the key is the newest.
  unfoldable pub renewed_order : BoundedMap V → ℕ → List ℕ
  renewed_order m k = (if contains_key m.entries k then forget m.order k else m.order) ++ (k ∷ [])

  unfoldable pub insert : BoundedMap V → ℕ → V → Option V × BoundedMap V
  insert m k v =
      let left = evict m.capacity (put m.entries k v) (renewed_order m k) in
      (find m.entries k, record m { entries = left.0; order = left.1 })

  unfoldable pub delete : BoundedMap V → ℕ → Option V × BoundedMap V
  delete m k = (
    find m.entries k,
    if contains_key m.entries k
        then record m { entries = remove m.entries k; order = forget m.order k }
        else m,
  )

  unfoldable pub retain : BoundedMap V → (ℕ → V → Bool) → BoundedMap V
  retain m keep =
      let kept = keep_entries keep m.entries in
      record m { entries = kept; order = keep_order kept m.order }

-- `BoundedSet`, a map to the unit type.
abbrev pub BoundedSet : Type 0
BoundedSet = BoundedMap (Unit {0})

unfoldable pub contains : BoundedSet → ℕ → Bool
contains s x = contains_key s.entries x

unfoldable pub set_insert : BoundedSet → ℕ → Bool × BoundedSet
set_insert s x = if contains_key s.entries x then (false, s) else (true, (insert s x tt).1)

unfoldable pub set_remove : BoundedSet → ℕ → Bool × BoundedSet
set_remove s x = (contains_key s.entries x, (delete s x).1)
