-- ===== src/Base/Dict.antt =====
-- A `HashMap` keyed by numbers, as an association list; an insertion of a key not held goes last.
use Prim.Native.Nat.{ℕ, ◌≤◌, ◌<◌, suc}
use mathlib.Core.Path.{◌≡◌, refl}
use mathlib.Core.Logic.{◌≢◌}
use mathlib.Core.Bool.{Bool, true, false}
use mathlib.Core.Option.{Option, none, some}
use mathlib.Core.List.{List, [], ◌∷◌}
use native.Mathlib.Omega.{arith}
use ratum.Base.Tests.{◌==◌, if◌then◌else◌}
use ratum.Base.Lists.{length}

abbrev pub Dict {ℓ} : Type ℓ → Type ℓ
Dict V = List (ℕ × V)

module _ {ℓ} {V : Type ℓ} where
  abbrev pub find : Dict V → ℕ → Option V
  find [] k = none
  find ((j, v) ∷ d) k = if j == k then some v else find d k

  abbrev pub contains_key : Dict V → ℕ → Bool
  contains_key [] k = false
  contains_key ((j, v) ∷ d) k = if j == k then true else contains_key d k

  abbrev pub put : Dict V → ℕ → V → Dict V
  put [] k v = (k, v) ∷ []
  put ((j, u) ∷ d) k v = let rest = put d k v in if j == k then (j, v) ∷ d else (j, u) ∷ rest

  abbrev pub remove : Dict V → ℕ → Dict V
  remove [] k = []
  remove ((j, u) ∷ d) k = let rest = remove d k in if j == k then rest else (j, u) ∷ rest

  abbrev pub retain : (V → Bool) → Dict V → Dict V
  retain p [] = []
  retain p ((j, u) ∷ d) = let rest = retain p d in if p u then (j, u) ∷ rest else rest

  pub length-remove : (d : Dict V) (k : ℕ) → length (remove d k) ≤ length d
  length-remove [] k = omega arith
  length-remove ((j, u) ∷ d) k = ground (arith, length-remove d k)

  -- Removing a key that is held makes the map smaller.
  pub length-remove_held :
      (d : Dict V) (k : ℕ) → contains_key d k ≡ true → length (remove d k) < length d
  length-remove_held [] k h = absurd (ground arith)
  length-remove_held ((j, u) ∷ d) k h = ground (arith, length-remove d k, length-remove_held d k)

  pub length-retain : (p : V → Bool) (d : Dict V) → length (retain p d) ≤ length d
  length-retain p [] = omega arith
  length-retain p ((j, u) ∷ d) = ground (arith, length-retain p d)

  pub length-put : (d : Dict V) (k : ℕ) (v : V) → length (put d k v) ≤ suc (length d)
  length-put [] k v = omega arith
  length-put ((j, u) ∷ d) k v = ground (arith, length-put d k v)

  pub length-put_held :
      (d : Dict V) (k : ℕ) (v : V) → contains_key d k ≡ true → length (put d k v) ≡ length d
  length-put_held [] k v h = absurd (ground arith)
  length-put_held ((j, u) ∷ d) k v h = ground (arith, length-put_held d k v)

  pub find-contains_key : (d : Dict V) (k : ℕ) (v : V) → find d k ≡ some v → contains_key d k ≡ true
  find-contains_key [] k v h = absurd (ground arith)
  find-contains_key ((j, u) ∷ d) k v h = ground (arith, find-contains_key d k v)

  pub find-put : (d : Dict V) (k : ℕ) (v : V) → find (put d k v) k ≡ some v
  find-put [] k v = ground arith
  find-put ((j, u) ∷ d) k v = ground (arith, find-put d k v)

  pub contains_key-put : (d : Dict V) (k : ℕ) (v : V) → contains_key (put d k v) k ≡ true
  contains_key-put [] k v = ground arith
  contains_key-put ((j, u) ∷ d) k v = ground (arith, contains_key-put d k v)

  pub find-put_ne : (d : Dict V) (k h : ℕ) (v : V) → k ≢ h → find (put d k v) h ≡ find d h
  find-put_ne [] k h v n = ground (arith, n)
  find-put_ne ((j, u) ∷ d) k h v n = ground (arith, n, find-put_ne d k h v n)

  pub find-remove_ne : (d : Dict V) (k h : ℕ) → k ≢ h → find (remove d k) h ≡ find d h
  find-remove_ne [] k h n = refl
  find-remove_ne ((j, u) ∷ d) k h n = ground (arith, n, find-remove_ne d k h n)
