-- ===== src/Base/Results.antt =====
-- Rust's `Result<A, E>`: `map_err`, and `and_then`, which is what `?` does.
use mathlib.Core.Bool.{Bool, true, false}
use mathlib.Core.Path.{◌≡◌, refl, ap}
use mathlib.Core.Option.{Option, none, some}
use ratum.Base.Tests.{if◌then◌else◌}

pub data Result (E : Type 0) (A : Type 0) : Type 0 where
  ok : A → Result E A
  err : E → Result E A

abbrev pub map_err : {E F A : Type 0} → (E → F) → Result E A → Result F A
map_err f (ok a) = ok a
map_err f (err e) = err (f e)

abbrev pub and_then : {E A B : Type 0} → Result E A → (A → Result E B) → Result E B
and_then (ok a) f = f a
and_then (err e) f = err e

-- A chain that succeeds has succeeded at every step.
pub and_then_ok :
    {E A B : Type 0} (m : Result E A) (f : A → Result E B) {b : B}
    → and_then m f ≡ ok b
    → (a : A) × (m ≡ ok a) × (f a ≡ ok b)
and_then_ok (ok a) f h = (a, refl, h)
and_then_ok (err e) f h = cc

-- A success behind a check that answers an error: the check did not hold.
pub if_err_ok :
    {E A : Type 0} (t : Bool) (e : E) (m : Result E A) {a : A}
    → (if t then err e else m) ≡ ok a
    → (t ≡ false) × (m ≡ ok a)
if_err_ok true e m h = cc
if_err_ok false e m h = (refl, h)

pub some_inj : {A : Type 0} {a b : A} → some a ≡ some b → a ≡ b
some_inj {a = a} e = ap (λ o. elim o [ none ↦ a | some x ↦ x ]) e

-- A chain of options that gives a value has one at its first step.
pub elim_some :
    {A B : Type 0} (x : Option A) (f : A → Option B) {b : B}
    → ◌≡◌ {A = Option B} (elim x [ none ↦ none | some a ↦ f a ]) (some b)
    → (a : A) × (x ≡ some a) × (f a ≡ some b)
elim_some none f h = absurd cc
elim_some (some a) f h = (a, refl, h)
