-- ===== src/Base/Bits.antt =====
-- The bit operations at variables, from their digits: masks as remainders, an OR of disjoint
-- fields as a sum, and an XOR with one key undone by the same key.
use Prim.Native.Nat.{
  ℕ, zero, suc, ◌+◌, ◌-◌, ◌*◌, ◌/◌, ◌%◌, ◌^◌, ◌≤◌, ◌<◌, min, max, digits, differ, bit_and-bitwise,
  bit_or-bitwise, bit_xor-bitwise,
}
pub use Prim.Native.Nat.{bit_and, bit_or, bit_xor}
use mathlib.Core.Path.{◌≡◌, refl, sym, ap, ap₂, ◌∙◌}
use native.Mathlib.Omega.{arith}
use native.Mathlib.Nat.{pow-suc, one-le-pow, div-add-mod, mod-lt}

-- One round of the digit recursion, whatever fuel at least the first argument is left.
module _ (rest : ℕ → ℕ) (op : ℕ → ℕ → ℕ) where
  same_digits : (x j k y : ℕ) → x ≤ j → x ≤ k → digits rest op j x y ≡ digits rest op k x y
  same_digits x zero zero y hj hk = refl
  same_digits zero zero (suc k) y hj hk = refl
  same_digits zero (suc j) zero y hj hk = refl
  same_digits zero (suc j) (suc k) y hj hk = refl
  same_digits (suc x) zero (suc k) y hj hk = absurd (omega arith)
  same_digits (suc x) (suc j) zero y hj hk = absurd (omega arith)
  same_digits (suc x) (suc j) (suc k) y hj hk =
      ap (λ (t : ℕ). t * 2 + op (suc x % 2) (y % 2))
        (same_digits (suc x / 2) j k (y / 2) (omega arith) (omega arith))

  lowest_digit :
      (x y : ℕ)
      → digits rest op (suc x) (suc x) y
        ≡ digits rest op (suc x / 2) (suc x / 2) (y / 2) * 2 + op (suc x % 2) (y % 2)
  lowest_digit x y =
      ap (λ (t : ℕ). t * 2 + op (suc x % 2) (y % 2))
        (same_digits (suc x / 2) x (suc x / 2) (y / 2) (omega arith) (omega arith))

and_halves : (x y : ℕ) → bit_and x y ≡ bit_and (x / 2) (y / 2) * 2 + min (x % 2) (y % 2)
and_halves zero y = omega (arith, bit_and-bitwise 0 y, bit_and-bitwise 0 (y / 2))
and_halves (suc x) y = omega (
  arith,
  bit_and-bitwise (suc x) y,
  bit_and-bitwise (suc x / 2) (y / 2),
  lowest_digit (λ b. zero) min x y,
)

or_halves : (x y : ℕ) → bit_or x y ≡ bit_or (x / 2) (y / 2) * 2 + max (x % 2) (y % 2)
or_halves zero y = omega (arith, bit_or-bitwise 0 y, bit_or-bitwise 0 (y / 2))
or_halves (suc x) y = omega (
  arith,
  bit_or-bitwise (suc x) y,
  bit_or-bitwise (suc x / 2) (y / 2),
  lowest_digit (λ b. b) max x y,
)

differ_zero : (p : ℕ) → differ 0 p ≡ p
differ_zero p = refl

xor_halves : (x y : ℕ) → bit_xor x y ≡ bit_xor (x / 2) (y / 2) * 2 + differ (x % 2) (y % 2)
xor_halves zero y =
    omega (arith, bit_xor-bitwise 0 y, bit_xor-bitwise 0 (y / 2), differ_zero (y % 2))
xor_halves (suc x) y = omega (
  arith,
  bit_xor-bitwise (suc x) y,
  bit_xor-bitwise (suc x / 2) (y / 2),
  lowest_digit (λ b. b) differ x y,
)

-- Two binary digits.
differ_digits : (p q : ℕ) → p < 2 → q < 2 → (differ p q < 2) × (differ (differ p q) q ≡ p)
differ_digits zero zero hp hq = (omega arith, refl)
differ_digits zero (suc zero) hp hq = (omega arith, refl)
differ_digits (suc zero) zero hp hq = (omega arith, refl)
differ_digits (suc zero) (suc zero) hp hq = (omega arith, refl)
differ_digits zero (suc (suc q)) hp hq = absurd (omega arith)
differ_digits (suc zero) (suc (suc q)) hp hq = absurd (omega arith)
differ_digits (suc (suc p)) q hp hq = absurd (omega arith)

xor_twice_below : (n x y : ℕ) → x ≤ n → y ≤ n → bit_xor (bit_xor x y) y ≡ x
xor_twice_below zero zero zero hx hy = refl
xor_twice_below zero zero (suc y) hx hy = absurd (omega arith)
xor_twice_below zero (suc x) y hx hy = absurd (omega arith)
xor_twice_below (suc n) x y hx hy = omega (
  arith,
  xor_halves x y,
  xor_halves (bit_xor x y) y,
  differ_digits (x % 2) (y % 2) (omega arith) (omega arith),
  ap (λ (t : ℕ). bit_xor t (y / 2)) (xor_half x y),
  ap (λ (t : ℕ). differ t (y % 2)) (xor_digit x y),
  xor_twice_below n (x / 2) (y / 2) (omega arith) (omega arith),
)
  where
    xor_half : (a b : ℕ) → bit_xor a b / 2 ≡ bit_xor (a / 2) (b / 2)
    xor_half a b =
        omega (arith, xor_halves a b, differ_digits (a % 2) (b % 2) (omega arith) (omega arith))

    xor_digit : (a b : ℕ) → bit_xor a b % 2 ≡ differ (a % 2) (b % 2)
    xor_digit a b =
        omega (arith, xor_halves a b, differ_digits (a % 2) (b % 2) (omega arith) (omega arith))

-- XOR with one key undoes itself.
pub bit_xor_twice : (x y : ℕ) → bit_xor (bit_xor x y) y ≡ x
bit_xor_twice x y = xor_twice_below (x + y) x y (omega arith) (omega arith)

-- XOR stays within a width.
pub bit_xor-lt_pow : (k x y : ℕ) → x < 2 ^ k → y < 2 ^ k → bit_xor x y < 2 ^ k
bit_xor-lt_pow zero zero zero hx hy = omega arith
bit_xor-lt_pow zero zero (suc y) hx hy = absurd (omega arith)
bit_xor-lt_pow zero (suc x) y hx hy = absurd (omega arith)
bit_xor-lt_pow (suc k) x y hx hy = omega (
  arith,
  xor_halves x y,
  differ_digits (x % 2) (y % 2) (omega arith) (omega arith),
  pow-suc 2 k,
  bit_xor-lt_pow k (x / 2) (y / 2) (omega (arith, pow-suc 2 k)) (omega (arith, pow-suc 2 k)),
)

or_zero_below : (n x : ℕ) → x ≤ n → bit_or x 0 ≡ x
or_zero_below n zero h = refl
or_zero_below zero (suc x) h = absurd (omega arith)
or_zero_below (suc n) (suc x) h =
    omega (arith, or_halves (suc x) 0, or_zero_below n (suc x / 2) (omega arith))

and_zero_below : (n x : ℕ) → x ≤ n → bit_and x 0 ≡ 0
and_zero_below n zero h = refl
and_zero_below zero (suc x) h = absurd (omega arith)
and_zero_below (suc n) (suc x) h =
    omega (arith, and_halves (suc x) 0, and_zero_below n (suc x / 2) (omega arith))

and_zero : (x : ℕ) → bit_and x 0 ≡ 0
and_zero x = and_zero_below x x (omega arith)

times_pow-suc : (q k : ℕ) → q * 2 ^ suc k ≡ q * 2 ^ k + q * 2 ^ k
times_pow-suc q k = omega (arith, ap (λ (t : ℕ). q * t) (pow-suc 2 k))

-- A low field ORed with a field shifted past it is their sum.
pub bit_or_disjoint : (k low q : ℕ) → low < 2 ^ k → bit_or low (q * 2 ^ k) ≡ low + q * 2 ^ k
bit_or_disjoint zero zero q h = omega (arith, or_halves 0 (q * 2 ^ 0), bit_or-bitwise 0 (q * 2 ^ 0))
bit_or_disjoint zero (suc low) q h = absurd (omega arith)
bit_or_disjoint (suc k) low q h = omega (
  arith,
  or_halves low (q * 2 ^ suc k),
  times_pow-suc q k,
  pow-suc 2 k,
  ap (λ (t : ℕ). bit_or (low / 2) t) (half q k),
  bit_or_disjoint k (low / 2) q (omega (arith, pow-suc 2 k)),
)
  where
    half : (a j : ℕ) → a * 2 ^ suc j / 2 ≡ a * 2 ^ j
    half a j = omega (arith, times_pow-suc a j)

mask_parts : (k low q : ℕ) → low < 2 ^ k → bit_and (low + q * 2 ^ k) (2 ^ k - 1) ≡ low
mask_parts zero low q h = omega (arith, and_zero (low + q * 2 ^ 0))
mask_parts (suc k) low q h = omega (
  arith,
  and_halves (low + q * 2 ^ suc k) (2 ^ suc k - 1),
  times_pow-suc q k,
  pow-suc 2 k,
  one-le-pow k 2,
  ap₂ bit_and (upper k low q) (lower k),
  mask_parts k (low / 2) q (omega (arith, pow-suc 2 k)),
)
  where
    upper : (j a b : ℕ) → (a + b * 2 ^ suc j) / 2 ≡ a / 2 + b * 2 ^ j
    upper j a b = omega (arith, times_pow-suc b j)

    lower : (j : ℕ) → (2 ^ suc j - 1) / 2 ≡ 2 ^ j - 1
    lower j = omega (arith, pow-suc 2 j, one-le-pow j 2)

bit_parts : (k low q : ℕ) → low < 2 ^ k → bit_and (low + q * 2 ^ k) (2 ^ k) ≡ q % 2 * 2 ^ k
bit_parts zero low q h =
    omega (arith, and_halves (low + q * 2 ^ 0) 1, and_zero ((low + q * 2 ^ 0) / 2))
bit_parts (suc k) low q h = omega (
  arith,
  and_halves (low + q * 2 ^ suc k) (2 ^ suc k),
  times_pow-suc q k,
  times_pow-suc (q % 2) k,
  pow-suc 2 k,
  ap₂ bit_and (upper k low q) (lower k),
  bit_parts k (low / 2) q (omega (arith, pow-suc 2 k)),
)
  where
    upper : (j a b : ℕ) → (a + b * 2 ^ suc j) / 2 ≡ a / 2 + b * 2 ^ j
    upper j a b = omega (arith, times_pow-suc b j)

    lower : (j : ℕ) → 2 ^ suc j / 2 ≡ 2 ^ j
    lower j = omega (arith, pow-suc 2 j)

parts : (k x : ℕ) → x % 2 ^ k + x / 2 ^ k * 2 ^ k ≡ x
parts k x = omega (arith, div-add-mod x (2 ^ k))

-- The mask of the `k` low bits keeps the remainder by `2 ^ k`.
pub bit_and_mask : (k x : ℕ) → bit_and x (2 ^ k - 1) ≡ x % 2 ^ k
bit_and_mask k x =
    ap (λ (t : ℕ). bit_and t (2 ^ k - 1)) (sym (parts k x))
    ∙ mask_parts k (x % 2 ^ k) (x / 2 ^ k) (mod-lt x (one-le-pow k 2 (omega arith)))

-- One bit, tested with a mask.
pub bit_and_bit : (k x : ℕ) → bit_and x (2 ^ k) ≡ x / 2 ^ k % 2 * 2 ^ k
bit_and_bit k x =
    ap (λ (t : ℕ). bit_and t (2 ^ k)) (sym (parts k x))
    ∙ bit_parts k (x % 2 ^ k) (x / 2 ^ k) (mod-lt x (one-le-pow k 2 (omega arith)))
