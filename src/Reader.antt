-- ===== src/Reader.antt =====
-- core/src/reader.rs: a cursor over a byte slice, whose every read returns its field or names the
-- field that the input ran out of bytes in.
--
-- `full` and `rest` are the two slices of `ByteReader`. A read is a function of the reader to a
-- result and the advanced reader; `Read` chains reads as `?` does. `FromTruncated` stands for
-- the `#[from] Truncated` conversion that `?` applies.
pub mod Laws
pub mod Shrinks
use ratum.Base.{
  ℕ, ◌-◌, String, List, [], ◌∷◌, Option, none, some, Bool, true, false, length, take, drop, ltb,
  if◌then◌else◌, Result, ok, err,
}
use ratum.Base.Bytes.{from_le}

-- `Truncated(what)`.
pub data Truncated : Type 0 where
  truncated : String → Truncated

pub record FromTruncated (E : Type 0) : Type 0 where
  pub from_truncated : Truncated → E

instance abbrev pub truncated_itself : FromTruncated Truncated
truncated_itself = record { from_truncated = λ t. t }

pub record ByteReader : Type 0 where
  pub full : List ℕ
  pub rest : List ℕ

abbrev pub cursor : List ℕ → List ℕ → ByteReader
cursor f r = record { full = f; rest = r }

abbrev pub Read : Type 0 → Type 0 → Type 0
Read E A = ByteReader → Result E (A × ByteReader)

infixl 5 ◌>>=◌ ◌>>◌
unfoldable pub ◌>>=◌ : {E A B : Type 0} → Read E A → (A → Read E B) → Read E B
◌>>=◌ m f c = elim (m c) [ ok p ↦ f (p.0) (p.1) | err e ↦ err e ]

abbrev pub ◌>>◌ : {E A B : Type 0} → Read E A → Read E B → Read E B
m >> k = m >>= λ _. k

abbrev pub pure : {E A : Type 0} → A → Read E A
pure a c = ok (a, c)

abbrev pub fail : {E A : Type 0} → E → Read E A
fail e c = err e

-- An early `return Err(e)` under a test.
abbrev pub fail_if : {E : Type 0} → Bool → E → Read E (Unit {0})
fail_if true e c = err e
fail_if false e c = ok (tt, c)

abbrev pub lift : {E A : Type 0} → Result E A → Read E A
lift (ok a) c = ok (a, c)
lift (err e) c = err e

-- The value of a decoder that ends: the reader is dropped.
unfoldable pub run : {E A : Type 0} → Read E A → ByteReader → Result E A
run m c = elim (m c) [ ok p ↦ ok (p.0) | err e ↦ err e ]

-- `ByteReader::new`.
abbrev pub new : List ℕ → ByteReader
new bytes = cursor bytes bytes

unfoldable pub pos : ByteReader → ℕ
pos c = length c.full - length c.rest

unfoldable pub is_empty : List ℕ → Bool
is_empty [] = true
is_empty (b ∷ bs) = false

unfoldable pub at_end : ByteReader → Bool
unfolding is_empty
at_end c = is_empty c.rest

unfoldable pub two_of : List ℕ → Option (ℕ × ℕ)
two_of (a ∷ b ∷ bs) = some (a, b)
two_of bs = none

unfoldable pub peek2 : ByteReader → Option (ℕ × ℕ)
unfolding two_of
peek2 c = two_of c.rest

module _ {E : Type 0} ⦃f : FromTruncated E⦄ where
  unfoldable pub take_bytes : ℕ → String → Read E (List ℕ)
  take_bytes n what c =
      if ltb (length c.rest) n
      then err (f.from_truncated (truncated what))
      else ok (take n c.rest, record c { rest = drop n c.rest })

  -- `arr::<N>` is `take(N)` read as an array.
  unfoldable pub arr : ℕ → String → Read E (List ℕ)
  arr n what = take_bytes n what

  unfoldable pub advance : ℕ → String → Read E (Unit {0})
  advance n what = take_bytes n what >>= λ _. pure tt

  -- `try_get_u8`, `try_get_u16_le` and so on: an integer of `n` bytes.
  unfoldable pub get_le : ℕ → String → Read E ℕ
  get_le n what = take_bytes n what >>= λ bs. pure (from_le bs)

  unfoldable pub u8 : String → Read E ℕ
  u8 what = get_le 1 what

  unfoldable pub u16 : String → Read E ℕ
  u16 what = get_le 2 what

  unfoldable pub u32 : String → Read E ℕ
  u32 what = get_le 4 what

  unfoldable pub u64 : String → Read E ℕ
  u64 what = get_le 8 what
