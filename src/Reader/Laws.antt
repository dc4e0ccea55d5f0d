-- ===== src/Reader/Laws.antt =====
-- What each read does to a cursor that stands before the field it wants, and the rules by which
-- a proof follows a chain of reads.
use ratum.Base.{
  ap, Bool, true, false, ℕ, ◌^◌, ◌<◌, ◌≡◌, refl, String, List, [], ◌∷◌, ◌++◌, arith, length, le→ltb,
  lt→ltb, length-append, take-append, drop-append, Result, ok, err,
}
use native.Mathlib.Nat.{add-zero}
use ratum.Base.Bytes.{le_bytes, from_le, length-le_bytes, from_le-le_bytes}
use ratum.Reader.{
  ByteReader, run, fail_if, FromTruncated, truncated, cursor, take_bytes, arr, get_le, u8, u16, u32,
  u64, Read, ◌>>=◌, run,
}

module _ {E A B : Type 0} (m : Read E A) (f : A → Read E B) where
  -- A read that succeeds hands its value and the advanced reader on.
  pub >>=_ok :
      {a : A} {c c' : ByteReader} {r : Result E (B × ByteReader)}
      → m c ≡ ok (a, c')
      → f a c' ≡ r
      → (m >>= f) c ≡ r
  unfolding ◌>>=◌
  >>=_ok p q = rw (p, ◌>>=◌) q

  -- A read that fails ends the chain.
  pub >>=_err : {e : E} {c : ByteReader} → m c ≡ err e → (m >>= f) c ≡ err e
  unfolding ◌>>=◌
  >>=_err p = rw (p, ◌>>=◌)

module _ {E : Type 0} ⦃f : FromTruncated E⦄ where
  pub take_bytes-append :
      (n : ℕ) (what : String) (whole xs r : List ℕ)
      → length xs ≡ n
      → take_bytes {E = E} n what (cursor whole (xs ++ r)) ≡ ok (xs, cursor whole r)
  unfolding take_bytes
  take_bytes-append n what whole xs r h = rw (
    le→ltb (length (xs ++ r)) n (omega (arith, length-append xs r)),
    take-append n xs r h,
    drop-append n xs r h,
  )

  pub take_bytes_short :
      (n : ℕ) (what : String) (whole r : List ℕ)
      → length r < n
      → take_bytes {E = E} n what (cursor whole r) ≡ err (f.from_truncated (truncated what))
  unfolding take_bytes
  take_bytes_short n what whole r h = rw (lt→ltb (length r) n h)

  pub get_le-append :
      (n : ℕ) (what : String) (whole r : List ℕ) (v : ℕ)
      → v < 256 ^ n
      → get_le {E = E} n what (cursor whole (le_bytes n v ++ r)) ≡ ok (v, cursor whole r)
  unfolding get_le
  get_le-append n what whole r v h =
      >>=_ok _ _ (take_bytes-append n what whole (le_bytes n v) r (length-le_bytes n v))
        (rw (from_le-le_bytes n v h))

  pub u8-cons :
      (what : String) (whole r : List ℕ) (b : ℕ)
      → u8 {E = E} what (cursor whole (b ∷ r)) ≡ ok (b, cursor whole r)
  unfolding u8 get_le from_le
  u8-cons what whole r b = >>=_ok _ _ (take_bytes-append 1 what whole (b ∷ []) r refl) (rw add-zero)

  pub u16-append :
      (what : String) (whole r : List ℕ) (v : ℕ)
      → v < 2 ^ 16
      → u16 {E = E} what (cursor whole (le_bytes 2 v ++ r)) ≡ ok (v, cursor whole r)
  unfolding u16
  u16-append what whole r v h = get_le-append 2 what whole r v h

  pub u32-append :
      (what : String) (whole r : List ℕ) (v : ℕ)
      → v < 2 ^ 32
      → u32 {E = E} what (cursor whole (le_bytes 4 v ++ r)) ≡ ok (v, cursor whole r)
  unfolding u32
  u32-append what whole r v h = get_le-append 4 what whole r v h

  pub u64-append :
      (what : String) (whole r : List ℕ) (v : ℕ)
      → v < 2 ^ 64
      → u64 {E = E} what (cursor whole (le_bytes 8 v ++ r)) ≡ ok (v, cursor whole r)
  unfolding u64
  u64-append what whole r v h = get_le-append 8 what whole r v h

  pub arr-append :
      (n : ℕ) (what : String) (whole xs r : List ℕ)
      → length xs ≡ n
      → arr {E = E} n what (cursor whole (xs ++ r)) ≡ ok (xs, cursor whole r)
  unfolding arr
  arr-append n what whole xs r h = take_bytes-append n what whole xs r h

pub run_ok :
    {E A : Type 0} (m : Read E A) {a : A} {c c' : ByteReader} → m c ≡ ok (a, c') → run m c ≡ ok a
unfolding run
run_ok m p = rw (p, run)

-- A check that does not hold lets the chain go on, and one that holds ends it.
pub fail_if-false :
    {E : Type 0} {b : Bool} (e : E) (c : ByteReader) → b ≡ false → fail_if b e c ≡ ok (tt, c)
fail_if-false e c h = ap (λ t. fail_if t e c) h

pub fail_if-true :
    {E : Type 0} {b : Bool} (e : E) (c : ByteReader) → b ≡ true → fail_if b e c ≡ err e
fail_if-true e c h = ap (λ t. fail_if t e c) h
