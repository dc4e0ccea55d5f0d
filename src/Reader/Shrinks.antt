-- ===== src/Reader/Shrinks.antt =====
-- A read never leaves more than it found, and a chain of reads can be compared step by step.
use ratum.Base.{
  ℕ, ◌+◌, ◌≤◌, ◌≡◌, refl, arith, String, length, length-drop, Bool, true, false, Result, ok, err,
}
use ratum.Reader.{
  ByteReader, Read, ◌>>=◌, pure, fail, fail_if, FromTruncated, take_bytes, arr, get_le, u8, u16,
  u32, u64,
}

-- What a read that succeeds leaves is shorter by `fewer` bytes, at least.
abbrev pub Shrinks : {E A : Type 0} → ℕ → Read E A → Type 0
Shrinks {A = A} fewer m =
    (c c' : ByteReader) (a : A) → m c ≡ ok (a, c') → fewer + length c'.rest ≤ length c.rest

-- A chain that succeeds has succeeded at both steps.
pub >>=_inversion :
    {E A B : Type 0} (m : Read E A) (f : A → Read E B) (c c' : ByteReader) (b : B)
    → (m >>= f) c ≡ ok (b, c')
    → (a : A) × (d : ByteReader) × (m c ≡ ok (a, d)) × (f a d ≡ ok (b, c'))
unfolding ◌>>=◌
>>=_inversion {E} {A} {B} m f c c' b h = go (m c) refl h
  where
    go :
        (r : Result E (A × ByteReader))
        → m c ≡ r
        → elim r as (λ x. Result E (B × ByteReader)) [ ok p ↦ f (p.0) (p.1) | err e ↦ err e ]
          ≡ ok (b, c')
        → (a : A) × (d : ByteReader) × (m c ≡ ok (a, d)) × (f a d ≡ ok (b, c'))
    go (ok (a, d)) e k = (a, d, e, k)
    go (err x) e k = absurd (ground (arith, k))

pub >>=_Shrinks :
    {E A B : Type 0} (m : Read E A) (f : A → Read E B) (i : ℕ)
    → Shrinks i m
    → ((a : A) → Shrinks 0 (f a))
    → Shrinks i (m >>= f)
>>=_Shrinks m f i hm hf c c' b h =
    let (a, d, first, second) = >>=_inversion m f c c' b h in
    omega (arith, hm c d a first, hf a d c' b second)

-- Two chains that agree after every success of the first step agree.
pub >>=_agree :
    {E A B : Type 0} (m : Read E A) (f g : A → Read E B) (c : ByteReader)
    → ((a : A) (d : ByteReader) → m c ≡ ok (a, d) → f a d ≡ g a d)
    → (m >>= f) c ≡ (m >>= g) c
unfolding ◌>>=◌
>>=_agree {E} {A} {B} m f g c h = go (m c) refl
  where
    go :
        (r : Result E (A × ByteReader))
        → m c ≡ r
        → elim r as (λ x. Result E (B × ByteReader)) [ ok p ↦ f (p.0) (p.1) | err e ↦ err e ]
          ≡ elim r as (λ x. Result E (B × ByteReader)) [ ok p ↦ g (p.0) (p.1) | err e ↦ err e ]
    go (ok (a, d)) e = h a d e
    go (err x) e = refl

pub pure-Shrinks : {E A : Type 0} (a : A) → Shrinks {E = E} 0 (pure a)
pure-Shrinks a c c' b h = ground (arith, h)

module _ {E : Type 0} ⦃f : FromTruncated E⦄ where
  pub take_bytes-Shrinks : (n : ℕ) (what : String) → Shrinks {E = E} n (take_bytes n what)
  unfolding take_bytes
  take_bytes-Shrinks n what c c' a h = ground (arith, h, length-drop n c.rest)

  get_le-Shrinks : (n : ℕ) (what : String) → Shrinks {E = E} n (get_le n what)
  unfolding get_le
  get_le-Shrinks n what =
      >>=_Shrinks (take_bytes n what) _ n (take_bytes-Shrinks n what) (λ bs. pure-Shrinks _)

  pub u8-Shrinks : (what : String) → Shrinks {E = E} 1 (u8 what)
  unfolding u8
  u8-Shrinks what = get_le-Shrinks 1 what

  -- Every read leaves no more than it found.
  pub take_bytes-Shrinks_none : (n : ℕ) (what : String) → Shrinks {E = E} 0 (take_bytes n what)
  take_bytes-Shrinks_none n what c c' a h = omega (arith, take_bytes-Shrinks n what c c' a h)

  pub arr-Shrinks : (n : ℕ) (what : String) → Shrinks {E = E} 0 (arr n what)
  unfolding arr
  arr-Shrinks n what = take_bytes-Shrinks_none n what

  pub u8-Shrinks_none : (what : String) → Shrinks {E = E} 0 (u8 what)
  u8-Shrinks_none what c c' a h = omega (arith, u8-Shrinks what c c' a h)

  pub u16-Shrinks : (what : String) → Shrinks {E = E} 0 (u16 what)
  unfolding u16
  u16-Shrinks what c c' a h = omega (arith, get_le-Shrinks 2 what c c' a h)

  pub u32-Shrinks : (what : String) → Shrinks {E = E} 0 (u32 what)
  unfolding u32
  u32-Shrinks what c c' a h = omega (arith, get_le-Shrinks 4 what c c' a h)

  pub u64-Shrinks : (what : String) → Shrinks {E = E} 0 (u64 what)
  unfolding u64
  u64-Shrinks what c c' a h = omega (arith, get_le-Shrinks 8 what c c' a h)

pub fail_if-Shrinks : {E : Type 0} (b : Bool) (e : E) → Shrinks 0 (fail_if b e)
fail_if-Shrinks true e c c' a h = absurd (ground (arith, h))
fail_if-Shrinks false e c c' a h = ground (arith, h)

pub fail-Shrinks : {E A : Type 0} (e : E) → Shrinks {A = A} 0 (fail e)
fail-Shrinks e c c' a h = absurd (ground (arith, h))
