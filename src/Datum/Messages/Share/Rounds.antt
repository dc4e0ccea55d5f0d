-- ===== src/Datum/Messages/Share/Rounds.antt =====
-- The loop over the sections has rounds enough.
use ratum.Base.{ℕ, zero, suc, ◌≤◌, ◌≡◌, refl, arith, length, Bool, true, false, ◌==◌, if◌then◌else◌}
use ratum.Reader.{ByteReader, Read, pure, u8}
use ratum.Reader.Shrinks.{
  Shrinks, >>=_Shrinks, >>=_agree, pure-Shrinks, u8-Shrinks, u8-Shrinks_none, u16-Shrinks,
  u32-Shrinks, u64-Shrinks, arr-Shrinks, take_bytes-Shrinks_none, fail_if-Shrinks, fail-Shrinks,
}
use ratum.Datum.Messages.{Error, from_truncated, struct_end}
use ratum.Datum.Messages.Share.{
  decode_job_section, decode_coinbase_section, decode_blake2b_section, read_branches, section_job,
  section_coinbase, section_blake2b, section_abw_slot,
}
use ratum.Datum.Messages.Share.Submit.{Parts, read_section, read_sections}

read_branches-Shrinks : (n : ℕ) → Shrinks 0 (read_branches n)
unfolding read_branches
read_branches-Shrinks zero = pure-Shrinks _
read_branches-Shrinks (suc n) =
    >>=_Shrinks _ _ 0 (arr-Shrinks _ _)
      (λ b. >>=_Shrinks _ _ 0 (read_branches-Shrinks n) (λ bs. pure-Shrinks _))

decode_coinbase_section-Shrinks : Shrinks 0 decode_coinbase_section
unfolding decode_coinbase_section
decode_coinbase_section-Shrinks = >>=_Shrinks _ _ 0 (u8-Shrinks_none _) (λ a.
    >>=_Shrinks _ _ 0 (u16-Shrinks _) (λ b. >>=_Shrinks _ _ 0 (u16-Shrinks _) (λ d.
      >>=_Shrinks _ _ 0 (take_bytes-Shrinks_none _ _)
        (λ e. >>=_Shrinks _ _ 0 (take_bytes-Shrinks_none _ _) (λ f. pure-Shrinks _)))))

decode_blake2b_section-Shrinks : Shrinks 0 decode_blake2b_section
unfolding decode_blake2b_section
decode_blake2b_section-Shrinks = >>=_Shrinks _ _ 0 (u8-Shrinks_none _) (λ a.
    >>=_Shrinks _ _ 0 (fail_if-Shrinks _ _) (λ b. >>=_Shrinks _ _ 0 (arr-Shrinks _ _) (λ d.
      >>=_Shrinks _ _ 0 (arr-Shrinks _ _) (λ e. >>=_Shrinks _ _ 0 (u8-Shrinks_none _) (λ f.
        >>=_Shrinks _ _ 0 (fail_if-Shrinks _ _)
          (λ g. >>=_Shrinks _ _ 0 (u32-Shrinks _) (λ h. pure-Shrinks _)))))))

decode_job_section-Shrinks : Shrinks 0 decode_job_section
unfolding decode_job_section
decode_job_section-Shrinks = >>=_Shrinks _ _ 0 (arr-Shrinks _ _) (λ x1.
    >>=_Shrinks _ _ 0 (u16-Shrinks _) (λ x2. >>=_Shrinks _ _ 0 (arr-Shrinks _ _) (λ x3.
      >>=_Shrinks _ _ 0 (u8-Shrinks_none _) (λ x4. >>=_Shrinks _ _ 0 (u32-Shrinks _) (λ x5.
        >>=_Shrinks _ _ 0 (u64-Shrinks _) (λ x6. >>=_Shrinks _ _ 0 (u32-Shrinks _) (λ x7.
          >>=_Shrinks _ _ 0 (u32-Shrinks _) (λ x8. >>=_Shrinks _ _ 0 (u32-Shrinks _) (λ x9.
            >>=_Shrinks _ _ 0 (u32-Shrinks _) (λ y1. >>=_Shrinks _ _ 0 (u8-Shrinks_none _) (λ y2.
              >>=_Shrinks _ _ 0 (fail_if-Shrinks _ _) (λ y3.
                >>=_Shrinks _ _ 0 (read_branches-Shrinks _) (λ y4. pure-Shrinks _)))))))))))))

if-Shrinks :
    {A : Type 0} (b : Bool) (m k : Read Error A)
    → Shrinks 0 m
    → Shrinks 0 k
    → Shrinks 0 (if b then m else k)
if-Shrinks true m k h j = h
if-Shrinks false m k h j = j

read_section-Shrinks : (p : Parts) (marker : ℕ) → Shrinks 0 (read_section p marker)
unfolding read_section
read_section-Shrinks p marker =
    if-Shrinks (marker == section_job) _ _
      (>>=_Shrinks _ _ 0 decode_job_section-Shrinks (λ j. pure-Shrinks _))
      (if-Shrinks (marker == section_coinbase) _ _
        (>>=_Shrinks _ _ 0 decode_coinbase_section-Shrinks (λ j. pure-Shrinks _))
        (if-Shrinks (marker == section_abw_slot) _ _
          (>>=_Shrinks _ _ 0 (u8-Shrinks_none _) (λ j. pure-Shrinks _))
          (if-Shrinks (marker == section_blake2b) _ _
            (>>=_Shrinks _ _ 0 decode_blake2b_section-Shrinks (λ j. pure-Shrinks _))
            (fail-Shrinks _))))

if_agree :
    {A : Type 0} (b : Bool) (m x y : Read Error A) (c : ByteReader)
    → x c ≡ y c
    → (if b then m else x) c ≡ (if b then m else y) c
if_agree true m x y c h = refl
if_agree false m x y c h = h

-- The rounds that a share's sections are read with are enough: any two counts of at least the bytes
-- left read the same parts, or fail with the same error.
pub read_sections_enough :
    (n k : ℕ) (p : Parts) (c : ByteReader)
    → length c.rest ≤ n
    → length c.rest ≤ k
    → read_sections n p c ≡ read_sections k p c
unfolding read_sections
read_sections_enough zero zero p c hn hk = refl
read_sections_enough zero (suc k) p c hn hk =
    >>=_agree (u8 "section marker") _ _ c (λ a d e. absurd (omega (arith, u8-Shrinks _ c d a e)))
read_sections_enough (suc n) zero p c hn hk =
    >>=_agree (u8 "section marker") _ _ c (λ a d e. absurd (omega (arith, u8-Shrinks _ c d a e)))
read_sections_enough (suc n) (suc k) p c hn hk = >>=_agree (u8 "section marker") _ _ c (λ a d e.
    if_agree (a == struct_end) (pure p) _ _ d (
      >>=_agree (read_section p a) _ _ d (λ q d' e'.
        read_sections_enough n k q d'
          (omega (arith, u8-Shrinks _ c d a e, read_section-Shrinks p a d d' q e'))
          (omega (arith, u8-Shrinks _ c d a e, read_section-Shrinks p a d d' q e')))))
