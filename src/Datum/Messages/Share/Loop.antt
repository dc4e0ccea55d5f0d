-- ===== src/Datum/Messages/Share/Loop.antt =====
-- The loop over the sections of a share reads the sections in the order they are written.
use ratum.Base.{ℕ, zero, suc, ◌≤◌, ◌≡◌, refl, arith, List, [], ◌∷◌, Option, none, some, ok}
use ratum.Reader.{cursor}
use ratum.Reader.Laws.{>>=_ok, u8-cons}
use ratum.Datum.Messages.{from_truncated, struct_end}
use ratum.Datum.Messages.Share.{
  JobSection, CoinbaseSection, Blake2bSection, encode_job_section, encode_coinbase_section,
  encode_blake2b_section,
}
use ratum.Datum.Messages.Share.Sections.{
  JobFits, CoinbaseFits, Blake2bFits, decode_job_section-encode, decode_coinbase_section-encode,
  decode_blake2b_section-encode,
}
use ratum.Datum.Messages.Share.Submit.{
  Parts, no_parts, read_section, read_sections, encode_slot, encode_job, encode_coinbase,
}

-- The optional parts fit their widths.
abbrev pub IfAny : {A : Type 0} → (A → Type 0) → Option A → Type 0
IfAny P none = Unit
IfAny P (some a) = P a

-- With `rounds` or more, the loop ends at the last byte with `final`.
abbrev pub Finishes : (rounds : ℕ) (p final : Parts) (w r : List ℕ) → Type 0
Finishes rounds p final w r =
    (n : ℕ) → rounds ≤ n → read_sections n p (cursor w r) ≡ ok (final, cursor w [])

pub finish : (p : Parts) (w : List ℕ) → Finishes 1 p p w (struct_end ∷ [])
unfolding read_sections
finish p w zero h = absurd (omega arith)
finish p w (suc n) h = >>=_ok _ _ (u8-cons _ _ _ _) refl

abbrev pub parts : Blake2bSection → Option ℕ → Option JobSection → Option CoinbaseSection → Parts
parts b s j c = record { job = j; coinbase = c; blake2b = some b; abw_slot = s }

pub coinbase_step :
    (k : ℕ) (b : Blake2bSection) (s : Option ℕ) (j : Option JobSection) (c : Option CoinbaseSection)
    (final : Parts) (w r : List ℕ)
    → IfAny CoinbaseFits c
    → Finishes k (parts b s j c) final w r
    → Finishes (suc k) (parts b s j none) final w (encode_coinbase c r)
unfolding read_sections read_section encode_coinbase encode_coinbase_section
coinbase_step k b s j none final w r f g n h = g n (omega arith)
coinbase_step k b s j (some c) final w r f g zero h = absurd (omega arith)
coinbase_step k b s j (some c) final w r f g (suc n) h =
    >>=_ok _ _ (u8-cons _ _ _ _)
      (>>=_ok _ _ (>>=_ok _ _ (decode_coinbase_section-encode c w r f) refl) (g n (omega arith)))

pub job_step :
    (k : ℕ) (b : Blake2bSection) (s : Option ℕ) (j : Option JobSection) (final : Parts)
    (w r : List ℕ)
    → IfAny JobFits j
    → Finishes k (parts b s j none) final w r
    → Finishes (suc k) (parts b s none none) final w (encode_job j r)
unfolding read_sections read_section encode_job encode_job_section
job_step k b s none final w r f g n h = g n (omega arith)
job_step k b s (some j) final w r f g zero h = absurd (omega arith)
job_step k b s (some j) final w r f g (suc n) h =
    >>=_ok _ _ (u8-cons _ _ _ _)
      (>>=_ok _ _ (>>=_ok _ _ (decode_job_section-encode j w r f) refl) (g n (omega arith)))

pub slot_step :
    (k : ℕ) (b : Blake2bSection) (s : Option ℕ) (final : Parts) (w r : List ℕ)
    → Finishes k (parts b s none none) final w r
    → Finishes (suc k) (parts b none none none) final w (encode_slot s r)
unfolding read_sections read_section encode_slot
slot_step k b none final w r g n h = g n (omega arith)
slot_step k b (some s) final w r g zero h = absurd (omega arith)
slot_step k b (some s) final w r g (suc n) h =
    >>=_ok _ _ (u8-cons _ _ _ _)
      (>>=_ok _ _ (>>=_ok _ _ (u8-cons _ _ _ _) refl) (g n (omega arith)))

pub blake2b_step :
    (k : ℕ) (b : Blake2bSection) (final : Parts) (w r : List ℕ)
    → Blake2bFits b
    → Finishes k (parts b none none none) final w r
    → Finishes (suc k) no_parts final w (encode_blake2b_section b r)
unfolding read_sections read_section encode_blake2b_section
blake2b_step k b final w r f g zero h = absurd (omega arith)
blake2b_step k b final w r f g (suc n) h =
    >>=_ok _ _ (u8-cons _ _ _ _)
      (>>=_ok _ _ (>>=_ok _ _ (decode_blake2b_section-encode b w r f) refl) (g n (omega arith)))
