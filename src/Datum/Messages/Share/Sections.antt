-- ===== src/Datum/Messages/Share/Sections.antt =====
-- Each section of a share is read back as it was written.
use ratum.Base.{
  ℕ, ◌^◌, ◌<◌, ◌≤◌, ◌≡◌, refl, arith, List, [], ◌∷◌, ◌++◌, All, length, drop, false, ltb, ok,
}
use mathlib.Core.List.{append_assoc}
use native.Mathlib.Nat.{mod-eq_of_lt}
use ratum.Reader.{cursor}
use ratum.Reader.Laws.{
  >>=_ok, u8-cons, u16-append, u32-append, u64-append, arr-append, take_bytes-append, fail_if-false,
}
use ratum.Datum.Messages.{from_truncated, bad_blake2b_section}
use ratum.Datum.Messages.Share.{
  JobSection, CoinbaseSection, Blake2bSection, decode_job_section, decode_coinbase_section,
  decode_blake2b_section, encode_job_section, encode_coinbase_section, encode_blake2b_section,
  read_branches, branch_bytes, max_merkle_branches,
}

-- The fields of a job section fit their widths.
pub record JobFits (j : JobSection) : Type 0 where
  pub prev_hash : length j.prev_hash ≡ 32
  pub target_byte_index : j.target_byte_index < 2 ^ 16
  pub nbits : length j.nbits ≡ 4
  pub height : j.height < 2 ^ 32
  pub coinbase_value : j.coinbase_value < 2 ^ 64
  pub txn_count : j.txn_count < 2 ^ 32
  pub txn_total_weight : j.txn_total_weight < 2 ^ 32
  pub txn_total_size : j.txn_total_size < 2 ^ 32
  pub txn_total_sigops : j.txn_total_sigops < 2 ^ 32
  pub few : length j.merkle_branches ≤ max_merkle_branches
  pub branches : All (λ b. length b ≡ 32) j.merkle_branches

pub record CoinbaseFits (c : CoinbaseSection) : Type 0 where
  pub coinb1 : length c.coinb1 < 2 ^ 16
  pub coinb2 : length c.coinb2 < 2 ^ 16

pub record Blake2bFits (b : Blake2bSection) : Type 0 where
  pub sia_ntime : length b.sia_ntime ≡ 8
  pub sia_nonce : length b.sia_nonce ≡ 8
  pub time_on_wire : b.time_on_wire < 2 ^ 32

read_branches-append :
    (bs : List (List ℕ)) (w r : List ℕ)
    → All (λ b. length b ≡ 32) bs
    → read_branches (length bs) (cursor w (branch_bytes bs ++ r)) ≡ ok (bs, cursor w r)
unfolding read_branches
read_branches-append [] w r h = refl
read_branches-append (b ∷ bs) w r h =
    rw append_assoc
      (>>=_ok _ _ (arr-append 32 _ _ _ _ h.0) (>>=_ok _ _ (read_branches-append bs w r h.1) refl))

pub decode_job_section-encode :
    (j : JobSection) (w r : List ℕ)
    → JobFits j
    → decode_job_section (cursor w (drop 1 (encode_job_section j r))) ≡ ok (j, cursor w r)
unfolding decode_job_section encode_job_section
decode_job_section-encode j w r f =
    rw (mod-eq_of_lt {n = length j.merkle_branches} {m = 256} (omega (arith, f.few))) (
      >>=_ok _ _ (arr-append 32 _ _ _ _ f.prev_hash) (
        >>=_ok _ _ (u16-append _ _ _ _ f.target_byte_index) (
          >>=_ok _ _ (arr-append 4 _ _ _ _ f.nbits) (
            >>=_ok _ _ (u8-cons _ _ _ _) (
              >>=_ok _ _ (u32-append _ _ _ _ f.height) (
                >>=_ok _ _ (u64-append _ _ _ _ f.coinbase_value) (
                  >>=_ok _ _ (u32-append _ _ _ _ f.txn_count) (
                    >>=_ok _ _ (u32-append _ _ _ _ f.txn_total_weight) (
                      >>=_ok _ _ (u32-append _ _ _ _ f.txn_total_size) (
                        >>=_ok _ _ (u32-append _ _ _ _ f.txn_total_sigops) (
                          >>=_ok _ _ (u8-cons _ _ _ _) (
                            >>=_ok _ _ (fail_if-false _ _ (few_enough f.few)) (
                              >>=_ok _ _ (read_branches-append j.merkle_branches w r f.branches)
                                refl)))))))))))))
  where
    few_enough :
        length j.merkle_branches ≤ max_merkle_branches
        → ltb max_merkle_branches (length j.merkle_branches) ≡ false
    few_enough h = ground arith

pub decode_coinbase_section-encode :
    (c : CoinbaseSection) (w r : List ℕ)
    → CoinbaseFits c
    → decode_coinbase_section (cursor w (drop 1 (encode_coinbase_section c r))) ≡ ok (c, cursor w r)
unfolding decode_coinbase_section encode_coinbase_section
decode_coinbase_section-encode c w r f =
    rw
      (
        mod-eq_of_lt {n = length c.coinb1} {m = 256 ^ 2} f.coinb1,
        mod-eq_of_lt {n = length c.coinb2} {m = 256 ^ 2} f.coinb2,
      )
      (>>=_ok _ _ (u8-cons _ _ _ _) (
        >>=_ok _ _ (u16-append _ _ _ _ f.coinb1) (
          >>=_ok _ _ (u16-append _ _ _ _ f.coinb2) (
            >>=_ok _ _ (take_bytes-append _ _ _ c.coinb1 _ refl)
              (>>=_ok _ _ (take_bytes-append _ _ _ c.coinb2 _ refl) refl)))))

pub decode_blake2b_section-encode :
    (b : Blake2bSection) (w r : List ℕ)
    → Blake2bFits b
    → decode_blake2b_section (cursor w (drop 1 (encode_blake2b_section b r))) ≡ ok (b, cursor w r)
unfolding decode_blake2b_section encode_blake2b_section
decode_blake2b_section-encode b w r f = >>=_ok _ _ (u8-cons _ _ _ _) (
    >>=_ok _ _ (fail_if-false {b = false} bad_blake2b_section _ refl) (
      >>=_ok _ _ (arr-append 8 _ _ _ _ f.sia_ntime) (
        >>=_ok _ _ (arr-append 8 _ _ _ _ f.sia_nonce) (
          >>=_ok _ _ (u8-cons _ _ _ _) (
            >>=_ok _ _ (fail_if-false {b = false} bad_blake2b_section _ refl)
              (>>=_ok _ _ (u32-append _ _ _ _ f.time_on_wire) refl))))))
