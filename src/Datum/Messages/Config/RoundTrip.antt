-- ===== src/Datum/Messages/Config/RoundTrip.antt =====
-- A configuration that the pool encodes is decoded to itself.
use mathlib.Core.List.{append_assoc}
use ratum.Base.{
  same_bytes, ℕ, String, ◌^◌, ◌<◌, ◌≤◌, ◌≡◌, refl, sym, arith, List, [], ◌∷◌, ◌++◌, any, length,
  take, Option, none, some, Bool, true, false, not, ◌&&◌, ◌==◌, leb, if◌then◌else◌, ok, and_then_ok,
  if_err_ok, ltb→le,
}
use ratum.Base.Bits.{bit_and}
use ratum.Reader.{cursor, lift}
use ratum.Reader.Laws.{
  >>=_ok, u8-cons, u32-append, u64-append, take_bytes-append, arr-append, run_ok, fail_if-false,
}
use ratum.Datum.Bulk.{dbf_marker}
use ratum.Datum.Messages.{from_truncated}
use ratum.Datum.Messages.Laws.{open_message-cons, read_terminator-cons}
use ratum.Datum.Messages.Config.{
  ClientConfig, V3Config, check_fields, encode_config, config_bytes, push_counted, take_counted,
  ids_bytes, read_ids, flag_bytes, marker_bytes, version_of, has_unknown_flags, v3_of, read_config,
  decode_config, is_none, coinbase_tag_of, before_nul, resume_token_len, max_payout_script_len,
  max_coinbase_tag_len,
}

take_counted-push_counted :
    (what : String) (most : ℕ) (w bytes r : List ℕ)
    → length bytes ≤ most
    → most < 256
    → take_counted what most (cursor w (push_counted bytes ++ r)) ≡ ok (bytes, cursor w r)
unfolding take_counted push_counted
take_counted-push_counted what most w bytes r h hm =
    >>=_ok _ _ (u8-cons _ _ _ _)
      (>>=_ok _ _ (fail_if-false _ _ (ground arith)) (take_bytes-append _ _ _ _ _ (omega arith)))

before_nul_clean : (bs : List ℕ) → any (λ b. b == 0) bs ≡ false → before_nul bs ≡ bs
unfolding before_nul
before_nul_clean [] h = refl
before_nul_clean (b ∷ bs) h = ground (arith, before_nul_clean bs)

abbrev token_of : Option V3Config → Option (List ℕ)
token_of none = none
token_of (some v) = some v.resume_token

-- The version 3 fields fit: a resume token of its length.
abbrev pub HasToken : Option V3Config → Type 0
HasToken none = Unit
HasToken (some v) = length v.resume_token ≡ resume_token_len

abbrev IdFits : Option V3Config → ℕ → Type 0
IdFits none id = id < 2 ^ 32
IdFits (some v) id = id < 2 ^ 64

read_ids-version_of :
    (v3 : Option V3Config) (c : ClientConfig) (w r : List ℕ)
    → c.v3 ≡ v3
    → HasToken v3
    → IdFits v3 c.prime_id
    → read_ids (version_of v3) (cursor w (ids_bytes (record c { v3 = v3 }) ++ r))
      ≡ ok ((c.prime_id, token_of v3), cursor w r)
unfolding read_ids ids_bytes
read_ids-version_of none c w r e ht hi = >>=_ok _ _ (u32-append _ _ _ _ hi) refl
read_ids-version_of (some v) c w r e ht hi =
    rw append_assoc
      (>>=_ok _ _ (u64-append _ _ _ _ hi) (>>=_ok _ _ (arr-append 40 _ _ _ _ ht) refl))

known_flags : (v3 : Option V3Config) → has_unknown_flags (flag_bytes v3) (token_of v3) ≡ false
unfolding has_unknown_flags flag_bytes
known_flags none = refl
known_flags (some v) = go v.abw_disabled
  where
    go : (b : Bool) → not (bit_and (if b then 1 else 0) 0xfe == 0) ≡ false
    go true = refl
    go false = refl

v3_of-bytes : (v3 : Option V3Config) → v3_of (token_of v3) (flag_bytes v3) (marker_bytes v3) ≡ v3
unfolding v3_of flag_bytes marker_bytes
v3_of-bytes none = refl
v3_of-bytes (some v) = λ i. some (record {
  resume_token = v.resume_token;
  bulk_framing = marker v.bulk_framing i;
  abw_disabled = flag v.abw_disabled i;
})
  where
    marker : (b : Bool) → same_bytes (take 4 (if b then dbf_marker else [])) dbf_marker ≡ b
    marker true = refl
    marker false = refl

    flag : (b : Bool) → not (bit_and (if b then 1 else 0) 1 == 0) ≡ b
    flag true = refl
    flag false = refl

tag_accepted :
    (is_utf8 : List ℕ → Bool) (tag w r : List ℕ)
    → any (λ b. b == 0) tag ≡ false
    → is_utf8 tag ≡ true
    → lift (coinbase_tag_of is_utf8 tag) (cursor w r) ≡ ok (tag, cursor w r)
unfolding coinbase_tag_of
tag_accepted is_utf8 tag w r h hu = rw (before_nul_clean tag h, hu)

-- What a configuration that passes the encoder's checks has.
record IsChecked (c : ClientConfig) : Type 0 where
  script : length c.payout_script ≤ max_payout_script_len
  tag : length c.coinbase_tag ≤ max_coinbase_tag_len
  no_nul : any (λ b. b == 0) c.coinbase_tag ≡ false
  narrow : (is_none c.v3 && leb (2 ^ 32) c.prime_id) ≡ false

check_fields-IsChecked : (c : ClientConfig) → check_fields c ≡ ok tt → IsChecked c
unfolding check_fields
check_fields-IsChecked c h =
    let a = if_err_ok _ _ _ h in
    let b = if_err_ok _ _ _ a.1 in
    let d = if_err_ok _ _ _ b.1 in
    let e = if_err_ok _ _ _ d.1 in
    let f = if_err_ok _ _ _ e.1 in
    record { script = ltb→le _ _ a.0; tag = ltb→le _ _ b.0; no_nul = d.0; narrow = f.0 }

id_fits :
    (v3 : Option V3Config) (id : ℕ)
    → id < 2 ^ 64
    → (is_none v3 && leb (2 ^ 32) id) ≡ false
    → IdFits v3 id
id_fits none id h k = ground arith
id_fits (some v) id h k = h

read_config-append :
    (is_utf8 : List ℕ → Bool) (c : ClientConfig) (w : List ℕ)
    → IsChecked c
    → is_utf8 c.coinbase_tag ≡ true
    → c.prime_id < 2 ^ 64
    → c.min_difficulty < 2 ^ 64
    → HasToken c.v3
    → read_config is_utf8 (cursor w (config_bytes c)) ≡ ok (c, cursor w (marker_bytes c.v3))
unfolding read_config config_bytes
read_config-append is_utf8 c w k hu hi hd ht = >>=_ok _ _ (open_message-cons _ _ _) (
    >>=_ok _ _ (u8-cons _ _ _ _) (
      >>=_ok _ _ (take_counted-push_counted _ _ _ _ _ k.script (omega arith)) (
        >>=_ok _ _ (read_ids-version_of c.v3 c _ _ refl ht (id_fits c.v3 c.prime_id hi k.narrow)) (
          >>=_ok _ _ (take_counted-push_counted _ _ _ _ _ k.tag (omega arith)) (
            >>=_ok _ _ (tag_accepted is_utf8 _ _ _ k.no_nul hu) (
              >>=_ok _ _ (u64-append _ _ _ _ hd) (
                >>=_ok _ _ (u8-cons _ _ _ _) (
                  >>=_ok _ _ (read_terminator-cons _ _) (
                    >>=_ok _ _ (fail_if-false _ _ (known_flags c.v3))
                      (rw (v3_of-bytes c.v3)))))))))))

-- A configuration that the encoder accepts is decoded to itself, in the version 1 and in the version
-- 3 form, for a prime id and a minimum difficulty of u64, a tag of UTF-8 and a resume token of its
-- length.
pub decode_config-encode_config :
    (is_utf8 : List ℕ → Bool) (c : ClientConfig) (bytes : List ℕ)
    → is_utf8 c.coinbase_tag ≡ true
    → c.prime_id < 2 ^ 64
    → c.min_difficulty < 2 ^ 64
    → HasToken c.v3
    → encode_config c ≡ ok bytes
    → decode_config is_utf8 bytes ≡ ok c
unfolding decode_config encode_config
decode_config-encode_config is_utf8 c bytes hu hi hd ht e =
    let (checked, passed, shape) = and_then_ok (check_fields c) (λ _. ok (config_bytes c)) e in
    let b : config_bytes c ≡ bytes = cc in
    rw (sym b) (
      run_ok (read_config is_utf8) (
        read_config-append is_utf8 c (config_bytes c) (check_fields-IsChecked c passed) hu hi hd
          ht))
