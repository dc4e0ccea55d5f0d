-- ===== src/Datum/Messages/Validation.antt =====
-- core/src/datum/messages/validation.rs: the exchange about a job's transactions. A status is a code
-- of one byte; SipHash is a parameter.
pub mod RoundTrip
use ratum.Base.{
  ℕ, zero, suc, ◌+◌, ◌*◌, ◌/◌, ◌%◌, ◌^◌, List, [], ◌∷◌, ◌++◌, Option, none, some, Bool, true, false,
  not, ◌==◌, if◌then◌else◌, length, take, map, Result, ok, err,
}
use ratum.Base.Bytes.{le_bytes, from_le, cast}
use ratum.Base.Bits.{bit_xor}
use ratum.Reader.{Read, ◌>>=◌, ◌>>◌, pure, fail_if, run, new, take_bytes, get_le, u8, u16}
use ratum.Datum.Messages.{
  Error, from_truncated, wrong_message, struct_end, open_message, read_terminator,
}

abbrev pub subcmd : ℕ
subcmd = 0x50

-- `request` and `response`, the selectors within the message.
abbrev pub request_block_txns_selector : ℕ
request_block_txns_selector = 0x12

abbrev pub response_short_txn_list : ℕ
response_short_txn_list = 0x90

abbrev pub response_parent_fetch : ℕ
response_parent_fetch = 0x94

pub data TxnListStatus : Type 0 where
  status_ok job_empty no_template too_many_txns bad_job_index bad_request : TxnListStatus
  unknown : ℕ → TxnListStatus

unfoldable pub code : TxnListStatus → ℕ
code status_ok = 0x01
code job_empty = 0xf0
code no_template = 0xf1
code too_many_txns = 0xf2
code bad_job_index = 0xf3
code bad_request = 0xf4
code (unknown c) = c

unfoldable pub from_code : ℕ → TxnListStatus
from_code c =
    if c == 0x01
    then status_ok
    else if c == 0xf0
    then job_empty
    else if c == 0xf1
    then no_template
    else if c == 0xf2
    then too_many_txns
    else if c == 0xf3
    then bad_job_index
    else if c == 0xf4
    then bad_request
    else unknown c

abbrev pub is_ok : TxnListStatus → Bool
is_ok status_ok = true
is_ok job_empty = false
is_ok no_template = false
is_ok too_many_txns = false
is_ok bad_job_index = false
is_ok bad_request = false
is_ok (unknown c) = false

unfoldable pub request_block_txns : ℕ → List ℕ
request_block_txns job_index = subcmd ∷ request_block_txns_selector ∷ job_index ∷ []

pub data ParentFetchStatus : Type 0 where
  success job_mismatch busy unavailable rpc_failed : ParentFetchStatus
  unknown_status : ℕ → ParentFetchStatus

unfoldable pub parent_fetch_code : ParentFetchStatus → ℕ
parent_fetch_code success = 0x01
parent_fetch_code job_mismatch = 0xf0
parent_fetch_code busy = 0xf6
parent_fetch_code unavailable = 0xf7
parent_fetch_code rpc_failed = 0xf8
parent_fetch_code (unknown_status c) = c

pub record ParentFetchReply : Type 0 where
  pub job_index : ℕ
  pub status : ParentFetchStatus
  pub parent_hash : List ℕ
  pub block : List ℕ

unfoldable pub encode_parent_fetch : ParentFetchReply → List ℕ
encode_parent_fetch r =
    subcmd
    ∷ response_parent_fetch
    ∷ r.job_index
    ∷ parent_fetch_code r.status
    ∷ (r.parent_hash ++ (le_bytes 4 (cast 4 (length r.block)) ++ (r.block ++ (struct_end ∷ []))))

pub record ShortTxnList : Type 0 where
  pub job_index : ℕ
  pub status : TxnListStatus
  pub short_ids : List ℕ
  pub crosscheck : Option (List ℕ)

abbrev pub short_id_size : ℕ
short_id_size = 6

unfoldable pub encode_short_ids : List ℕ → List ℕ
encode_short_ids [] = []
encode_short_ids (id ∷ ids) = take short_id_size (le_bytes 8 id) ++ encode_short_ids ids

abbrev pub crosscheck_bytes : Option (List ℕ) → List ℕ
crosscheck_bytes none = []
crosscheck_bytes (some x) = x

abbrev pub is_nil {ℓ} : {A : Type ℓ} → List A → Bool
is_nil [] = true
is_nil (x ∷ xs) = false

unfoldable pub encode_short_list : ShortTxnList → List ℕ
encode_short_list s =
    subcmd
    ∷ response_short_txn_list
    ∷ s.job_index
    ∷ code s.status
    ∷ (if not (is_ok s.status)
        then []
        else le_bytes 2 (cast 2 (length s.short_ids))
          ++ (if is_nil s.short_ids
              then []
              else encode_short_ids s.short_ids
                ++ (crosscheck_bytes s.crosscheck ++ (struct_end ∷ []))))

pub record TxnList : Type 0 where
  pub selector : ℕ
  pub job_index : ℕ
  pub status : TxnListStatus
  pub txns : List (List ℕ)

-- `encode_txn_size` and `decode_txn_size`: a size of three bytes.
unfoldable pub encode_txn_size : ℕ → List ℕ
encode_txn_size len = le_bytes 2 (cast 2 len) ++ (cast 1 (len / 2 ^ 16) ∷ [])

unfoldable pub decode_txn_size : Read Error ℕ
decode_txn_size = get_le 3 "txn size"

unfoldable pub encode_txns : List (List ℕ) → List ℕ
encode_txns [] = []
encode_txns (tx ∷ txs) = encode_txn_size (length tx) ++ (tx ++ encode_txns txs)

unfoldable pub encode_txn_list : TxnList → List ℕ
encode_txn_list t =
    subcmd
    ∷ t.selector
    ∷ t.job_index
    ∷ code t.status
    ∷ (if not (is_ok t.status)
        then []
        else le_bytes 2 (cast 2 (length t.txns)) ++ (encode_txns t.txns ++ (struct_end ∷ [])))

-- `body_of`.
unfoldable pub open_body : ℕ → Read Error (Unit {0})
open_body want = do
  open_message subcmd
  got ← u8 "response selector"
  fail_if (not (got == want)) (wrong_message want got)

unfoldable pub read_txns : ℕ → Read Error (List (List ℕ))
read_txns zero = pure []
read_txns (suc stated) = do
  len ← decode_txn_size
  tx ← take_bytes len "txn"
  rest ← read_txns stated
  pure (tx ∷ rest)

unfoldable pub read_listed : ℕ → ℕ → TxnListStatus → Read Error TxnList
read_listed selector job_index status =
    if not (is_ok status)
    then pure (record { selector = selector; job_index = job_index; status = status; txns = [] })
    else do
      stated ← u16 "txn count"
      txns ← read_txns stated
      read_terminator
      pure (record { selector = selector; job_index = job_index; status = status; txns = txns })

unfoldable pub read_txn_list : ℕ → Read Error TxnList
read_txn_list selector = do
  open_body selector
  job_index ← u8 "job index"
  status ← u8 "status"
  read_listed selector job_index (from_code status)

unfoldable pub decode_txn_list : List ℕ → ℕ → Result Error TxnList
decode_txn_list bytes selector = run (read_txn_list selector) (new bytes)

unfoldable pub short_id_key_from : List ℕ → List ℕ → List ℕ
short_id_key_from [] ps = []
short_id_key_from (g ∷ gs) [] = []
short_id_key_from (g ∷ gs) (p ∷ ps) = bit_xor (bit_xor g p) 0x55 ∷ short_id_key_from gs ps

unfoldable pub short_id_key : List ℕ → List ℕ → List ℕ
short_id_key gateway_pk pool_pk = short_id_key_from (take 16 gateway_pk) (take 16 pool_pk)

unfoldable pub short_id : (List ℕ → List ℕ → ℕ) → List ℕ → List ℕ → ℕ
short_id siphash24 hash key = siphash24 key hash % 2 ^ (8 * short_id_size)

unfoldable pub xor_into : List ℕ → List ℕ → List ℕ
xor_into [] bs = []
xor_into (a ∷ as_) [] = a ∷ as_
xor_into (a ∷ as_) (b ∷ bs) = bit_xor a b ∷ xor_into as_ bs

abbrev pub crosscheck_seed : List ℕ
crosscheck_seed =
    0xa3 ∷ 0x4f ∷ 0xc1 ∷ 0x9c ∷ 0x5e ∷ 0x88 ∷ 0x76 ∷ 0x12 ∷ 0x0a ∷ 0x79 ∷ 0x3e ∷ 0xf1 ∷ 0x6c ∷ 0x93
    ∷ 0x54 ∷ 0xaf ∷ 0xb8 ∷ 0x1d ∷ 0xe8 ∷ 0x5a ∷ 0x20 ∷ 0xc7 ∷ 0x94 ∷ 0x38 ∷ 0x6f ∷ 0xa1 ∷ 0x02
    ∷ 0xd9 ∷ 0x4a ∷ 0x7b ∷ 0xf0 ∷ 0x11 ∷ []

unfoldable pub crosscheck_from : List ℕ → List (List ℕ) → List ℕ
crosscheck_from x [] = x
crosscheck_from x (h ∷ hashes) = crosscheck_from (xor_into x h) hashes

unfoldable pub crosscheck : List (List ℕ) → List ℕ
crosscheck hashes = crosscheck_from crosscheck_seed hashes
