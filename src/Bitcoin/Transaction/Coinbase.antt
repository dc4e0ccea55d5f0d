-- ===== src/Bitcoin/Transaction/Coinbase.antt =====
-- A coinbase is parsed to what it was serialized from.
use ratum.Base.{
  ℕ, ◌-◌, ◌*◌, ◌≤◌, ◌<◌, ◌^◌, ◌≡◌, refl, arith, List, [], ◌∷◌, ◌++◌, Option, false, ok, length, All,
  length-append, min, ltb, replicate, String,
}
use ratum.Base.Bytes.{le_bytes, length-le_bytes}
use ratum.Reader.{cursor, pos}
use ratum.Reader.Laws.{>>=_ok, u32-append, u64-append, take_bytes-append, fail_if-false, run_ok}
use ratum.Bitcoin.CompactSize.{from_truncated, length_overflow, encode_compact_size}
use ratum.Bitcoin.CompactSize.RoundTrip.{decode_compact_size-encode_compact_size}
use ratum.Bitcoin.Transaction.{
  TxOut, CoinbaseTx, read_field, read_outputs, not_null, read_coinbase, parse_coinbase,
  min_output_size, outpoint_size,
}
use ratum.Bitcoin.Transaction.Parts.{TxIn, field_onto, outputs_onto, FitsCount, FitsOutput}
use ratum.Bitcoin.Transaction.Txid.{
  Transaction, end_of, is_some, serialize, Fits, read_version_and_marker-onto, witnesses_if-onto,
  read_lock_time-end,
}

read_field-onto :
    (what : String) (w x r : List ℕ)
    → FitsCount x
    → read_field what (cursor w (field_onto x r)) ≡ ok (x, cursor w r)
unfolding read_field
read_field-onto what w x r h =
    >>=_ok _ _ (decode_compact_size-encode_compact_size (length x) w (x ++ r) h)
      (take_bytes-append (length x) what w x r refl)

read_outputs-onto :
    (os : List TxOut) (w r : List ℕ)
    → All FitsOutput os
    → read_outputs (length os) (cursor w (outputs_onto os r)) ≡ ok (os, cursor w r)
unfolding read_outputs
read_outputs-onto [] w r h = refl
read_outputs-onto (o ∷ os) w r h = >>=_ok _ _ (u64-append "value" w _ o.value h.0.0) (
    >>=_ok _ _ (read_field-onto "scriptPubKey" w o.script_pubkey _ h.0.1)
      (>>=_ok _ _ (read_outputs-onto os w r h.1) refl))

-- Every output takes nine bytes at least.
encode_compact_size_some : (n : ℕ) → 1 ≤ length (encode_compact_size n)
unfolding encode_compact_size le_bytes
encode_compact_size_some n = ground arith

length-outputs_onto :
    (os : List TxOut) (r : List ℕ) → length os * min_output_size ≤ length (outputs_onto os r)
length-outputs_onto [] r = omega arith
length-outputs_onto (o ∷ os) r =
    let rest = outputs_onto os r in
    let script = o.script_pubkey ++ rest in
    omega (
      arith,
      length-append (le_bytes 8 o.value) (field_onto o.script_pubkey rest),
      length-le_bytes 8 o.value,
      length-append (encode_compact_size (length o.script_pubkey)) script,
      encode_compact_size_some (length o.script_pubkey),
      length-append o.script_pubkey rest,
      length-outputs_onto os r,
    )

-- The input of a coinbase: the null outpoint, a script and a sequence.
abbrev pub null_outpoint : List ℕ
null_outpoint = replicate 32 0 ++ replicate 4 255

abbrev pub coinbase_input : List ℕ → ℕ → TxIn
coinbase_input script sequence = record {
  outpoint = null_outpoint;
  script_sig = script;
  sequence_bytes = le_bytes 4 sequence;
}

module _ (version lock_time : ℕ) (script : List ℕ) (sequence : ℕ) (outputs : List TxOut)
    (stacks : Option (List (List (List ℕ)))) where
  abbrev pub coinbase : Transaction
  coinbase = record {
    version = version;
    inputs = coinbase_input script sequence ∷ [];
    outputs = outputs;
    stacks = stacks;
    lock_time = lock_time;
  }

  -- The script and what follows it.
  abbrev pub from_script : List ℕ
  from_script =
      script
      ++ (le_bytes 4 sequence
          ++ (encode_compact_size (length outputs)
              ++ outputs_onto outputs (end_of coinbase stacks)))

  abbrev pub parsed : CoinbaseTx
  parsed = record {
    version = version;
    script_sig_offset = length (serialize coinbase) - length from_script;
    script_sig = script;
    sequence = sequence;
    outputs = outputs;
    lock_time = lock_time;
    has_witness = is_some stacks;
  }

  enough_room :
      (r : List ℕ)
      → ltb (length (outputs_onto outputs r)) (min (length outputs * min_output_size) (2 ^ 64 - 1))
        ≡ false
  enough_room r = ground (arith, length-outputs_onto outputs r)

  -- A coinbase that fits the wire is parsed to its version, its script and where that stands, its
  -- sequence, its outputs, its lock time and whether it has witnesses.
  pub parse_coinbase-serialize :
      Fits coinbase → sequence < 2 ^ 32 → parse_coinbase (serialize coinbase) ≡ ok parsed
  unfolding parse_coinbase read_coinbase pos not_null
  parse_coinbase-serialize h hs =
      let w = serialize coinbase in
      run_ok read_coinbase {c' = cursor w []} (
        >>=_ok _ _ (read_version_and_marker-onto coinbase h stacks w) (
          >>=_ok _ _ (decode_compact_size-encode_compact_size 1 w _ (omega arith)) (
            >>=_ok _ _ refl (
              >>=_ok _ _ (take_bytes-append outpoint_size "outpoint" w null_outpoint _ refl) (
                >>=_ok _ _ refl (
                  >>=_ok _ _
                    (decode_compact_size-encode_compact_size (length script) w from_script
                      h.inputs.1.0.1)
                    (>>=_ok _ _ refl (
                      >>=_ok _ _ (take_bytes-append (length script) "scriptSig" w script _ refl) (
                        >>=_ok _ _ (u32-append "sequence" w _ sequence hs) (
                          >>=_ok _ _
                            (decode_compact_size-encode_compact_size (length outputs) w _
                              h.outputs.0)
                            (>>=_ok _ _ refl (
                              >>=_ok _ _
                                (fail_if-false (length_overflow "output count") (cursor w _)
                                  (enough_room (end_of coinbase stacks)))
                                (>>=_ok _ _ (read_outputs-onto outputs w _ h.outputs.1) (
                                  >>=_ok _ _ (witnesses_if-onto coinbase h stacks w h.stacks) (
                                    >>=_ok _ _ (read_lock_time-end coinbase h w) refl)))))))))))))))
