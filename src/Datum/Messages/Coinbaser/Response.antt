-- ===== src/Datum/Messages/Coinbaser/Response.antt =====
-- The coinbaser response: what the pool's encoder accepts, the gateway's decoder reads back.
use ratum.Base.{
  ℕ, zero, suc, some, ◌+◌, ◌-◌, ◌%◌, ◌^◌, ◌<◌, ◌≤◌, ◌≡◌, min, refl, sym, ap, ◌∙◌, ◌⊎◌, inl, inr,
  true, false, List, [], ◌∷◌, ◌++◌, length, All, ok, ltb, leb, Bool-cases, arith, length-append,
  and_then_ok, if_err_ok, leb→le, le→ltb, ltb→le,
}
use mathlib.Core.List.{append_assoc, append-nil}
use ratum.Base.Bytes.{le_bytes, cast}
use ratum.Reader.{cursor, at_end, is_empty}
use ratum.Reader.Laws.{
  >>=_ok, u8-cons, u32-append, u64-append, take_bytes-append, run_ok, fail_if-false,
}
use ratum.Datum.Messages.{from_truncated}
use ratum.Datum.Messages.Laws.{open_message-cons}
use ratum.Datum.Messages.Coinbaser.{
  TxOut, read_output, after_output, CoinbaserResponse, saturating_add, script_out_of_range,
  encode_outputs, encode_blob, encode_response, read_outputs, read_blob, read_response,
  decode_response, max_coinbaser_outputs,
}

-- The bytes of the outputs, by plain recursion.
abbrev one_output : TxOut → List ℕ
one_output o = le_bytes 8 o.value ++ (cast 1 (length o.script_pubkey) ∷ o.script_pubkey)

abbrev output_bytes : List TxOut → List ℕ
output_bytes [] = []
output_bytes (o ∷ os) = one_output o ++ output_bytes os

abbrev pub total_value : List TxOut → ℕ
total_value [] = 0
total_value (o ∷ os) = o.value + total_value os

abbrev pub IsOutput : TxOut → Type 0
IsOutput o = (o.value < 2 ^ 64) × (2 ≤ length o.script_pubkey) × (length o.script_pubkey ≤ 64)

abbrev HasScript : TxOut → Type 0
HasScript o = (2 ≤ length o.script_pubkey) × (length o.script_pubkey ≤ 64)

encode_outputs_ok :
    (t : ℕ) (blob : List ℕ) (os : List TxOut) (p : ℕ × List ℕ)
    → t ≤ 2 ^ 64 - 1
    → encode_outputs t blob os ≡ ok p
    → (p.0 ≡ min (t + total_value os) (2 ^ 64 - 1))
      × (p.1 ≡ blob ++ output_bytes os)
      × All HasScript os
unfolding encode_outputs
encode_outputs_ok t blob [] p h e = ground (arith, append-nil blob)
encode_outputs_ok t blob (o ∷ os) p h e =
    elim (Bool-cases (script_out_of_range (length o.script_pubkey))) [
      | inl bad ↦ cc (rw bad at e)
      | inr good ↦
          let (a, b, c) =
            encode_outputs_ok (saturating_add t o.value) _ os p (omega arith) (rw good at e) in
          (omega arith, b ∙ simp append_assoc, ((ground arith, ground arith), c))
    ]

read_output-append :
    (value total : ℕ) (o : TxOut) (w r : List ℕ)
    → IsOutput o
    → total + o.value ≤ value
    → read_output value total (cursor w (one_output o ++ r)) ≡ ok (some o, cursor w r)
unfolding read_output
read_output-append value total o w r (hv, lo, hi) h = simp append_assoc (
    >>=_ok _ _ (u64-append _ _ _ _ hv) (
      rw (le→ltb value (saturating_add total o.value) (omega arith)) (
        >>=_ok _ _ (u8-cons _ _ _ _) (
          >>=_ok _ _ (fail_if-false _ _ (ground arith))
            (>>=_ok _ _ (take_bytes-append _ _ _ _ _ (omega arith)) refl)))))

-- With rounds for every output up to the limit, the loop reads all the outputs.
read_outputs-append :
    (rounds value total : ℕ) (outs os : List TxOut) (w : List ℕ)
    → All IsOutput os
    → total + total_value os ≤ value
    → value < 2 ^ 64 - 1
    → length os ≤ rounds
    → length outs + rounds ≡ max_coinbaser_outputs
    → read_outputs rounds value total outs (cursor w (output_bytes os))
      ≡ ok (outs ++ os, cursor w [])
unfolding read_outputs after_output
read_outputs-append zero value total outs [] w ho hv hw hr hn =
    ap (λ t. ok (t, cursor w [])) (sym (append-nil outs))
read_outputs-append zero value total outs (o ∷ os) w ho hv hw hr hn = absurd (omega arith)
read_outputs-append (suc rounds) value total outs [] w ho hv hw hr hn =
    unfold at_end is_empty in ap (λ t. ok (t, cursor w [])) (sym (append-nil outs))
read_outputs-append (suc rounds) value total outs (o ∷ os) w (ho, hos) hv hw hr hn =
    rw (not_at_end o w (output_bytes os)) (
      >>=_ok _ _ (read_output-append value total o w _ ho (omega arith)) (
        go
          (read_outputs-append rounds value ((total + o.value) % 2 ^ 64) (outs ++ (o ∷ [])) os w hos
            (omega arith) hw (omega arith) (omega (arith, length-append outs (o ∷ []))))
          (Bool-cases (leb max_coinbaser_outputs (length (outs ++ (o ∷ [])))))))
  where
    not_at_end : (x : TxOut) (z r : List ℕ) → at_end (cursor z (one_output x ++ r)) ≡ false
    not_at_end x z r = unfold at_end is_empty le_bytes in refl

    none_left : (xs : List TxOut) → length xs ≤ 0 → xs ≡ []
    none_left [] h = refl
    none_left (x ∷ xs) h = absurd (omega arith)

    go :
        read_outputs rounds value
            ((total + o.value) % 2 ^ 64)
            (outs ++ (o ∷ []))
            (cursor w (output_bytes os))
          ≡ ok ((outs ++ (o ∷ [])) ++ os, cursor w [])
        → (leb max_coinbaser_outputs (length (outs ++ (o ∷ []))) ≡ true)
          ⊎ (leb max_coinbaser_outputs (length (outs ++ (o ∷ []))) ≡ false)
        → after_output (read_outputs rounds value) total outs (some o) (cursor w (output_bytes os))
          ≡ ok (outs ++ (o ∷ os), cursor w [])
    go ih (inl t) = rw (t, none_left os (omega (arith, leb→le _ _ t, length-append outs (o ∷ []))))
    go ih (inr f) = rw f (ih ∙ ap (λ t. ok (t, cursor w [])) (append_assoc outs (o ∷ []) os))

read_blob-append :
    (r : CoinbaserResponse) (w : List ℕ)
    → All IsOutput r.outputs
    → total_value r.outputs ≤ r.value
    → r.value < 2 ^ 64 - 1
    → length r.outputs ≤ max_coinbaser_outputs
    → read_blob r.value (cursor w (r.coinbaser_id ∷ output_bytes r.outputs)) ≡ ok (r, cursor w [])
unfolding read_blob
read_blob-append r w ho hv hw hn = >>=_ok _ _ (u8-cons _ _ _ _) (
    >>=_ok _ _
      (read_outputs-append max_coinbaser_outputs r.value 0 [] r.outputs w ho (omega arith) hw hn
        (omega arith))
      refl)

encode_blob_ok :
    (value : ℕ) (p : ℕ × List ℕ) (bytes : List ℕ)
    → encode_blob value p ≡ ok bytes
    → (p.0 ≤ value)
      × (length p.1 ≤ 65535)
      × (bytes ≡ 0x11 ∷ (le_bytes 8 value ++ (le_bytes 4 (length p.1) ++ p.1)))
unfolding encode_blob
encode_blob_ok value p bytes e = ground arith

encode_response_ok :
    (r : CoinbaserResponse) (bytes : List ℕ)
    → encode_response r ≡ ok bytes
    → r.value < 2 ^ 64 - 1
    → let blob = r.coinbaser_id ∷ output_bytes r.outputs in
      (bytes ≡ 0x11 ∷ (le_bytes 8 r.value ++ (le_bytes 4 (length blob) ++ blob)))
      × (length blob ≤ 65535)
      × (total_value r.outputs ≤ r.value)
      × (length r.outputs ≤ 1024)
      × All HasScript r.outputs
unfolding encode_response
encode_response_ok r bytes e h =
    let (few, rest) = if_err_ok (ltb max_coinbaser_outputs (length r.outputs)) _ _ e in
    let (p, loop, last) = and_then_ok (encode_outputs 0 (r.coinbaser_id ∷ []) r.outputs) _ rest in
    let (within, short, shape) = encode_blob_ok r.value p bytes last in
    let (total, blob, scripts) =
      encode_outputs_ok 0 (r.coinbaser_id ∷ []) r.outputs p (omega arith) loop in
    (rw blob at shape, omega (arith, ap length blob), omega arith, ltb→le _ _ few, scripts)

abbrev pub FitsU64 : TxOut → Type 0
FitsU64 o = o.value < 2 ^ 64

All-IsOutput : (os : List TxOut) → All FitsU64 os → All HasScript os → All IsOutput os
All-IsOutput [] h k = tt
All-IsOutput (o ∷ os) h k = ((h.0, k.0.0, k.0.1), All-IsOutput os h.1 k.1)

read_response-append :
    (r : CoinbaserResponse) (w pad : List ℕ)
    → All IsOutput r.outputs
    → total_value r.outputs ≤ r.value
    → r.value < 2 ^ 64 - 1
    → length r.outputs ≤ max_coinbaser_outputs
    → length (r.coinbaser_id ∷ output_bytes r.outputs) ≤ 65535
    → let blob = r.coinbaser_id ∷ output_bytes r.outputs in
      read_response
        (cursor w (0x11 ∷ (le_bytes 8 r.value ++ (le_bytes 4 (length blob) ++ (blob ++ pad)))))
      ≡ ok (r, cursor w pad)
unfolding read_response
read_response-append r w pad ho within hv few short = >>=_ok _ _ (open_message-cons _ _ _) (
    >>=_ok _ _ (u64-append _ _ _ _ (omega arith)) (
      >>=_ok _ _ (u32-append _ _ _ _ (omega arith)) (
        >>=_ok _ _ (fail_if-false _ _ (ground arith)) (
          >>=_ok _ _ (take_bytes-append _ _ _ (r.coinbaser_id ∷ output_bytes r.outputs) _ refl) (
            rw (
              run_ok (read_blob r.value) (
                read_blob-append r (r.coinbaser_id ∷ output_bytes r.outputs) ho within hv few)))))))

-- What the encoder accepts is decoded to itself, whatever follows it, for outputs of u64
-- values and a response value below u64::MAX, where the decoder's sum cannot wrap.
pub decode_response-encode_response :
    (r : CoinbaserResponse) (bytes pad : List ℕ)
    → All FitsU64 r.outputs
    → r.value < 2 ^ 64 - 1
    → encode_response r ≡ ok bytes
    → decode_response (bytes ++ pad) ≡ ok r
unfolding decode_response
decode_response-encode_response r bytes pad hf hv e =
    let (shape, short, within, few, scripts) = encode_response_ok r bytes e hv in
    rw (shape, append_assoc, append_assoc)
      (run_ok read_response
        (read_response-append r _ pad (All-IsOutput _ hf scripts) within hv few short))
