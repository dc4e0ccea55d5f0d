-- ===== src/Bitcoin/Transaction/Parts.antt =====
-- Transactions as the network writes them, and what skipping their parts reads.
use ratum.Base.{
  ℕ, ◌<◌, ◌^◌, ◌≡◌, refl, sym, ap, ◌∙◌, arith, List, [], ◌∷◌, ◌++◌, false, ok, length, All, String,
  Bool-cases, inl, inr, leb, ◌%◌,
}
use mathlib.Core.List.{append_assoc}
use ratum.Base.Bytes.{le_bytes, length-le_bytes}
use ratum.Reader.{cursor, advance, peek2, two_of}
use ratum.Reader.Laws.{>>=_ok, take_bytes-append}
use ratum.Bitcoin.CompactSize.{
  TxError, from_truncated, encode_compact_size, compact_size_max_1, compact_size_max_2,
  compact_size_max_4,
}
use ratum.Bitcoin.CompactSize.RoundTrip.{decode_compact_size-encode_compact_size}
use ratum.Bitcoin.Transaction.{
  TxOut, outpoint_size, sequence_size, value_size, is_marker, skip_field, skip_items,
  skip_witnesses, skip_inputs, skip_outputs,
}

pub record TxIn : Type 0 where
  pub outpoint : List ℕ
  pub script_sig : List ℕ
  pub sequence_bytes : List ℕ

-- Each part is written in front of what follows it.
abbrev pub field_onto : List ℕ → List ℕ → List ℕ
field_onto x r = encode_compact_size (length x) ++ (x ++ r)

abbrev pub inputs_onto : List TxIn → List ℕ → List ℕ
inputs_onto [] r = r
inputs_onto (i ∷ is) r =
    i.outpoint ++ field_onto i.script_sig (i.sequence_bytes ++ inputs_onto is r)

abbrev pub outputs_onto : List TxOut → List ℕ → List ℕ
outputs_onto [] r = r
outputs_onto (o ∷ os) r = le_bytes 8 o.value ++ field_onto o.script_pubkey (outputs_onto os r)

abbrev pub items_onto : List (List ℕ) → List ℕ → List ℕ
items_onto [] r = r
items_onto (x ∷ xs) r = field_onto x (items_onto xs r)

abbrev pub stacks_onto : List (List (List ℕ)) → List ℕ → List ℕ
stacks_onto [] r = r
stacks_onto (s ∷ ss) r = encode_compact_size (length s) ++ items_onto s (stacks_onto ss r)

-- What fits the wire: counts and lengths of 64 bits, and parts of fixed size.
abbrev pub FitsCount : {A : Type 0} → List A → Type 0
FitsCount xs = length xs < 2 ^ 64

abbrev pub FitsInput : TxIn → Type 0
FitsInput i =
    (length i.outpoint ≡ outpoint_size)
    × FitsCount i.script_sig
    × (length i.sequence_bytes ≡ sequence_size)

abbrev pub FitsOutput : TxOut → Type 0
FitsOutput o = (o.value < 2 ^ 64) × FitsCount o.script_pubkey

abbrev pub FitsStack : List (List ℕ) → Type 0
FitsStack s = FitsCount s × All FitsCount s

pub advance-append :
    (n : ℕ) (what : String) (w xs r : List ℕ)
    → length xs ≡ n
    → advance {E = TxError} n what (cursor w (xs ++ r)) ≡ ok (tt, cursor w r)
unfolding advance
advance-append n what w xs r h = >>=_ok _ _ (take_bytes-append n what w xs r h) refl

pub skip_field-onto :
    (what : String) (w x r : List ℕ)
    → FitsCount x
    → skip_field what (cursor w (field_onto x r)) ≡ ok (tt, cursor w r)
unfolding skip_field
skip_field-onto what w x r h =
    >>=_ok _ _ (decode_compact_size-encode_compact_size (length x) w (x ++ r) h)
      (advance-append (length x) what w x r refl)

pub skip_inputs-onto :
    (is : List TxIn) (w r : List ℕ)
    → All FitsInput is
    → skip_inputs (length is) (cursor w (inputs_onto is r)) ≡ ok (tt, cursor w r)
unfolding skip_inputs
skip_inputs-onto [] w r h = refl
skip_inputs-onto (i ∷ is) w r h = >>=_ok _ _ (advance-append outpoint_size _ w i.outpoint _ h.0.0) (
    >>=_ok _ _ (skip_field-onto _ w i.script_sig _ h.0.1) (
      >>=_ok _ _ (advance-append sequence_size _ w i.sequence_bytes _ h.0.2)
        (skip_inputs-onto is w r h.1)))

pub skip_outputs-onto :
    (os : List TxOut) (w r : List ℕ)
    → All FitsOutput os
    → skip_outputs (length os) (cursor w (outputs_onto os r)) ≡ ok (tt, cursor w r)
unfolding skip_outputs
skip_outputs-onto [] w r h = refl
skip_outputs-onto (o ∷ os) w r h =
    >>=_ok _ _ (advance-append value_size _ w (le_bytes 8 o.value) _ (length-le_bytes 8 o.value))
      (>>=_ok _ _ (skip_field-onto _ w o.script_pubkey _ h.0.1) (skip_outputs-onto os w r h.1))

skip_items-onto :
    (xs : List (List ℕ)) (w r : List ℕ)
    → All FitsCount xs
    → skip_items (length xs) (cursor w (items_onto xs r)) ≡ ok (tt, cursor w r)
unfolding skip_items
skip_items-onto [] w r h = refl
skip_items-onto (x ∷ xs) w r h =
    >>=_ok _ _ (skip_field-onto _ w x _ h.0) (skip_items-onto xs w r h.1)

pub skip_witnesses-onto :
    (ss : List (List (List ℕ))) (w r : List ℕ)
    → All FitsStack ss
    → skip_witnesses (length ss) (cursor w (stacks_onto ss r)) ≡ ok (tt, cursor w r)
unfolding skip_witnesses
skip_witnesses-onto [] w r h = refl
skip_witnesses-onto (s ∷ ss) w r h =
    >>=_ok _ _ (decode_compact_size-encode_compact_size (length s) w _ h.0.0)
      (>>=_ok _ _ (skip_items-onto s w _ h.0.1) (skip_witnesses-onto ss w r h.1))

-- The parts do not depend on what follows.
field_onto-append : (x r t : List ℕ) → field_onto x (r ++ t) ≡ field_onto x r ++ t
field_onto-append x r t = sym (
    append_assoc (encode_compact_size (length x)) (x ++ r) t
    ∙ ap (λ u. encode_compact_size (length x) ++ u) (append_assoc x r t))

pub inputs_onto-append :
    (is : List TxIn) (r t : List ℕ) → inputs_onto is (r ++ t) ≡ inputs_onto is r ++ t
inputs_onto-append [] r t = refl
inputs_onto-append (i ∷ is) r t =
    let rest = inputs_onto is r in
    ap (λ u. i.outpoint ++ field_onto i.script_sig (i.sequence_bytes ++ u))
      (inputs_onto-append is r t)
    ∙ ap (λ u. i.outpoint ++ field_onto i.script_sig u) (sym (append_assoc i.sequence_bytes rest t))
    ∙ ap (λ u. i.outpoint ++ u) (field_onto-append i.script_sig (i.sequence_bytes ++ rest) t)
    ∙ sym (append_assoc i.outpoint (field_onto i.script_sig (i.sequence_bytes ++ rest)) t)

pub outputs_onto-append :
    (os : List TxOut) (r t : List ℕ) → outputs_onto os (r ++ t) ≡ outputs_onto os r ++ t
outputs_onto-append [] r t = refl
outputs_onto-append (o ∷ os) r t =
    let rest = outputs_onto os r in
    ap (λ u. le_bytes 8 o.value ++ field_onto o.script_pubkey u) (outputs_onto-append os r t)
    ∙ ap (λ u. le_bytes 8 o.value ++ u) (field_onto-append o.script_pubkey rest t)
    ∙ sym (append_assoc (le_bytes 8 o.value) (field_onto o.script_pubkey rest) t)

-- A count of one at least does not start like the segwit marker.
pub no_marker :
    (n : ℕ) (w r : List ℕ)
    → 0 < n
    → is_marker (peek2 (cursor w (encode_compact_size n ++ r))) ≡ false
unfolding is_marker peek2 two_of encode_compact_size le_bytes
no_marker n w r h = elim (Bool-cases (leb n compact_size_max_1)) [
  | inl one ↦ rw one (one_byte r (ground (arith, one, h)))
  | inr more ↦ rw more (elim (Bool-cases (leb n compact_size_max_2)) [
    | inl two ↦ rw two refl
    | inr more2 ↦ rw more2 (elim (Bool-cases (leb n compact_size_max_4)) [
      | inl four ↦ rw four refl
      | inr more4 ↦ rw more4 refl
    ])
  ])
]
  where
    one_byte : (r : List ℕ) → 0 < n % 256 → is_marker (two_of ((n % 256) ∷ r)) ≡ false
    one_byte [] l = refl
    one_byte (y ∷ r) l = ground (arith, l)
