-- ===== src/Bitcoin/Transaction/Txid.antt =====
-- The id of a transaction does not depend on its witnesses.
use ratum.Base.{
  ℕ, ◌-◌, ◌<◌, ◌^◌, ◌≡◌, refl, sym, ap, ◌∙◌, arith, List, [], ◌∷◌, ◌++◌, Option, none, some, Bool,
  true, false, ok, err, length, All, length-append, take, drop, take-append, drop-append, subst,
}
use mathlib.Core.List.{append_assoc, append-nil}
use ratum.Base.Bytes.{le_bytes}
use ratum.Reader.{cursor, pos, at_end, is_empty, peek2, two_of}
use ratum.Reader.Laws.{>>=_ok, u32-append, fail_if-false, run_ok}
use ratum.Bitcoin.Merkle.{Hash, sha256d}
use ratum.Bitcoin.CompactSize.{from_truncated, no_inputs, encode_compact_size}
use ratum.Bitcoin.CompactSize.RoundTrip.{decode_compact_size-encode_compact_size}
use ratum.Bitcoin.Transaction.{
  TxOut, has_marker, is_marker, skip_marker, read_version_and_marker, witnesses_if, end_of_input,
  read_lock_time, slice, skip_body, read_stripped, stripped, txid,
}
use ratum.Bitcoin.Transaction.Parts.{
  TxIn, inputs_onto, outputs_onto, stacks_onto, FitsCount, FitsInput, FitsOutput, FitsStack,
  skip_inputs-onto, skip_outputs-onto, skip_witnesses-onto, inputs_onto-append, outputs_onto-append,
  no_marker, advance-append,
}

pub record Transaction : Type 0 where
  pub version : ℕ
  pub inputs : List TxIn
  pub outputs : List TxOut
  pub stacks : Option (List (List (List ℕ)))
  pub lock_time : ℕ

abbrev pub body_onto : Transaction → List ℕ → List ℕ
body_onto t r =
    encode_compact_size (length t.inputs)
    ++ inputs_onto t.inputs (encode_compact_size (length t.outputs) ++ outputs_onto t.outputs r)

abbrev pub after_version : Transaction → Option (List (List (List ℕ))) → List ℕ
after_version t none = body_onto t (le_bytes 4 t.lock_time)
after_version t (some ss) = 0 ∷ 1 ∷ body_onto t (stacks_onto ss (le_bytes 4 t.lock_time))

-- What follows the outputs.
abbrev pub end_of : Transaction → Option (List (List (List ℕ))) → List ℕ
end_of t none = le_bytes 4 t.lock_time
end_of t (some ss) = stacks_onto ss (le_bytes 4 t.lock_time)

abbrev pub is_some : Option (List (List (List ℕ))) → Bool
is_some none = false
is_some (some ss) = true

-- The transaction as bytes, with the segwit marker, flag and stacks if it has any.
abbrev pub serialize : Transaction → List ℕ
serialize t = le_bytes 4 t.version ++ after_version t t.stacks

abbrev pub FitsStacks : Transaction → Option (List (List (List ℕ))) → Type 0
FitsStacks t none = Unit
FitsStacks t (some ss) = (length ss ≡ length t.inputs) × All FitsStack ss

pub record Fits (t : Transaction) : Type 0 where
  pub version : t.version < 2 ^ 32
  pub lock_time : t.lock_time < 2 ^ 32
  pub some_inputs : 0 < length t.inputs
  pub inputs : FitsCount t.inputs × All FitsInput t.inputs
  pub outputs : FitsCount t.outputs × All FitsOutput t.outputs
  pub stacks : FitsStacks t t.stacks

-- A marker that is there.
pub marker : (w r : List ℕ) → has_marker (cursor w (0 ∷ 1 ∷ r)) ≡ ok (true, cursor w (0 ∷ 1 ∷ r))
unfolding has_marker is_marker peek2 two_of
marker w r = refl

module _ (t : Transaction) (h : Fits t) where
  body_onto-append : (r s : List ℕ) → body_onto t (r ++ s) ≡ body_onto t r ++ s
  body_onto-append r s =
      let outs = outputs_onto t.outputs r in
      let n_in = encode_compact_size (length t.inputs) in
      let n_out = encode_compact_size (length t.outputs) in
      ap (λ u. n_in ++ inputs_onto t.inputs (n_out ++ u)) (outputs_onto-append t.outputs r s)
      ∙ ap (λ u. n_in ++ inputs_onto t.inputs u) (sym (append_assoc n_out outs s))
      ∙ ap (λ u. n_in ++ u) (inputs_onto-append t.inputs (n_out ++ outs) s)
      ∙ sym (append_assoc n_in (inputs_onto t.inputs (n_out ++ outs)) s)

  pub skip_body-onto :
      (w r : List ℕ) → skip_body (cursor w (body_onto t r)) ≡ ok (length t.inputs, cursor w r)
  unfolding skip_body
  skip_body-onto w r =
      >>=_ok _ _ (decode_compact_size-encode_compact_size (length t.inputs) w _ h.inputs.0) (
        >>=_ok _ _ (fail_if-false no_inputs (cursor w _) (ground (arith, h.some_inputs))) (
          >>=_ok _ _ (skip_inputs-onto t.inputs w _ h.inputs.1) (
            >>=_ok _ _ (decode_compact_size-encode_compact_size (length t.outputs) w _ h.outputs.0)
              (>>=_ok _ _ (skip_outputs-onto t.outputs w r h.outputs.1) refl))))

  pub read_lock_time-end :
      (w : List ℕ)
      → read_lock_time (cursor w (le_bytes 4 t.lock_time)) ≡ ok (t.lock_time, cursor w [])
  unfolding read_lock_time end_of_input at_end is_empty
  read_lock_time-end w =
      subst (λ u. read_lock_time (cursor w u) ≡ ok (t.lock_time, cursor w []))
        (append-nil (le_bytes 4 t.lock_time))
        (>>=_ok _ _ (u32-append "lock time" w [] t.lock_time h.lock_time) (>>=_ok _ _ refl refl))

-- What stands between two positions.
slice_between :
    (w pre body rest after : List ℕ)
    → w ≡ pre ++ after
    → after ≡ body ++ rest
    → slice w (length w - length after) (length w - length rest) ≡ body
slice_between w pre body rest after hw ha =
    let long = ap length hw ∙ length-append pre after in
    let after_long = ap length ha ∙ length-append body rest in
    ap (take (length w - length rest - (length w - length after))) (
      ap (drop (length w - length after)) hw
      ∙ drop-append (length w - length after) pre after (omega (arith, long))
      ∙ ha)
    ∙ take-append (length w - length rest - (length w - length after)) body rest
        (omega (arith, long, after_long))

module _ (t : Transaction) (h : Fits t) where
  -- The transaction without its witnesses.
  abbrev pub without_witnesses : List ℕ
  without_witnesses = serialize (record t { stacks = none })

  read_stripped-from :
      (w pre tail : List ℕ) (b : Bool)
      → w ≡ pre ++ body_onto t tail
      → read_version_and_marker (cursor w w) ≡ ok ((t.version, b), cursor w (body_onto t tail))
      → witnesses_if b (length t.inputs) (cursor w tail)
        ≡ ok (tt, cursor w (le_bytes 4 t.lock_time))
      → read_stripped w (cursor w w) ≡ ok (without_witnesses, cursor w [])
  unfolding read_stripped pos le_bytes
  read_stripped-from w pre tail b hw head witnesses = >>=_ok _ _ head (
      >>=_ok _ _ refl (
        >>=_ok _ _ (skip_body-onto t h w tail) (
          >>=_ok _ _ refl (
            >>=_ok _ _ witnesses
              (>>=_ok _ _ (read_lock_time-end t h w) (ap (λ u. ok (u, cursor w [])) hashed))))))
    where
      hashed :
          le_bytes 4 t.version
            ++ slice w (length w - length (body_onto t tail)) (length w - length tail)
            ++ le_bytes 4 t.lock_time
          ≡ without_witnesses
      hashed =
          ap (λ u. le_bytes 4 t.version ++ u ++ le_bytes 4 t.lock_time)
            (slice_between w pre (body_onto t []) tail (body_onto t tail) hw
              (body_onto-append t h [] tail))
          ∙ ap (λ u. le_bytes 4 t.version ++ u)
              (sym (body_onto-append t h [] (le_bytes 4 t.lock_time)))

  -- The version and the marker of a serialized transaction.
  pub read_version_and_marker-onto :
      (o : Option (List (List (List ℕ)))) (w : List ℕ)
      → read_version_and_marker (cursor w (le_bytes 4 t.version ++ after_version t o))
        ≡ ok ((t.version, is_some o), cursor w (body_onto t (end_of t o)))
  unfolding read_version_and_marker has_marker skip_marker
  read_version_and_marker-onto none w = >>=_ok _ _ (u32-append "version" w _ t.version h.version) (
      >>=_ok _ _
        (ap (λ b. ok (b, cursor w (after_version t none)))
          (no_marker (length t.inputs) w _ h.some_inputs))
        (>>=_ok _ _ refl refl))
  read_version_and_marker-onto (some ss) w =
      >>=_ok _ _ (u32-append "version" w _ t.version h.version) (
        >>=_ok _ _ (marker w _)
          (>>=_ok _ _ (advance-append 2 "segwit marker and flag" w (0 ∷ 1 ∷ []) _ refl) refl))

  pub witnesses_if-onto :
      (o : Option (List (List (List ℕ)))) (w : List ℕ)
      → FitsStacks t o
      → witnesses_if (is_some o) (length t.inputs) (cursor w (end_of t o))
        ≡ ok (tt, cursor w (le_bytes 4 t.lock_time))
  unfolding witnesses_if
  witnesses_if-onto none w hs = refl
  witnesses_if-onto (some ss) w hs =
      ap (λ n. witnesses_if true n (cursor w (stacks_onto ss (le_bytes 4 t.lock_time)))) (sym hs.0)
      ∙ skip_witnesses-onto ss w (le_bytes 4 t.lock_time) hs.1

  read_stripped-serialize :
      (o : Option (List (List (List ℕ))))
      → FitsStacks t o
      → (w : List ℕ) → w ≡ le_bytes 4 t.version ++ after_version t o
      → read_stripped w (cursor w w) ≡ ok (without_witnesses, cursor w [])
  read_stripped-serialize none hs w hw =
      read_stripped-from w (le_bytes 4 t.version) (end_of t none) false hw
        (ap (λ u. read_version_and_marker (cursor w u)) hw ∙ read_version_and_marker-onto none w)
        (witnesses_if-onto none w hs)
  read_stripped-serialize (some ss) hs w hw =
      read_stripped-from w (le_bytes 4 t.version ++ (0 ∷ 1 ∷ [])) (end_of t (some ss)) true
        (hw ∙ sym (append_assoc (le_bytes 4 t.version) (0 ∷ 1 ∷ []) _))
        (ap (λ u. read_version_and_marker (cursor w u)) hw
          ∙ read_version_and_marker-onto (some ss) w)
        (witnesses_if-onto (some ss) w hs)

-- A transaction that fits the wire, with stacks of witnesses or without, is read whole, and its id
-- is the double hash of its serialization without them, whatever the hash.
pub txid-serialize :
    (sha256 : List ℕ → Hash) (t : Transaction)
    → Fits t
    → txid sha256 (serialize t) ≡ ok (sha256d sha256 (serialize (record t { stacks = none })))
unfolding txid stripped
txid-serialize sha256 t h =
    ap (λ r. elim r [ ok bytes ↦ ok (sha256d sha256 bytes) | err e ↦ err e ])
      (run_ok (read_stripped (serialize t))
        (read_stripped-serialize t h t.stacks h.stacks (serialize t) refl))
