-- ===== src/Datum/Messages/ShareResponse/RoundTrip.antt =====
-- An answer to a share is read back as it was written.
use ratum.Base.{
  ℕ, ◌^◌, ◌<◌, ◌≡◌, refl, arith, List, [], ◌∷◌, length, length-append, take-append, drop-append,
  Option, none, some, Result, ok,
}
use ratum.Reader.{cursor, lift}
use ratum.Reader.Laws.{>>=_ok, u8-cons, u16-append, u32-append, run_ok}
use ratum.Datum.Messages.{from_truncated, struct_end}
use ratum.Datum.Messages.Laws.{open_message-cons}
use ratum.Datum.Messages.Abw.{CandidateRef, assignment_slots}
use ratum.Datum.Messages.ShareResponse.{
  ShareResponse, encode_share_response, read_share_response, decode_share_response, encode_ref,
  ref_of, status_of,
}
use ratum.Datum.Messages.ShareResponse.Codes.{HasReason, verdict_of-status_of}

abbrev pub HasRef : Option CandidateRef → Type 0
HasRef none = Unit
HasRef (some r) = (r.slot < assignment_slots) × (length r.raw_pow_hash_le ≡ 32)

ref_of-encode_ref : (r : Option CandidateRef) → HasRef r → ref_of (encode_ref r) ≡ r
unfolding ref_of encode_ref
ref_of-encode_ref none h = refl
ref_of-encode_ref (some r) (hs, hh) =
    rw
      (
        take-append 32 r.raw_pow_hash_le (struct_end ∷ []) hh,
        drop-append 32 r.raw_pow_hash_le (struct_end ∷ []) hh,
        length-append r.raw_pow_hash_le (struct_end ∷ []),
        hh,
      )
      (ground arith)

lift_ok :
    {A E : Type 0} (r : Result E A) {a : A} {w s : List ℕ}
    → r ≡ ok a
    → lift r (cursor w s) ≡ ok (a, cursor w s)
lift_ok r h = rw h

-- An answer to a share is decoded to itself: its verdict with its reason, its fields, and the
-- reference to the candidate when there is one. The fields fit their widths, the reason is one that
-- a code is read as, and a reference has an assigned slot and a 32-byte hash.
pub decode_share_response-encode_share_response :
    (s : ShareResponse)
    → HasReason s.verdict
    → (status_of s.verdict).1 < 2 ^ 16
    → s.nonce < 2 ^ 32
    → HasRef s.abw_ref
    → decode_share_response (encode_share_response s) ≡ ok s
unfolding decode_share_response read_share_response encode_share_response
decode_share_response-encode_share_response s hv hc hn hr =
    run_ok read_share_response {c' = cursor (encode_share_response s) (encode_ref s.abw_ref)} (
      >>=_ok _ _ (open_message-cons _ _ _) (
        >>=_ok _ _ (u8-cons _ _ _ _) (
          >>=_ok _ _ (u16-append _ _ _ _ hc) (
            >>=_ok _ _ (lift_ok _ (verdict_of-status_of s.verdict hv)) (
              >>=_ok _ _ (u32-append _ _ _ _ hn) (
                >>=_ok _ _ (u8-cons _ _ _ _)
                  (>>=_ok _ _ (u8-cons _ _ _ _) (rw (ref_of-encode_ref s.abw_ref hr)))))))))
