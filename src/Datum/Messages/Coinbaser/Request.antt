-- ===== src/Datum/Messages/Coinbaser/Request.antt =====
-- The coinbaser request is read back as it was written.
use ratum.Base.{ℕ, ◌^◌, ◌<◌, ◌≡◌, refl, List, ◌++◌, length, ok}
use mathlib.Core.List.{append_assoc}
use ratum.Reader.{cursor}
use ratum.Reader.Laws.{>>=_ok, u64-append, arr-append, run_ok}
use ratum.Datum.Messages.{from_truncated}
use ratum.Datum.Messages.Laws.{open_message-cons, read_terminator-cons}
use ratum.Datum.Messages.Coinbaser.{CoinbaserRequest, encode_request, read_request, decode_request}

read_request-encode_request :
    (q : CoinbaserRequest) (w pad : List ℕ)
    → q.value < 2 ^ 64
    → length q.prev_hash ≡ 32
    → read_request (cursor w (encode_request q ++ pad)) ≡ ok (q, cursor w pad)
unfolding read_request encode_request
read_request-encode_request q w pad hv hh = >>=_ok _ _ (open_message-cons _ _ _) (
    rw append_assoc (
      >>=_ok _ _ (u64-append _ _ _ _ hv) (
        rw append_assoc
          (>>=_ok _ _ (arr-append 32 _ _ _ _ hh) (>>=_ok _ _ (read_terminator-cons _ _) refl)))))

-- A request of a u64 value and a 32-byte hash is decoded to itself; what follows it is not read.
pub decode_request-encode_request :
    (q : CoinbaserRequest) (pad : List ℕ)
    → q.value < 2 ^ 64
    → length q.prev_hash ≡ 32
    → decode_request (encode_request q ++ pad) ≡ ok q
unfolding decode_request
decode_request-encode_request q pad hv hh =
    run_ok read_request (read_request-encode_request q _ pad hv hh)
