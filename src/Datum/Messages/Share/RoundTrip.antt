-- ===== src/Datum/Messages/Share/RoundTrip.antt =====
-- A submitted share is decoded to itself.
use ratum.Base.{◌^◌, ◌<◌, ◌≤◌, ◌≡◌, ◌≢◌, List, All, length}
use ratum.Datum.Messages.{from_truncated}
use ratum.Datum.Messages.Share.{max_username_len, extranonce_size}
use ratum.Datum.Messages.Share.Sections.{JobFits, CoinbaseFits, Blake2bFits}
use ratum.Datum.Messages.Share.Submit.{PowSubmit, SharePrefix, flag_byte}
use ratum.Datum.Messages.Share.Loop.{IfAny}

-- The fields of a share fit their widths, and its username holds no NUL.
pub record SubmitFits (s : PowSubmit) : Type 0 where
  pub ntime : s.ntime < 2 ^ 32
  pub nonce : s.nonce < 2 ^ 32
  pub version : s.version < 2 ^ 32
  pub extranonce : length s.extranonce ≡ extranonce_size
  pub username : length s.username ≤ max_username_len
  pub no_nul : All (λ b. b ≢ 0) s.username
  pub job : IfAny JobFits s.job
  pub coinbase : IfAny CoinbaseFits s.coinbase
  pub blake2b : Blake2bFits s.blake2b

prefix_of : PowSubmit → SharePrefix
prefix_of s = record {
  job_id = s.job_id;
  coinbase_id = s.coinbase_id;
  flags = flag_byte s.is_block s.subsidy_only s.quickdiff;
  target_byte = s.target_byte;
  ntime = s.ntime;
  nonce = s.nonce;
}
