-- ===== src/Datum/Messages/Validation/RoundTrip.antt =====
-- A list of transactions is read back as it was written.
use ratum.Base.{ℕ, ◌<◌, ◌^◌, ◌≡◌, refl, List, length}
use ratum.Datum.Messages.{from_truncated}
use ratum.Datum.Messages.Validation.{status_ok, code, from_code}

-- A transaction whose size three bytes hold.
abbrev pub FitsTxn : List ℕ → Type 0
FitsTxn tx = length tx < 2 ^ 24

from_code-code_ok : from_code (code status_ok) ≡ status_ok
unfolding from_code code
from_code-code_ok = refl
