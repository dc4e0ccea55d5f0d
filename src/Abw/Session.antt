-- ===== src/Abw/Session.antt =====
-- prime/src/connection/assignments.rs: the calls of a session on its slots, in any order.
use ratum.Base.{String, ℕ, List, [], ◌∷◌, ◌++◌, Option, none, some}
use ratum.Abw.{
  PendingReveal, AbwSlotState, note_published, connect, resume, reveals_due, rotate, note_share,
  rotation_due, note_tip,
}

-- What a session does to its slots. A rotation looks at one time and is made at a later one.
pub data Op : Type 0 where
  connecting : ℕ → Op
  resuming : ℕ → Op
  sharing : Op
  tip : ℕ → Op
  publishing : ℕ → Op
  rotating : ℕ → ℕ → List ℕ → Op
  revealing : ℕ → Op

module _ (xor_key_hash : List ℕ → List ℕ) where
  unfoldable pub rotate_if_due :
      AbwSlotState → ℕ → List ℕ → Option String → List PendingReveal × AbwSlotState
  rotate_if_due s at key none = ([], s)
  rotate_if_due s at key (some why) =
      let done = rotate xor_key_hash s at key in (done.0.reveals, done.1)

  unfoldable pub step : Op → AbwSlotState → List PendingReveal × AbwSlotState
  step (connecting opened_at) s = ([], connect s opened_at)
  step (resuming closed_at) s = ([], resume s closed_at)
  step sharing s = ([], note_share s)
  step (tip now) s = ([], (note_tip s now).1)
  step (publishing slot) s = ([], (note_published s slot).1)
  step (rotating now at key) s = rotate_if_due s at key (rotation_due s now)
  step (revealing now) s = reveals_due s now

  -- What the operations disclose, in order, and the state they leave.
  unfoldable pub steps : List Op → AbwSlotState → List PendingReveal × AbwSlotState
  steps [] s = ([], s)
  steps (op ∷ ops) s =
      let one = step op s in let rest = steps ops (one.1) in (one.0 ++ rest.0, rest.1)
