-- ===== src/Abw.antt =====
-- prime/src/abw.rs: the slots against block withholding of one session, through seeding, retirement
-- and the reveal of their keys.
--
-- An instant is a number of milliseconds. The array of slots is a function of their number, read
-- below 16 only. The random key of a seeded slot is an argument. A rotation's notice is `none` where
-- `expect` would panic.
pub mod Session
pub mod Kept
pub mod Delay
pub mod Due
pub mod Waiting
use ratum.Base.{
  ℕ, zero, suc, ◌+◌, ◌-◌, ◌*◌, ◌/◌, ◌%◌, ◌^◌, min, max, List, [], ◌∷◌, ◌++◌, Option, none, some,
  Bool, true, false, ◌||◌, ◌&&◌, not, ◌==◌, ltb, leb, if◌then◌else◌, String,
}
use ratum.Datum.Messages.Abw.{
  assignment_slots, AssignmentNotice, encode_notice, Reveal, encode_reveal,
}

abbrev pub rotate_after_shares : ℕ
rotate_after_shares = 16384

abbrev pub rotate_after : ℕ
rotate_after = 600 * 1000

abbrev pub reveal_after : ℕ
reveal_after = 300 * 1000

abbrev pub max_tip_rotations_per_reveal : ℕ
max_tip_rotations_per_reveal = 4

abbrev pub replay_grace : ℕ
replay_grace = 10 * 1000

pub data SlotKeyStatus : Type 0 where
  secret revealed_key : SlotKeyStatus

pub data Slot : Type 0 where
  empty : Slot
  seeded : List ℕ → Slot
  -- The key, when it is revealed, and whether it was retired while the gateway was connected.
  retired : List ℕ → ℕ → Bool → Slot
  -- The key, and when its reveal is sent again.
  revealed : List ℕ → Option ℕ → Slot

unfoldable pub secret_key : Slot → Option (List ℕ)
secret_key empty = none
secret_key (seeded key) = some key
secret_key (retired key reveal_at on_open) = some key
secret_key (revealed key resend_at) = none

unfoldable pub due_at : Slot → Option ℕ
due_at empty = none
due_at (seeded key) = none
due_at (retired key reveal_at on_open) = some reveal_at
due_at (revealed key resend_at) = resend_at

pub record PendingReveal : Type 0 where
  pub slot : ℕ
  pub resend : Bool
  pub payload : List ℕ

pub record Rotation : Type 0 where
  pub reveals : List PendingReveal
  pub notice : Option (List ℕ)

pub record AbwSlotState : Type 0 where
  pub slots : ℕ → Slot
  pub active : ℕ
  pub shares_since_activation : ℕ
  pub activated_at : ℕ
  pub held_until : ℕ
  pub tip_rotation_pending : Bool
  pub published : ℕ → Bool

-- An assignment to an array's entry.
abbrev pub update {ℓ} : {A : Type ℓ} → (ℕ → A) → ℕ → A → ℕ → A
update f k v j = if j == k then v else f j

unfoldable pub seed : AbwSlotState → ℕ → List ℕ → AbwSlotState
seed s slot key = record s {
  slots = update s.slots slot (seeded key);
  published = update s.published slot false;
  active = slot;
}

unfoldable pub start : ℕ → List ℕ → AbwSlotState
start now key =
    seed
      (record {
        slots = λ j. empty;
        active = 0;
        shares_since_activation = 0;
        activated_at = now;
        held_until = now;
        tip_rotation_pending = false;
        published = λ j. false;
      })
      0 key

abbrev pub key_status : Slot → Bool → Option (List ℕ × SlotKeyStatus)
key_status empty published = none
key_status (seeded key) published = some (key, if published then revealed_key else secret)
key_status (retired key reveal_at on_open) published =
    some (key, if published then revealed_key else secret)
key_status (revealed key resend_at) published = some (key, revealed_key)

unfoldable pub key_for : AbwSlotState → ℕ → Option (List ℕ × SlotKeyStatus)
key_for s slot =
    if ltb slot assignment_slots then key_status (s.slots slot) (s.published slot) else none

abbrev pub publish_key : AbwSlotState → ℕ → Option (List ℕ) → Option Bool × AbwSlotState
publish_key s slot none = (none, s)
publish_key s slot (some key) =
    if s.published slot
    then (none, s)
    else (some (slot == s.active), record s { published = update s.published slot true })

unfoldable pub note_published : AbwSlotState → ℕ → Option Bool × AbwSlotState
note_published s slot =
    if ltb slot assignment_slots then publish_key s slot (secret_key (s.slots slot)) else (none, s)

unfoldable pub active_published : AbwSlotState → Bool
active_published s = s.published s.active

unfoldable pub connect : AbwSlotState → ℕ → AbwSlotState
connect s opened_at = record s { held_until = opened_at + replay_grace }

unfoldable pub held : AbwSlotState → ℕ → Bool
held s now = ltb now s.held_until

unfoldable pub resumed : ℕ → Slot → Slot
resumed closed_at empty = empty
resumed closed_at (seeded key) = seeded key
resumed closed_at (retired key reveal_at true) = retired key (closed_at + reveal_after) false
resumed closed_at (retired key reveal_at false) = retired key reveal_at false
resumed closed_at (revealed key none) = revealed key (some closed_at)
resumed closed_at (revealed key (some at)) = revealed key (some at)

unfoldable pub resume : AbwSlotState → ℕ → AbwSlotState
resume s closed_at = record s { slots = λ j. resumed closed_at (s.slots j) }

abbrev pub disclose : AbwSlotState → ℕ → List ℕ → Bool → Option PendingReveal × AbwSlotState
disclose s slot key resend = (
  some (record {
    slot = slot;
    resend = resend;
    payload = encode_reveal (record { slot = slot; xor_key = key });
  }),
  record s { slots = update s.slots slot (revealed key none) },
)

unfoldable pub reveal_entry : AbwSlotState → ℕ → Slot → Option PendingReveal × AbwSlotState
reveal_entry s slot empty = (none, s)
reveal_entry s slot (seeded key) = (none, s)
reveal_entry s slot (retired key reveal_at on_open) = disclose s slot key false
reveal_entry s slot (revealed key none) = (none, s)
reveal_entry s slot (revealed key (some at)) = disclose s slot key true

unfoldable pub reveal : AbwSlotState → ℕ → Option PendingReveal × AbwSlotState
reveal s slot = reveal_entry s slot (s.slots slot)

unfoldable pub next_slot : AbwSlotState → ℕ
next_slot s = (s.active + 1) % assignment_slots

unfoldable pub retired_until : Slot → Option ℕ
retired_until empty = none
retired_until (seeded key) = none
retired_until (retired key reveal_at on_open) = some reveal_at
retired_until (revealed key resend_at) = none

unfoldable pub next_slot_reveal_at : AbwSlotState → Option ℕ
next_slot_reveal_at s = retired_until (s.slots (next_slot s))

abbrev pub is_due : ℕ → Option ℕ → Bool
is_due now none = false
is_due now (some at) = leb at now

-- The slots that are due among so many from a first one on.
unfoldable pub due_from : (ℕ → Slot) → ℕ → (count slot : ℕ) → List ℕ
due_from slots now zero slot = []
due_from slots now (suc count) slot =
    let rest = due_from slots now count (slot + 1) in
    if is_due now (due_at (slots slot)) then slot ∷ rest else rest

abbrev pub push_reveal : Option PendingReveal → List PendingReveal → List PendingReveal
push_reveal none rs = rs
push_reveal (some r) rs = r ∷ rs

unfoldable pub reveal_all : AbwSlotState → List ℕ → List PendingReveal × AbwSlotState
reveal_all s [] = ([], s)
reveal_all s (slot ∷ due) =
    let one = reveal s slot in
    let rest = reveal_all (one.1) due in (push_reveal (one.0) (rest.0), rest.1)

unfoldable pub reveals_due : AbwSlotState → ℕ → List PendingReveal × AbwSlotState
reveals_due s now =
    if held s now then ([], s) else reveal_all s (due_from s.slots now assignment_slots 0)

unfoldable pub retire : Slot → ℕ → Slot
retire empty now = empty
retire (seeded key) now = retired key (now + reveal_after) true
retire (retired key reveal_at on_open) now = retired key reveal_at on_open
retire (revealed key resend_at) now = revealed key resend_at

unfoldable pub notice : (List ℕ → List ℕ) → AbwSlotState → ℕ → Bool → Option (List ℕ)
notice xor_key_hash s slot active = elim (secret_key (s.slots slot)) [
  | none ↦ none
  | some key ↦
      some (encode_notice (record { active = active; slot = slot; key_hash = xor_key_hash key }))
]

-- The state that a rotation leaves.
unfoldable pub rotated : AbwSlotState → ℕ → List ℕ → AbwSlotState
rotated s now key =
    let after = (reveal s (next_slot s)).1 in
    let old = record after {
      slots = update after.slots s.active (retire (after.slots s.active) now);
    } in
    record (seed old (next_slot s) key) {
      shares_since_activation = 0;
      activated_at = now;
      tip_rotation_pending = false;
    }

unfoldable pub rotate : (List ℕ → List ℕ) → AbwSlotState → ℕ → List ℕ → Rotation × AbwSlotState
rotate xor_key_hash s now key = (
  record {
    reveals = push_reveal ((reveal s (next_slot s)).0) [];
    notice = notice xor_key_hash (rotated s now key) (next_slot s) true;
  },
  rotated s now key,
)

unfoldable pub note_share : AbwSlotState → AbwSlotState
note_share s = record s {
  shares_since_activation = min (s.shares_since_activation + 1) (2 ^ 64 - 1);
}

abbrev pub is_some {ℓ} : {A : Type ℓ} → Option A → Bool
is_some none = false
is_some (some a) = true

unfoldable pub rotation_due : AbwSlotState → ℕ → Option String
rotation_due s now =
    if held s now || is_some (next_slot_reveal_at s)
    then none
    else if active_published s
    then some "a relayed block published its key"
    else if s.tip_rotation_pending
    then some "new tip"
    else if leb rotate_after_shares s.shares_since_activation
    then some "share count"
    else if leb rotate_after (now - s.activated_at)
    then some "slot age"
    else none

unfoldable pub note_tip : AbwSlotState → ℕ → Bool × AbwSlotState
note_tip s now =
    let old_enough = leb (reveal_after / max_tip_rotations_per_reveal) (now - s.activated_at) in
    (old_enough, record s { tip_rotation_pending = s.tip_rotation_pending || old_enough })
