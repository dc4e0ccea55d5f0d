-- ===== src/Datum/Bulk/Invariant.antt =====
-- What every call of `accept` leaves behind.
use ratum.Base.{
  ℕ, List, some, ok, ◌+◌, ◌%◌, ◌^◌, ◌<◌, ◌≤◌, ◌≡◌, ◌≢◌, arith, [], ◌++◌, Option, none, some, false,
  ◌==◌, length, length-append, err, Bool-cases, inl, inr,
}
use ratum.Datum.Bulk.{
  Ack, idle, Error, Fragment, Transfer, Reassembler, accept, store, received, in_progress, refused,
  max_transfer_size,
}

-- A transfer in progress has a nonzero id, a size within the limit, and bytes still to come.
abbrev pub IsReceiving : Reassembler → Type 0
IsReceiving s = elim s.transfer [
  | none ↦ Unit
  | some t ↦ (t.id ≢ 0) × (length t.buf < t.total_size) × (t.total_size ≤ max_transfer_size)
]

store-IsReceiving :
    (t : Transfer) (f : Fragment)
    → t.id ≢ 0
    → t.total_size ≤ max_transfer_size
    → length t.buf + length f.data_bytes ≤ t.total_size
    → IsReceiving ((store t f).1)
unfolding store
store-IsReceiving t f hi hm hl =
    elim (Bool-cases (length (t.buf ++ f.data_bytes) % 2 ^ 32 == t.total_size)) [
      | inl whole ↦ rw whole tt
      | inr part ↦ rw part (hi, omega (arith, length-append t.buf f.data_bytes, not_whole part), hm)
    ]
  where
    not_whole :
        (length (t.buf ++ f.data_bytes) % 2 ^ 32 == t.total_size) ≡ false
        → length (t.buf ++ f.data_bytes) % 2 ^ 32 ≢ t.total_size
    not_whole h e = ground arith

accept_at :
    (o : Option Transfer) (f : Fragment)
    → IsReceiving (record { transfer = o })
    → IsReceiving ((accept (record { transfer = o }) f).1)
unfolding accept received in_progress refused
accept_at none f h =
    ground (arith, store-IsReceiving (record { id = f.id; total_size = f.total_size; buf = [] }) f)
accept_at (some t) f h = ground (arith, h.0, h.1, store-IsReceiving t f h.0)

-- Every call of `accept`, on any fragment and whether it is refused or not, keeps the state of a
-- transfer: in progress it has a nonzero id, a size of at most 2^22 and bytes still to come.
pub accept-IsReceiving :
    (s : Reassembler) (f : Fragment) → IsReceiving s → IsReceiving ((accept s f).1)
accept-IsReceiving s f h = accept_at s.transfer f h

-- A refused fragment changes nothing: whatever the error, the reassembler is the one before.
pub accept_err :
    (s : Reassembler) (f : Fragment) {e : Error} → (accept s f).0 ≡ err e → (accept s f).1 ≡ s
unfolding accept received in_progress store refused
accept_err s f h = ground arith

store_payload :
    (t : Transfer) (f : Fragment) (a : Ack) (p : List ℕ)
    → length t.buf + length f.data_bytes ≤ t.total_size
    → t.total_size ≤ max_transfer_size
    → (store t f).0 ≡ ok (a, some p)
    → (length p ≡ t.total_size) × ((store t f).1 ≡ idle)
unfolding store
store_payload t f a p hl hm h = ground (arith, length-append t.buf f.data_bytes, h)

payload_at :
    (o : Option Transfer) (f : Fragment) (a : Ack) (p : List ℕ)
    → (accept (record { transfer = o }) f).0 ≡ ok (a, some p)
    → (length p ≡ f.total_size) × ((accept (record { transfer = o }) f).1 ≡ idle)
unfolding accept received in_progress refused
payload_at none f a p h =
    ground
      (arith, h, store_payload (record { id = f.id; total_size = f.total_size; buf = [] }) f a p)
payload_at (some t) f a p h = ground (arith, h, store_payload t f a p)

-- A payload that `accept` gives back has the size that its transfer declared, and the reassembler
-- is idle after it.
pub accept_payload :
    (s : Reassembler) (f : Fragment) (a : Ack) (p : List ℕ)
    → (accept s f).0 ≡ ok (a, some p)
    → (length p ≡ f.total_size) × ((accept s f).1 ≡ idle)
accept_payload s f a p h = payload_at s.transfer f a p h
