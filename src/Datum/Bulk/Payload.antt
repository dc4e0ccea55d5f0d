-- ===== src/Datum/Bulk/Payload.antt =====
-- A payload cut into fragments comes out of the reassembler whole.
use mathlib.Core.List.{append_assoc, append-nil}
use native.Mathlib.Nat.{mod-eq_of_lt}
use ratum.Base.{
  ℕ, ◌+◌, ◌^◌, ◌<◌, ◌≤◌, ◌≡◌, ◌≢◌, refl, sym, ap, ◌∙◌, arith, List, [], ◌∷◌, ◌++◌, Option, none,
  some, length, length-append, All, Result, ok,
}
use ratum.Datum.Bulk.{
  Error, Fragment, Ack, Transfer, Reassembler, idle, accept, store, received, in_progress,
  max_transfer_size,
}

abbrev pub whole_of : List (List ℕ) → List ℕ
whole_of [] = []
whole_of (c ∷ cs) = c ++ whole_of cs

-- The fragments of a transfer: each chunk at the offset the ones before it end at.
abbrev pub fragments : (id total offset : ℕ) → List (List ℕ) → List Fragment
fragments i total offset [] = []
fragments i total offset (c ∷ cs) =
    record { id = i; total_size = total; offset = offset; data_bytes = c }
    ∷ fragments i total (offset + length c) cs

-- What the sender is answered: an acknowledgement of every chunk, the payload with the last.
abbrev pub answers :
    (id offset : ℕ) → List ℕ → List (List ℕ) → List (Result Error (Ack × Option (List ℕ)))
answers i offset payload [] = []
answers i offset payload (c ∷ []) =
    ok (record { id = i; next_offset = offset + length c }, some payload) ∷ []
answers i offset payload (c ∷ d ∷ cs) =
    ok (record { id = i; next_offset = offset + length c }, none)
    ∷ answers i (offset + length c) payload (d ∷ cs)

-- `accept` over a run of fragments.
abbrev pub accept_all :
    Reassembler → List Fragment → List (Result Error (Ack × Option (List ℕ))) × Reassembler
accept_all s [] = ([], s)
accept_all s (f ∷ fs) =
    let (answer, s1) = accept s f in let (rest, s2) = accept_all s1 fs in (answer ∷ rest, s2)

abbrev pub IsNonempty : List ℕ → Type 0
IsNonempty c = 0 < length c

abbrev transfer_at : (id total : ℕ) → List ℕ → Transfer
transfer_at i total b = record { id = i; total_size = total; buf = b }

-- The reassembler stands where a fragment at the end of `b` continues the transfer.
abbrev Continues : (id total : ℕ) → List ℕ → Reassembler → Type 0
Continues i total b s =
    (f : Fragment)
    → f.id ≡ i
    → f.total_size ≡ total
    → f.offset ≡ length b
    → (received s.transfer f ≡ ok (length b)) × (in_progress s.transfer f ≡ transfer_at i total b)

-- The fragment of `c`, at the end of `b`.
abbrev chunk : (id total : ℕ) → List ℕ → List ℕ → Fragment
chunk i total b c = record { id = i; total_size = total; offset = length b; data_bytes = c }

accept_next :
    (i total : ℕ) (b c : List ℕ) (s : Reassembler)
    → Continues i total b s
    → i ≢ 0
    → 0 < total
    → total ≤ max_transfer_size
    → length b + length c ≤ total
    → accept s (chunk i total b c) ≡ store (transfer_at i total b) (chunk i total b c)
unfolding accept
accept_next i total b c s h hi ht hm hl =
    rw (h (chunk i total b c) refl refl refl).0
      (ground (arith, hi, (h (chunk i total b c) refl refl refl).1))

store_part :
    (i total : ℕ) (b : List ℕ) (f : Fragment)
    → length b + length f.data_bytes < total
    → total ≤ max_transfer_size
    → store (transfer_at i total b) f ≡ (
      ok (record { id = i; next_offset = length b + length f.data_bytes }, none),
      record { transfer = some (transfer_at i total (b ++ f.data_bytes)) },
    )
unfolding store
store_part i total b f h hm =
    rw
      (
        length-append b f.data_bytes,
        mod-eq_of_lt {n = length b + length f.data_bytes} {m = 2 ^ 32} (omega arith),
      )
      (ground arith)

store_last :
    (i total : ℕ) (b : List ℕ) (f : Fragment)
    → length b + length f.data_bytes ≡ total
    → total ≤ max_transfer_size
    → store (transfer_at i total b) f ≡ (
      ok (
        record { id = i; next_offset = length b + length f.data_bytes },
        some (b ++ f.data_bytes),
      ),
      idle,
    )
unfolding store
store_last i total b f h hm =
    rw
      (
        length-append b f.data_bytes,
        mod-eq_of_lt {n = length b + length f.data_bytes} {m = 2 ^ 32} (omega arith),
      )
      (ground arith)

Continues-some :
    (i total : ℕ) (b : List ℕ)
    → length b < 2 ^ 32
    → Continues i total b (record { transfer = some (transfer_at i total b) })
unfolding received in_progress
Continues-some i total b hb f hi ht ho = (ground (arith, hi, ht, ho), refl)

Continues-none : (i total : ℕ) → Continues i total [] idle
unfolding received in_progress
Continues-none i total f hi ht ho =
    (ground (arith, ho), λ k. record { id = hi k; total_size = ht k; buf = [] })

accept_all_from :
    (i total : ℕ) (b : List ℕ) (c : List ℕ) (cs : List (List ℕ)) (s : Reassembler)
    → Continues i total b s
    → i ≢ 0
    → total ≤ max_transfer_size
    → All IsNonempty (c ∷ cs)
    → length (b ++ whole_of (c ∷ cs)) ≡ total
    → accept_all s (fragments i total (length b) (c ∷ cs))
      ≡ (answers i (length b) (b ++ whole_of (c ∷ cs)) (c ∷ cs), idle)
accept_all_from i total b c [] s h hi hm hn hl =
    rw
      (
        accept_next i total b c s h hi (omega (arith, long, hn.0)) hm (omega (arith, long)),
        store_last i total b (chunk i total b c) (omega (arith, long)) hm,
        append-nil c,
      )
      refl
  where
    long : length b + length c ≡ total
    long = sym (length-append b c) ∙ ap (λ t. length (b ++ t)) (sym (append-nil c)) ∙ hl
accept_all_from i total b c (d ∷ ds) s h hi hm hn hl =
    rw
      (
        accept_next i total b c s h hi (omega (arith, long, hn.0)) hm (omega (arith, long)),
        store_part i total b (chunk i total b c) (omega (arith, long, hn.1.0)) hm,
      )
      (ap
        (λ (x : List (Result Error (Ack × Option (List ℕ))) × Reassembler).
          (ok (record { id = i; next_offset = length b + length c }, none) ∷ x.0, x.1))
        (rw (sym (length-append b c), sym (append_assoc b c (d ++ whole_of ds)))
          (accept_all_from i total (b ++ c) d ds
            (record { transfer = some (transfer_at i total (b ++ c)) })
            (Continues-some i total (b ++ c) (omega (arith, long, length-append b c))) hi hm hn.1
            (ap length (append_assoc b c (d ++ whole_of ds)) ∙ hl))))
  where
    long : length b + (length c + (length d + length (whole_of ds))) ≡ total
    long = omega (
      arith,
      hl,
      length-append b (c ++ (d ++ whole_of ds)),
      length-append c (d ++ whole_of ds),
      length-append d (whole_of ds),
    )

-- A payload of at most 2^22 bytes, cut into nonempty chunks and sent as fragments at increasing
-- offsets under a nonzero id to an idle reassembler, is acknowledged fragment by fragment and
-- given back whole with the last, and the reassembler is idle again.
pub accept_all-fragments :
    (i : ℕ) (c : List ℕ) (cs : List (List ℕ))
    → i ≢ 0
    → length (whole_of (c ∷ cs)) ≤ max_transfer_size
    → All IsNonempty (c ∷ cs)
    → accept_all idle (fragments i (length (whole_of (c ∷ cs))) 0 (c ∷ cs))
      ≡ (answers i 0 (whole_of (c ∷ cs)) (c ∷ cs), idle)
accept_all-fragments i c cs hi hm hn =
    accept_all_from i (length (whole_of (c ∷ cs))) [] c cs idle
      (Continues-none i (length (whole_of (c ∷ cs)))) hi hm hn refl
