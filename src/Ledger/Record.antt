-- ===== src/Ledger/Record.antt =====
-- prime/src/ledger.rs, the ledger itself: the window with its size, the store that shares are
-- recorded to, and the re-read that widens the window while shares are recorded.
--
-- The store is an interface: what its transactions answer and leave is a parameter. `none` around a
-- result is a panic. The lock is a sequence of steps, one for each time it is taken. The window's
-- size is given as work; the difficulty it is computed from is a float and is not modelled.
pub mod Taken
pub mod Reread
pub mod Attach
use ratum.Base.{
  ℕ, ◌+◌, ◌-◌, ◌*◌, ◌^◌, max, List, [], ◌∷◌, ◌++◌, Option, none, some, Bool, true, false, ◌&&◌,
  ◌||◌, ltb, leb, if◌then◌else◌, length, not,
}
use ratum.Ledger.Split.{Name, SplitPolicy, miners_share, Entry}
use ratum.Ledger.Window.{Share, Contents, push, trim}
use ratum.Ledger.Window.Weights.{weights}

-- What the ledger uses of its store; `none` is an error, after which the store is as it was.
pub record StoreApi (Store Snapshot : Type 0) : Type 0 where
  pub insert_batch : Store → List Share → ℕ → Option Store
  pub retain : Store → ℕ → ℕ → ℕ → Option (ℕ × Store)
  pub begin_read : Store → Option Snapshot
  -- The rows of `read_window`, for a size of the window and a count.
  pub window_rows : Snapshot → ℕ → ℕ → Option (List Share)
  -- The work that the store's file carries.
  pub stored_work : Store → ℕ

-- `2 * NTIME_WINDOW_SECS + CLOCK_STEP_MARGIN_SECS`, two hours and ten minutes.
abbrev pub accepted_hash_retention_secs : ℕ
accepted_hash_retention_secs = 2 * (2 * 3600) + 10 * 60

abbrev pub max_accepted_hashes : ℕ
max_accepted_hashes = 2 ^ 20

abbrev pub max_window_shares : ℕ
max_window_shares = 2 ^ 22

pub record Ledger (Store : Type 0) : Type 0 where
  pub contents : Contents
  pub split_policy : SplitPolicy
  pub window : ℕ
  pub store : Option Store
  pub cumulative_work : ℕ
  pub max_shares : ℕ
  pub count_capped : Bool
  pub reread_due : Bool
  pub recorded_during_reread : Option (List Share)

-- `Contents::default`.
abbrev pub empty_contents : Contents
empty_contents = record {
  shares = [];
  identities = record { by_name = λ n. none; entries = []; free = [] };
  total_work = 0;
}

-- The newest acceptance time of a batch.
abbrev pub newest_time : ℕ → List Share → ℕ
newest_time t [] = t
newest_time t (s ∷ ss) = newest_time (max t s.accepted_at) ss

abbrev pub batch_work : ℕ → List Share → ℕ
batch_work work [] = work
batch_work work (s ∷ ss) = batch_work (work + s.difficulty) ss

abbrev pub is_some {ℓ} : {A : Type ℓ} → Option A → Bool
is_some none = false
is_some (some a) = true

-- `unwrap_or_default`.
abbrev pub recorded_shares : Option (List Share) → List Share
recorded_shares none = []
recorded_shares (some r) = r

-- `Contents::read`, on the rows that the store gives: each share is pushed and the window trimmed.
unfoldable pub read_rows : ℕ → ℕ → Contents → List Share → Option Contents
read_rows window max_shares c [] = some c
read_rows window max_shares c (s ∷ ss) = elim (push c s) [
  | none ↦ none
  | some c₁ ↦ elim (trim c₁ window max_shares) [
    | none ↦ none
    | some c₂ ↦ read_rows window max_shares c₂ ss
  ]
]

unfoldable pub read : ℕ → ℕ → List Share → Option Contents
read window max_shares rows = read_rows window max_shares empty_contents rows

module _ {Store : Type 0} where
  unfoldable pub is_count_capped : Ledger Store → Bool
  is_count_capped l =
      leb l.max_shares (length l.contents.shares) && ltb l.contents.total_work l.window

  -- `Ledger::trim`, after the contents are trimmed.
  abbrev pub with_contents : Ledger Store → Contents → Ledger Store
  with_contents l c = record l {
    contents = c;
    count_capped = is_count_capped (record l { contents = c });
  }

  unfoldable pub trim_ledger : Ledger Store → Option (Ledger Store)
  trim_ledger l = elim (trim l.contents l.window l.max_shares) [
    | none ↦ none
    | some c ↦ some (with_contents l c)
  ]

  -- The loops that push each share and trim after it.
  unfoldable pub take_shares : Ledger Store → List Share → Option (Ledger Store)
  take_shares l [] = some l
  take_shares l (s ∷ ss) = elim (push l.contents s) [
    | none ↦ none
    | some c ↦ elim (trim_ledger (record l { contents = c })) [
      | none ↦ none
      | some l' ↦ take_shares l' ss
    ]
  ]

  unfoldable pub set_window : Ledger Store → ℕ → Option (Bool × Ledger Store)
  set_window l window =
      let due = l.reread_due || (ltb l.window (max window 1) && is_some l.store) in
      elim (trim_ledger (record l { reread_due = due; window = max window 1 })) [
        | none ↦ none
        | some l' ↦ some (l'.reread_due, l')
      ]

  -- `weights_for`: the weights, and the value less the operator fee.
  unfoldable pub weights_for : Ledger Store → ℕ → List Entry × ℕ
  weights_for l value = (weights l.contents, miners_share l.split_policy value)

  -- `finish_reread` with what was read, or none on an error: the shares gained, the contents
  -- replaced, and the ledger.
  unfoldable pub finish_reread :
      Ledger Store → ℕ → Option Contents → Option (ℕ × Contents × Ledger Store)
  finish_reread l window none = some (0, empty_contents, record l { recorded_during_reread = none })
  finish_reread l window (some c) =
      elim (trim_ledger (record l {
        contents = c;
        reread_due = ltb window l.window;
        recorded_during_reread = none;
      })) [
        | none ↦ none
        | some l' ↦ elim (take_shares l' (recorded_shares l.recorded_during_reread)) [
          | none ↦ none
          | some l'' ↦ some (length l''.contents.shares - length l.contents.shares, l.contents, l'')
        ]
      ]

-- `Ledger::new`, for the size that the window has at a difficulty of 1.
unfoldable pub new_ledger : {Store : Type 0} → SplitPolicy → ℕ → Ledger Store
new_ledger policy window = record {
  contents = empty_contents;
  split_policy = policy;
  window = window;
  store = none;
  cumulative_work = 0;
  max_shares = max_window_shares;
  count_capped = false;
  reread_due = false;
  recorded_during_reread = none;
}

module _ {Store Snapshot : Type 0} (api : StoreApi Store Snapshot) where
  unfoldable pub begin_reread : Ledger Store → Option (Snapshot × ℕ × ℕ) × Ledger Store
  begin_reread l =
      if not l.reread_due || is_some l.recorded_during_reread then (none, l) else elim l.store [
        | none ↦ (none, l)
        | some st ↦ elim (api.begin_read st) [
          | none ↦ (none, l)
          | some snapshot ↦ (
            some (snapshot, l.window, l.max_shares),
            record l { recorded_during_reread = some [] },
          )
        ]
      ]

  -- `insert_batch` of a ledger that may have no store.
  unfoldable pub insert_into : Option Store → List Share → ℕ → Option (Option Store)
  insert_into none shares work = some none
  insert_into (some st) shares work = elim (api.insert_batch st shares work) [
    | none ↦ none
    | some st' ↦ some (some st')
  ]

  -- A failed retention leaves the shares recorded.
  unfoldable pub retained : Ledger Store → Option (ℕ × Store) → ℕ × Ledger Store
  retained l none = (0, l)
  retained l (some (n, st)) = (n, record l { store = some st })

  -- The end of `record_batch`: a running re-read keeps the shares, and retention waits for it.
  unfoldable pub retain_batch : Ledger Store → List Share → ℕ → ℕ × Ledger Store
  retain_batch l shares keep_after = elim l.recorded_during_reread [
    | some r ↦ (0, record l { recorded_during_reread = some (r ++ shares) })
    | none ↦ elim l.store [
      | none ↦ (0, l)
      | some st ↦
          retained l (api.retain st (length l.contents.shares) keep_after max_accepted_hashes)
    ]
  ]

  -- `record_batch`: the answer, `none` on an error, and the ledger.
  unfoldable pub record_batch : Ledger Store → List Share → Option (Option ℕ × Ledger Store)
  record_batch l [] = some (some 0, l)
  record_batch l (s ∷ ss) =
      let work = batch_work l.cumulative_work (s ∷ ss) in
      elim (insert_into l.store (s ∷ ss) work) [
        | none ↦ some (none, l)
        | some store ↦
            elim (take_shares (record l { store = store; cumulative_work = work }) (s ∷ ss)) [
              | none ↦ none
              | some l' ↦
                  let kept =
                    retain_batch l' (s ∷ ss)
                      (newest_time 0 (s ∷ ss) - accepted_hash_retention_secs) in
                  some (some (kept.0), kept.1)
            ]
      ]

  -- `load` and `load_from`, on the rows of a snapshot; `none` in the result is an error.
  unfoldable pub load_rows : Ledger Store → Option (List Share) → Option (Option (Ledger Store))
  load_rows l none = some none
  load_rows l (some rows) = elim (read l.window l.max_shares rows) [
    | none ↦ none
    | some c ↦ elim (trim_ledger (record l { contents = c })) [
      | none ↦ none
      | some l' ↦ some (some l')
    ]
  ]

  unfoldable pub load : Ledger Store → Store → Option (Option (Ledger Store))
  load l st = elim (api.begin_read st) [
    | none ↦ some none
    | some snapshot ↦ load_rows l (api.window_rows snapshot l.window l.max_shares)
  ]

  -- `attach`.
  unfoldable pub attach : Ledger Store → Store → Option (Option (Ledger Store))
  attach l st = elim (load l st) [
    | none ↦ none
    | some none ↦ some none
    | some (some l') ↦
        some (some (record l' { cumulative_work = api.stored_work st; store = some st }))
  ]
