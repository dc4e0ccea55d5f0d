-- ===== src/Ledger/Record/Attach.antt =====
-- A ledger starts on the window that its store gives.
use ratum.Base.{ℕ, ◌+◌, ◌<◌, ◌^◌, ◌≡◌, refl, arith, List, [], Option, none, some, ◌⊎◌, inl, inr}
use ratum.Ledger.Split.{SplitPolicy}
use ratum.Ledger.Window.{Share}
use ratum.Ledger.Record.{
  StoreApi, Ledger, with_contents, is_count_capped, load_rows, load, attach, new_ledger,
}
use ratum.Ledger.Record.Taken.{
  empty_contents-Refines, Holds, trimmed, taken, read-Refines, trim_ledger-Refines,
  with_contents-Holds, trimmed-length,
}

-- A new ledger holds the empty list.
pub new_ledger-Holds :
    {Store : Type 0} (policy : SplitPolicy) (window : ℕ)
    → Holds {Store = Store} (new_ledger policy window) []
unfolding new_ledger is_count_capped
new_ledger-Holds policy window = record {
  refines = empty_contents-Refines;
  capped = refl;
  few = omega arith;
  narrow = omega arith;
}

module _ {Store Snapshot : Type 0} (api : StoreApi Store Snapshot) (l : Ledger Store)
    (narrow : 1 + l.max_shares < 2 ^ 32) where
  load_rows-none : load_rows api l none ≡ some none
  unfolding load_rows
  load_rows-none = refl

  load_rows-some :
      (rows : List Share)
      → (l' : Ledger Store) × (load_rows api l (some rows) ≡ some (some l'))
        × Holds l' (trimmed l.window l.max_shares (taken l.window l.max_shares [] rows))
  unfolding load_rows
  load_rows-some rows =
      let (c, done, h) = read-Refines l.window l.max_shares rows narrow in
      let (c₁, cut, h₁) =
        trim_ledger-Refines (record l { contents = c }) (taken l.window l.max_shares [] rows) h in
      (
        with_contents l c₁,
        ground (arith, done, cut),
        with_contents-Holds l c₁
            (trimmed l.window l.max_shares (taken l.window l.max_shares [] rows)) h₁
            (trimmed-length l.window l.max_shares (taken l.window l.max_shares [] rows)) narrow,
      )

  -- A store is attached without a panic, under a count bound below 2^32 - 1: either its rows cannot be read, or the ledger holds the
  -- list that taking them makes, with the work that the store carries.
  pub attach-Holds :
      (st : Store)
      → (attach api l st ≡ some none)
        ⊎ ((rows : List Share) × (l' : Ledger Store) × (attach api l st ≡ some (some l'))
            × Holds l' (trimmed l.window l.max_shares (taken l.window l.max_shares [] rows))
            × (l'.cumulative_work ≡ api.stored_work st))
  unfolding attach load is_count_capped
  attach-Holds st = by_snapshot (api.begin_read st) refl
    where
      Outcome : Type 0
      Outcome =
          (attach api l st ≡ some none)
          ⊎ ((rows : List Share) × (l' : Ledger Store) × (attach api l st ≡ some (some l'))
              × Holds l' (trimmed l.window l.max_shares (taken l.window l.max_shares [] rows))
              × (l'.cumulative_work ≡ api.stored_work st))

      by_rows :
          (snapshot : Snapshot) (rows : Option (List Share))
          → api.begin_read st ≡ some snapshot
          → api.window_rows snapshot l.window l.max_shares ≡ rows
          → Outcome
      by_rows snapshot none e r = inl (ground (arith, e, r, load_rows-none))
      by_rows snapshot (some rows) e r =
          let (l', done, h) = load_rows-some rows in
          inr (
            rows,
            record l' { cumulative_work = api.stored_work st; store = some st },
            ground (arith, e, r, done),
            record { refines = h.refines; capped = h.capped; few = h.few; narrow = h.narrow },
            refl,
          )

      by_snapshot : (o : Option Snapshot) → api.begin_read st ≡ o → Outcome
      by_snapshot none e = inl (ground (arith, e))
      by_snapshot (some snapshot) e =
          by_rows snapshot (api.window_rows snapshot l.window l.max_shares) e refl
