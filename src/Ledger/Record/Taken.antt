-- ===== src/Ledger/Record/Taken.antt =====
-- What the ledger's window stands for after shares are taken, a batch recorded, or the window set.
use ratum.Base.{
  ℕ, ◌+◌, ◌<◌, ◌≤◌, ◌^◌, length-drop, some_inj, subst, elim_some, ◌≡◌, ◌⊎◌, refl, ap, arith, List,
  [], ◌∷◌, ◌++◌, Option, none, some, max, inl, inr, ◌-◌, sym, ◌&&◌, ◌||◌, ltb, ◌≢◌, length,
}
use mathlib.Core.List.{append-nil}
use ratum.Ledger.Split.{Entry}
use ratum.Ledger.Window.{Share, Contents, entry_at}
use ratum.Ledger.Window.Sound.{IsSound, Refines}
use ratum.Ledger.Window.Push.{push-Refines}
use ratum.Ledger.Window.Trim.{newest, latest, trim-Refines, Refines-length}
use ratum.Ledger.Record.{
  read_rows, read, empty_contents, StoreApi, Ledger, batch_work, is_count_capped, with_contents,
  trim_ledger, take_shares, set_window, insert_into, retain_batch, record_batch, is_some,
  newest_time, accepted_hash_retention_secs, retained, max_accepted_hashes,
}

-- What a trim leaves of a list of names and work, and what taking shares makes of it.
abbrev pub trimmed : ℕ → ℕ → List Entry → List Entry
trimmed window max_shares w = latest max_shares (newest window w)

abbrev pub taken : ℕ → ℕ → List Entry → List Share → List Entry
taken window max_shares w [] = w
taken window max_shares w (s ∷ ss) =
    taken window max_shares (trimmed window max_shares (w ++ ((s.identity, s.difficulty) ∷ []))) ss

-- What a trim leaves is no longer than the count bound, below 2^32 - 1.
pub trimmed-length :
    (window max_shares : ℕ) (w : List Entry) → length (trimmed window max_shares w) ≤ max_shares
trimmed-length window max_shares w =
    omega (arith, length-drop (length (newest window w) - max_shares) (newest window w))

pub taken-length :
    (window max_shares : ℕ) (w : List Entry) (ss : List Share)
    → length w ≤ max_shares
    → length (taken window max_shares w ss) ≤ max_shares
taken-length window max_shares w [] h = h
taken-length window max_shares w (s ∷ ss) h =
    let pushed = w ++ ((s.identity, s.difficulty) ∷ []) in
    taken-length window max_shares (trimmed window max_shares pushed) ss
      (trimmed-length window max_shares pushed)

few_shares :
    (max_shares : ℕ) (c : Contents) (w : List Entry)
    → Refines c w
    → length w ≤ max_shares
    → 1 + max_shares < 2 ^ 32
    → 1 + length c.shares < 2 ^ 32
few_shares max_shares c w h few narrow = omega (arith, Refines-length c w h, few, narrow)

empty_contents-IsSound : IsSound empty_contents
unfolding entry_at
empty_contents-IsSound = record {
  named = record {
    held = λ n i h. absurd (ground (arith, h));
    found = λ i e h. absurd (ground (arith, h));
  };
  free = tt;
  tallied = λ i. refl;
  total = refl;
  used = refl;
}

pub empty_contents-Refines : Refines empty_contents []
empty_contents-Refines = record { sound = empty_contents-IsSound; shows = tt }

read_rows-Refines :
    (window max_shares : ℕ) (c : Contents) (w : List Entry) (rows : List Share)
    → Refines c w
    → length w ≤ max_shares
    → 1 + max_shares < 2 ^ 32
    → (c' : Contents) × (read_rows window max_shares c rows ≡ some c')
      × Refines c' (taken window max_shares w rows)
unfolding read_rows
read_rows-Refines window max_shares c w [] h few narrow = (c, refl, h)
read_rows-Refines window max_shares c w (s ∷ rows) h few narrow =
    let (c₁, pushed, h₁) = push-Refines c w h s (few_shares max_shares c w h few narrow) in
    let w₁ = w ++ ((s.identity, s.difficulty) ∷ []) in
    let (c₂, cut, h₂) = trim-Refines c₁ w₁ window max_shares h₁ in
    let (c₃, all, h₃) =
      read_rows-Refines window max_shares c₂ (trimmed window max_shares w₁) rows h₂
        (trimmed-length window max_shares w₁) narrow in
    (c₃, ground (arith, pushed, cut, all), h₃)

-- Whatever rows the store gives, reading them under a count bound below 2^32 - 1 never panics, and the
-- contents read stand for the list that taking their shares one by one makes of the empty list.
pub read-Refines :
    (window max_shares : ℕ) (rows : List Share)
    → 1 + max_shares < 2 ^ 32
    → (c : Contents) × (read window max_shares rows ≡ some c)
      × Refines c (taken window max_shares [] rows)
unfolding read
read-Refines window max_shares rows narrow =
    read_rows-Refines window max_shares empty_contents [] rows empty_contents-Refines (omega arith)
      narrow

module _ {Store : Type 0} where
  -- The ledger's window stands for a list within the count bound, below 2^32 - 1, and
  -- `count_capped` says whether the count bound ends it.
  pub record Holds (l : Ledger Store) (w : List Entry) : Type 0 where
    pub refines : Refines l.contents w
    pub capped : l.count_capped ≡ is_count_capped l
    pub few : length w ≤ l.max_shares
    pub narrow : 1 + l.max_shares < 2 ^ 32

  pub with_contents-Holds :
      (l : Ledger Store) (c : Contents) (w : List Entry)
      → Refines c w
      → length w ≤ l.max_shares
      → 1 + l.max_shares < 2 ^ 32
      → Holds (with_contents l c) w
  unfolding is_count_capped
  with_contents-Holds l c w h few narrow = record {
    refines = h;
    capped = refl;
    few = few;
    narrow = narrow;
  }

  pub trim_ledger-Refines :
      (l : Ledger Store) (w : List Entry)
      → Refines l.contents w
      → (c : Contents) × (trim_ledger l ≡ some (with_contents l c))
        × Refines c (trimmed l.window l.max_shares w)
  unfolding trim_ledger
  trim_ledger-Refines l w h =
      let (c, done, h') = trim-Refines l.contents w l.window l.max_shares h in
      (c, ground (arith, done), h')

  pub take_shares-Refines :
      (l : Ledger Store) (w : List Entry) (ss : List Share)
      → Holds l w
      → (c : Contents) × (take_shares l ss ≡ some (with_contents l c))
        × Refines c (taken l.window l.max_shares w ss)
  unfolding take_shares is_count_capped
  take_shares-Refines l w [] h =
      (l.contents, ap some (λ i. record l { count_capped = h.capped i }), h.refines)
  take_shares-Refines l w (s ∷ ss) h =
      let (c, pushed, h₁) =
        push-Refines l.contents w h.refines s
          (few_shares l.max_shares l.contents w h.refines h.few h.narrow) in
      let (c₁, done, h₂) =
        trim_ledger-Refines (record l { contents = c }) (w ++ ((s.identity, s.difficulty) ∷ []))
          h₁ in
      let (c₂, all, h₃) =
        take_shares-Refines (with_contents l c₁)
          (trimmed l.window l.max_shares (w ++ ((s.identity, s.difficulty) ∷ []))) ss
          (with_contents-Holds l c₁
            (trimmed l.window l.max_shares (w ++ ((s.identity, s.difficulty) ∷ []))) h₂
            (trimmed-length l.window l.max_shares (w ++ ((s.identity, s.difficulty) ∷ [])))
            h.narrow) in
      (c₂, ground (arith, pushed, done, all), h₃)

  -- Setting the window to a number of work never panics: the ledger then holds the list trimmed to
  -- that work, 1 at the least, and keeps its count bound and the shares that a running re-read
  -- keeps.
  pub set_window-Holds :
      (l : Ledger Store) (w : List Entry) (window : ℕ)
      → Holds l w
      → (l' : Ledger Store) × (set_window l window ≡ some (l'.reread_due, l'))
        × Holds l' (trimmed (max window 1) l.max_shares w)
        × (l'.window ≡ max window 1)
        × (l'.max_shares ≡ l.max_shares)
        × (l'.recorded_during_reread ≡ l.recorded_during_reread)
  unfolding set_window
  set_window-Holds l w window h =
      let due = l.reread_due || (ltb l.window (max window 1) && is_some l.store) in
      let resized : Ledger Store = record l { reread_due = due; window = max window 1 } in
      let (c, done, h') = trim_ledger-Refines resized w h.refines in
      (
        with_contents resized c,
        ground (arith, done),
        with_contents-Holds resized c (trimmed (max window 1) l.max_shares w) h'
            (trimmed-length (max window 1) l.max_shares w) h.narrow,
        refl,
        refl,
        refl,
      )

-- The shares that a running re-read keeps, once a batch is recorded.
abbrev pub extended : Option (List Share) → List Share → Option (List Share)
extended none ss = none
extended (some r) ss = some (r ++ ss)

extended_nil : (r : Option (List Share)) → r ≡ extended r []
extended_nil none = refl
extended_nil (some r) = ap some (sym (append-nil r))

module _ {Store Snapshot : Type 0} (api : StoreApi Store Snapshot) where
  -- What becomes of a store after a batch is in it: it stays, or the retention that keeps so many
  -- shares, and the hashes since a time, succeeds on it.
  abbrev pub IsRetained : (floor keep_after : ℕ) → Option Store → Option Store → Type 0
  IsRetained floor keep_after none o = o ≡ none
  IsRetained floor keep_after (some st) o =
      (o ≡ some st)
      ⊎ ((n : ℕ) × (st' : Store) × (api.retain st floor keep_after max_accepted_hashes
            ≡ some (n, st'))
          × (o ≡ some st'))

  -- The store refuses a batch, and what it is once it took one.
  abbrev pub Refuses : Option Store → List Share → ℕ → Type 0
  Refuses none ss work = ⊥
  Refuses (some st) ss work = api.insert_batch st ss work ≡ none

  abbrev pub Takes : Option Store → List Share → ℕ → (floor keep_after : ℕ) → Option Store → Type 0
  Takes none ss work floor keep_after o = o ≡ none
  Takes (some st) ss work floor keep_after o =
      (st' : Store) × (api.insert_batch st ss work ≡ some st')
      × IsRetained floor keep_after (some st') o

  -- An empty batch is not given to the store.
  abbrev pub Stores : Option Store → List Share → ℕ → (floor keep_after : ℕ) → Option Store → Type 0
  Stores before [] work floor keep_after o = o ≡ before
  Stores before (s ∷ ss) work floor keep_after o = Takes before (s ∷ ss) work floor keep_after o

  IsRetained-same : (floor k : ℕ) (st : Option Store) → IsRetained floor k st st
  IsRetained-same floor k none = refl
  IsRetained-same floor k (some st) = inl refl

  insert_into-Refuses :
      (o : Option Store) (ss : List Share) (work : ℕ)
      → insert_into api o ss work ≡ none
      → Refuses o ss work
  unfolding insert_into
  insert_into-Refuses none ss work e = absurd (ground (arith, e))
  insert_into-Refuses (some st) ss work e = refused (api.insert_batch st ss work) e
    where
      refused :
          (r : Option Store) → elim r [ none ↦ none | some x ↦ some (some x) ] ≡ none → r ≡ none
      refused none h = refl
      refused (some x) h = absurd (ground (arith, h))

  insert_into-Takes :
      (o st o' : Option Store) (ss : List Share) (work floor k : ℕ)
      → insert_into api o ss work ≡ some st
      → IsRetained floor k st o'
      → Takes o ss work floor k o'
  unfolding insert_into
  insert_into-Takes none st o' ss work floor k e r =
      subst (λ (x : Option Store). IsRetained floor k x o') (sym (some_inj e)) r
  insert_into-Takes (some x) st o' ss work floor k e r =
      let (st', i, done) = elim_some (api.insert_batch x ss work) (λ y. some (some y)) e in
      (st', i, subst (λ (x : Option Store). IsRetained floor k x o') (sym (some_inj done)) r)

  -- What a recorded batch leaves.
  pub record IsRecorded (l l' : Ledger Store) (w : List Entry) (ss : List Share) : Type 0 where
    pub holds : Holds l' (taken l.window l.max_shares w ss)
    pub work : l'.cumulative_work ≡ batch_work l.cumulative_work ss
    pub stored :
        Stores l.store ss
          (batch_work l.cumulative_work ss)
          (length l'.contents.shares)
          (newest_time 0 ss - accepted_hash_retention_secs)
          l'.store
    pub recorded : l'.recorded_during_reread ≡ extended l.recorded_during_reread ss
    pub window : l'.window ≡ l.window
    pub max_shares : l'.max_shares ≡ l.max_shares

  module _ (l : Ledger Store) (w : List Entry) (ss : List Share) (c : Contents) (work : ℕ)
      (h : Refines c (taken l.window l.max_shares w ss))
      (hw : work ≡ batch_work l.cumulative_work ss)
      (few : length (taken l.window l.max_shares w ss) ≤ l.max_shares)
      (narrow : 1 + l.max_shares < 2 ^ 32) where
    -- What the batch's store may become.
    abbrev StoredAs : Option Store → Type 0
    StoredAs o =
        Stores l.store ss (batch_work l.cumulative_work ss) (length c.shares)
          (newest_time 0 ss - accepted_hash_retention_secs) o

    -- The ledger once the batch is in its window.
    filled : Option Store → Option (List Share) → Ledger Store
    filled st r =
        with_contents (record l { store = st; cumulative_work = work; recorded_during_reread = r })
          c

    filled-IsRecorded :
        (st : Option Store) (r r' : Option (List Share))
        → r' ≡ extended l.recorded_during_reread ss
        → StoredAs st
        → IsRecorded l (record (filled st r) { recorded_during_reread = r' }) w ss
    unfolding filled is_count_capped
    filled-IsRecorded st r r' e stored = record {
      holds = record { refines = h; capped = refl; few = few; narrow = narrow };
      work = hw;
      stored = stored;
      recorded = e;
      window = refl;
      max_shares = refl;
    }

    retain_batch-IsRecorded :
        (st : Option Store) (k : ℕ) (r : Option (List Share))
        → r ≡ l.recorded_during_reread
        → ((o : Option Store) → IsRetained (length c.shares) k st o → StoredAs o)
        → IsRecorded l ((retain_batch api (filled st r) ss k).1) w ss
    unfolding retain_batch retained filled is_count_capped
    retain_batch-IsRecorded st k (some r) e kept =
        filled-IsRecorded st (some r) (some (r ++ ss)) (ap (λ o. extended o ss) e)
          (kept st (IsRetained-same (length c.shares) k st))
    retain_batch-IsRecorded none k none e kept =
        filled-IsRecorded none none none (ap (λ o. extended o ss) e) (kept none refl)
    retain_batch-IsRecorded (some st) k none e kept =
        after (api.retain st (length c.shares) k max_accepted_hashes) refl
      where
        after :
            (o : Option (ℕ × Store))
            → api.retain st (length c.shares) k max_accepted_hashes ≡ o
            → IsRecorded l ((retained api (filled (some st) none) o).1) w ss
        after none q =
            filled-IsRecorded (some st) none none (ap (λ o. extended o ss) e)
              (kept (some st) (inl refl))
        after (some (n, st')) q =
            filled-IsRecorded (some st') none none (ap (λ o. extended o ss) e)
              (kept (some st') (inr (n, st', q, refl)))

  -- A batch is recorded whole or not at all, without a panic, in a ledger that holds a list
  -- within its count bound, below 2^32 - 1. Either the store refuses the batch, the answer is an
  -- error and the ledger is as it was; or the store, where there is one and the batch is not
  -- empty, took the batch with the work up to it, and is left so or as a retention leaves it,
  -- the window holds the list with each share taken in turn, the cumulative work grows by the
  -- batch's, and a running re-read keeps the batch behind the shares it has.
  pub record_batch-IsRecorded :
      (l : Ledger Store) (w : List Entry) (ss : List Share)
      → Holds l w
      → (answer : Option ℕ) × (l' : Ledger Store) × (record_batch api l ss ≡ some (answer, l'))
        × (((answer ≡ none) × (l' ≡ l) × Refuses l.store ss (batch_work l.cumulative_work ss))
            ⊎ ((answer ≢ none) × IsRecorded l l' w ss))
  unfolding record_batch is_count_capped filled
  record_batch-IsRecorded l w [] h = (
    some 0,
    l,
    refl,
    inr (
      λ e. ground (arith, e),
      record {
        holds = h;
        work = refl;
        stored = refl;
        recorded = extended_nil l.recorded_during_reread;
        window = refl;
        max_shares = refl;
      },
    ),
  )
  record_batch-IsRecorded l w (s ∷ ss) h =
      by_case (insert_into api l.store (s ∷ ss) (batch_work l.cumulative_work (s ∷ ss))) refl
    where
      by_case :
          (o : Option (Option Store))
          → insert_into api l.store (s ∷ ss) (batch_work l.cumulative_work (s ∷ ss)) ≡ o
          → (answer : Option ℕ) × (l' : Ledger Store) × (record_batch api l (s ∷ ss)
              ≡ some (answer, l'))
            × (((answer ≡ none)
                  × (l' ≡ l)
                  × Refuses l.store (s ∷ ss) (batch_work l.cumulative_work (s ∷ ss)))
                ⊎ ((answer ≢ none) × IsRecorded l l' w (s ∷ ss)))
      by_case none e =
          (none, l, ground (arith, e), inl (refl, refl, insert_into-Refuses l.store (s ∷ ss) _ e))
      by_case (some st) e =
          let work = batch_work l.cumulative_work (s ∷ ss) in
          let stored : Ledger Store = record l { store = st; cumulative_work = work } in
          let (c, done, h') =
            take_shares-Refines stored w (s ∷ ss)
              (record { refines = h.refines; capped = h.capped; few = h.few; narrow = h.narrow }) in
          let kept =
            retain_batch api (with_contents stored c) (s ∷ ss)
              (newest_time 0 (s ∷ ss) - accepted_hash_retention_secs) in
          (
            some (kept.0),
            kept.1,
            ground (arith, e, done),
            inr (
              λ e. ground (arith, e),
              retain_batch-IsRecorded l w (s ∷ ss) c work h' refl
                  (taken-length l.window l.max_shares w (s ∷ ss) h.few) h.narrow st
                  (newest_time 0 (s ∷ ss) - accepted_hash_retention_secs) l.recorded_during_reread
                  refl (λ o r. insert_into-Takes l.store st o (s ∷ ss) work _ _ e r),
            ),
          )
