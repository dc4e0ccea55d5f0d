-- ===== src/Ledger/Record/Reread.antt =====
-- A re-read that runs while the ledger is used: what is recorded between its two ends is kept.
use ratum.Base.{
  some_inj, ℕ, ◌≡◌, ◌≢◌, ◌⊎◌, refl, sym, ap, ◌∙◌, subst, arith, List, [], ◌++◌, Option, none, some,
  Bool, max, inl, inr, ltb, length, ◌-◌,
}
use mathlib.Core.List.{append-nil, append_assoc}
use ratum.Ledger.Split.{Entry}
use ratum.Ledger.Window.{Share, Contents}
use ratum.Ledger.Window.Sound.{Refines}
use ratum.Ledger.Record.{
  StoreApi, Ledger, is_count_capped, with_contents, trim_ledger, take_shares, set_window,
  record_batch, begin_reread, finish_reread,
}
use ratum.Ledger.Record.Taken.{
  Holds, trimmed, taken, extended, trim_ledger-Refines, take_shares-Refines, set_window-Holds,
  record_batch-IsRecorded, with_contents-Holds, trimmed-length, taken-length,
}

module _ {Store Snapshot : Type 0} (api : StoreApi Store Snapshot) where
  -- The ledger's lock is taken for a batch, which is recorded or refused by the store, or for a new
  -- size of the window; the list is what was recorded on the way.
  pub data Runs : Ledger Store → List Share → Ledger Store → Type 0 where
    stop : {l : Ledger Store} → Runs l [] l
    recorded :
        {l l' last : Ledger Store} {ss : List Share} (batch : List Share) (n : ℕ)
        → record_batch api l batch ≡ some (some n, l')
        → Runs l' ss last
        → Runs l (batch ++ ss) last
    refused :
        {l l' last : Ledger Store} {ss : List Share} (batch : List Share)
        → record_batch api l batch ≡ some (none, l')
        → Runs l' ss last
        → Runs l ss last
    resized :
        {l l' last : Ledger Store} {ss : List Share} (window : ℕ) (due : Bool)
        → set_window l window ≡ some (due, l')
        → Runs l' ss last
        → Runs l ss last

  -- The ledger holds some list, and a running re-read keeps these shares.
  record Keeps (l : Ledger Store) (r : List Share) (max_shares : ℕ) : Type 0 where
    pub list : List Entry
    pub holds : Holds l list
    pub kept : l.recorded_during_reread ≡ some r
    pub bound : l.max_shares ≡ max_shares

  record_batch-Keeps :
      (l l' : Ledger Store) (batch r : List Share) (answer : Option ℕ) (m : ℕ)
      → Keeps l r m
      → record_batch api l batch ≡ some (answer, l')
      → ((answer ≡ none) × Keeps l' r m) ⊎ ((answer ≢ none) × Keeps l' (r ++ batch) m)
  record_batch-Keeps l l' batch r answer m k e =
      let (answer₁, l₁, done, outcome) = record_batch-IsRecorded api l k.list batch k.holds in
      let same = some_inj (sym done ∙ e) in
      elim outcome [
        | inl (error, unchanged, _) ↦ inl (
          sym (ap (λ p. p.0) same) ∙ error,
          subst (λ x. Keeps x r m) (sym unchanged ∙ ap (λ p. p.1) same) k,
        )
        | inr (answered, t) ↦ inr (
          λ n. answered (ap (λ p. p.0) same ∙ n),
          subst (λ x. Keeps x (r ++ batch) m) (ap (λ p. p.1) same)
              (record {
                list = taken l.window l.max_shares k.list batch;
                holds = t.holds;
                kept = t.recorded ∙ ap (λ o. extended o batch) k.kept;
                bound = t.max_shares ∙ k.bound;
              }),
        )
      ]

  set_window-Keeps :
      (l l' : Ledger Store) (r : List Share) (window : ℕ) (due : Bool) (m : ℕ)
      → Keeps l r m
      → set_window l window ≡ some (due, l')
      → Keeps l' r m
  set_window-Keeps l l' r window due m k e =
      let (l₁, done, holds, _, bound, kept) = set_window-Holds l k.list window k.holds in
      subst (λ x. Keeps x r m) (ap (λ p. p.1) (some_inj (sym done ∙ e)))
        (record {
          list = trimmed (max window 1) l.max_shares k.list;
          holds = holds;
          kept = kept ∙ k.kept;
          bound = bound ∙ k.bound;
        })

  -- What runs between the ends of a re-read is kept, in order.
  Runs-Keeps :
      {l last : Ledger Store} {ss : List Share}
      → Runs l ss last
      → (r : List Share) (m : ℕ) → Keeps l r m
      → Keeps last (r ++ ss) m
  Runs-Keeps {last = last} stop r m k = subst (λ t. Keeps last t m) (sym (append-nil r)) k
  Runs-Keeps {l = l} {last = last} (recorded {l' = l'} {ss = ss} batch n e rest) r m k =
      elim (record_batch-Keeps l l' batch r (some n) m k e) [
        | inl h ↦ absurd (ground (arith, h.0))
        | inr h ↦
            subst (λ t. Keeps last t m) (append_assoc r batch ss)
              (Runs-Keeps rest (r ++ batch) m (h.1))
      ]
  Runs-Keeps {l = l} (refused {l' = l'} batch e rest) r m k =
      elim (record_batch-Keeps l l' batch r none m k e) [
        | inl h ↦ Runs-Keeps rest r m (h.1)
        | inr h ↦ absurd (h.0 refl)
      ]
  Runs-Keeps {l = l} (resized {l' = l'} window due e rest) r m k =
      Runs-Keeps rest r m (set_window-Keeps l l' r window due m k e)

  finish_reread-some :
      (l l₁ l₂ : Ledger Store) (window : ℕ) (c : Contents) (r : List Share)
      → trim_ledger (record l {
        contents = c;
        reread_due = ltb window l.window;
        recorded_during_reread = none;
      })
        ≡ some l₁
      → take_shares l₁ r ≡ some l₂
      → l.recorded_during_reread ≡ some r
      → finish_reread l window (some c)
        ≡ some (length l₂.contents.shares - length l.contents.shares, l.contents, l₂)
  unfolding finish_reread
  finish_reread-some l l₁ l₂ window c r trims takes kept = ground (arith, trims, takes, kept)

  finish_reread-Holds :
      (l : Ledger Store) (r : List Share) (m window : ℕ) (c : Contents) (v : List Entry)
      → Keeps l r m
      → Refines c v
      → (gained : ℕ) × (l' : Ledger Store) × (finish_reread l window (some c)
          ≡ some (gained, l.contents, l'))
        × Holds l' (taken l.window m (trimmed l.window m v) r)
        × (l'.recorded_during_reread ≡ none)
        × (l'.reread_due ≡ ltb window l.window)
  unfolding is_count_capped
  finish_reread-Holds l r m window c v k h =
      let emptied : Ledger Store = record l {
        contents = c;
        reread_due = ltb window l.window;
        recorded_during_reread = none;
      } in
      let (c₁, done, h₁) = trim_ledger-Refines emptied v h in
      let (c₂, all, h₂) =
        take_shares-Refines (with_contents emptied c₁) (trimmed l.window l.max_shares v) r (
          with_contents-Holds emptied c₁ (trimmed l.window l.max_shares v) h₁
            (trimmed-length l.window l.max_shares v) k.holds.narrow) in
      (
        length c₂.shares - length l.contents.shares,
        with_contents emptied c₂,
        finish_reread-some l (with_contents emptied c₁) (with_contents emptied c₂) window c r done
            all k.kept,
        subst (λ b. Holds (with_contents emptied c₂) (taken l.window b (trimmed l.window b v) r))
            k.bound
            (with_contents-Holds emptied c₂
              (taken l.window l.max_shares (trimmed l.window l.max_shares v) r) h₂
              (taken-length l.window l.max_shares (trimmed l.window l.max_shares v) r
                (trimmed-length l.window l.max_shares v))
              k.holds.narrow),
        refl,
        refl,
      )

  begin_reread-begun :
      (l begun : Ledger Store) (snapshot : Snapshot) (window max_shares : ℕ)
      → begin_reread api l ≡ (some (snapshot, window, max_shares), begun)
      → (begun ≡ record l { recorded_during_reread = some [] }) × (l.max_shares ≡ max_shares)
  unfolding begin_reread
  begin_reread-begun l begun snapshot window max_shares e = ground (arith, e)

  -- A re-read loses no share. Begun on a ledger that holds a list within its count bound, below
  -- 2^32 - 1, whatever batches are recorded or refused and however the window is resized before it
  -- ends with what was read, it installs the read trimmed to the window of then, with every
  -- share recorded meanwhile taken in order, never panics, and leaves a re-read due just when
  -- the window is wider than what was read.
  pub reread-keeps_recorded :
      (l begun last : Ledger Store) (w v : List Entry) (snapshot : Snapshot) (window max_shares : ℕ)
      (ss : List Share) (c : Contents)
      → Holds l w
      → begin_reread api l ≡ (some (snapshot, window, max_shares), begun)
      → Runs begun ss last
      → Refines c v
      → (gained : ℕ) × (l' : Ledger Store) × (finish_reread last window (some c)
          ≡ some (gained, last.contents, l'))
        × Holds l' (taken last.window max_shares (trimmed last.window max_shares v) ss)
        × (l'.recorded_during_reread ≡ none)
        × (l'.reread_due ≡ ltb window last.window)
  unfolding is_count_capped
  reread-keeps_recorded l begun last w v snapshot window max_shares ss c h e runs hc =
      let (fresh, bound) = begin_reread-begun l begun snapshot window max_shares e in
      let start : Keeps begun [] max_shares =
        subst (λ x. Keeps x [] max_shares) (sym fresh)
          (record {
            list = w;
            holds = record {
              refines = h.refines;
              capped = h.capped;
              few = h.few;
              narrow = h.narrow;
            };
            kept = refl;
            bound = bound;
          }) in
      finish_reread-Holds last ss max_shares window c v (Runs-Keeps runs [] max_shares start) hc
