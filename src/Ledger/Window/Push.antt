-- ===== src/Ledger/Window/Push.antt =====
-- A share is pushed: what the counts become, and that no index is missing.
use ratum.Base.{
  ℕ, ◌+◌, ◌%◌, ◌≤◌, ◌<◌, ◌^◌, length, length-append, ap, ◌≡◌, refl, arith, List, [], ◌∷◌, ◌++◌,
  Option, none, some, false, ◌==◌, if◌then◌else◌, Bool-cases, inl, inr,
}
use ratum.Ledger.Split.{Name, Entry}
use ratum.Ledger.Window.{
  Share, WindowShare, window_share, IdentityEntry, Identities, Contents, entry_at, credited,
  credit_at, push,
}
use ratum.Ledger.Window.Entries.{Written, set_entry-some, entry_at-lt, weight-set_entry}
use ratum.Ledger.Window.Sound.{
  weigh, Tally, credits, credited_work, work_of, Tally-at, Carries, Shows, Refines,
}
use ratum.Ledger.Window.Names.{IsNamed-replace, IsFree-write, IsFree-apart}
use ratum.Ledger.Window.Taking.{IsTaken, index_of-IsTaken}

credits-append :
    (i : ℕ) (ss : List WindowShare) (s : WindowShare)
    → credits i (ss ++ (s ∷ [])) ≡ credits i ss + (if s.credit == i then 1 else 0)
credits-append i [] s = ground arith
credits-append i (x ∷ ss) s = ground (arith, credits-append i ss s)

credited_work-append :
    (i : ℕ) (ss : List WindowShare) (s : WindowShare)
    → credited_work i (ss ++ (s ∷ []))
      ≡ credited_work i ss + (if s.credit == i then s.difficulty else 0)
credited_work-append i [] s = ground arith
credited_work-append i (x ∷ ss) s = ground (arith, credited_work-append i ss s)

work_of-append :
    (ss : List WindowShare) (s : WindowShare) → work_of (ss ++ (s ∷ [])) ≡ work_of ss + s.difficulty
work_of-append [] s = omega arith
work_of-append (x ∷ ss) s = omega (arith, work_of-append ss s)

-- Entries that keep the names of the credited indices show the same window.
pub Shows-kept :
    (es r : List (Option IdentityEntry)) (ss : List WindowShare) (w : List Entry)
    → ((i : ℕ) (n : Name) → 0 < credits i ss → Carries es i n → Carries r i n)
    → Shows es ss w
    → Shows r ss w
Shows-kept es r [] [] keep h = tt
Shows-kept es r [] (_ ∷ w) keep h = h
Shows-kept es r (s ∷ ss) [] keep h = h
Shows-kept es r (s ∷ ss) ((n, d) ∷ w) keep h = (
  keep s.credit n (ground arith) h.0,
  h.1,
  Shows-kept es r ss w (λ i n c. keep i n (ground (arith, c))) h.2,
)

Shows-append :
    (es : List (Option IdentityEntry)) (ss : List WindowShare) (w : List Entry) (s : WindowShare)
    (n : Name)
    → Shows es ss w
    → Carries es s.credit n
    → Shows es (ss ++ (s ∷ [])) (w ++ ((n, s.difficulty) ∷ []))
Shows-append es [] [] s n h c = (c, refl, tt)
Shows-append es [] (_ ∷ w) s n h c = absurd h
Shows-append es (x ∷ ss) [] s n h c = absurd h
Shows-append es (x ∷ ss) ((m, d) ∷ w) s n h c = (h.0, h.1, Shows-append es ss w s n h.2 c)

credits-le : (i : ℕ) (ss : List WindowShare) → credits i ss ≤ length ss
credits-le i [] = omega arith
credits-le i (x ∷ ss) = ground (arith, credits-le i ss)

module _ (c : Contents) (w : List Entry) (h : Refines c w) (s : Share)
    (few : 1 + length c.shares < 2 ^ 32) where
  -- The count of an identity's shares does not wrap.
  counted :
      (i : ℕ) (r : Identities) (t : IsTaken c.identities s.identity c.shares i r)
      → (t.entry.shares + 1) % 2 ^ 32 ≡ t.entry.shares + 1
  counted i r t = omega (arith, few, t.shares, credits-le i c.shares)

  tallied_after :
      (i : ℕ) (r : Identities) (t : IsTaken c.identities s.identity c.shares i r)
      (es : List (Option IdentityEntry))
      → Written r.entries i (some (credited t.entry s)) es
      → (j : ℕ) → Tally j (c.shares ++ (window_share s i ∷ [])) (entry_at es j)
  tallied_after i r t es wr j = elim (Bool-cases (j == i)) [
    | inl eq ↦
        Tally-at j (c.shares ++ (window_share s i ∷ [])) (entry_at es j) (some (credited t.entry s))
          (ground (arith, wr j, eq))
          (
            ground
                (arith, eq, t.shares, counted i r t, credits-append j c.shares (window_share s i)),
            ground (arith, eq, t.work, credited_work-append j c.shares (window_share s i)),
            omega (arith, counted i r t),
          )
    | inr ne ↦
        Tally-at j (c.shares ++ (window_share s i ∷ [])) (entry_at es j)
          (entry_at c.identities.entries j) (ground (arith, wr j, ne, t.others j))
          (untouched (entry_at c.identities.entries j) (h.sound.tallied j) ne)
  ]
    where
      untouched :
          (o : Option IdentityEntry)
          → Tally j c.shares o
          → (j == i) ≡ false
          → Tally j (c.shares ++ (window_share s i ∷ [])) o
      untouched none k ne = ground (arith, ne, k, credits-append j c.shares (window_share s i))
      untouched (some e) k ne = (
        ground (arith, ne, k.0, credits-append j c.shares (window_share s i)),
        ground (arith, ne, k.1, credited_work-append j c.shares (window_share s i)),
        k.2,
      )

  keep :
      (i : ℕ) (r : Identities) (t : IsTaken c.identities s.identity c.shares i r)
      (es : List (Option IdentityEntry))
      → Written r.entries i (some (credited t.entry s)) es
      → (j : ℕ) (n : Name) → 0 < credits j c.shares
      → Carries c.identities.entries j n
      → Carries es j n
  keep i r t es wr j n k (e, at, called) = elim (Bool-cases (j == i)) [
    | inl eq ↦ (
      credited t.entry s,
      ground (arith, wr j, eq),
      ground (arith, eq, t.kept j e at, t.at, called),
    )
    | inr ne ↦ (e, ground (arith, wr j, ne, t.kept j e at), called)
  ]

  pushed :
      (i : ℕ) (r : Identities) (t : IsTaken c.identities s.identity c.shares i r)
      → (c' : Contents) × (credit_at c s i r (entry_at r.entries i) ≡ some c')
        × Refines c' (w ++ ((s.identity, s.difficulty) ∷ []))
  unfolding credit_at
  pushed i r t =
      let (es, written, long, wr) =
        set_entry-some r.entries i (some (credited t.entry s))
          (entry_at-lt r.entries i t.entry t.at) in
      (
        record {
          shares = c.shares ++ (window_share s i ∷ []);
          identities = record r { entries = es };
          total_work = c.total_work + s.difficulty;
        },
        ground (arith, t.at, written),
        record {
          sound = record {
            named =
                IsNamed-replace r.by_name r.entries es i t.named t.entry (credited t.entry s) t.at
                  refl wr;
            free =
                IsFree-write r.entries es i (some (credited t.entry s)) r.free t.free
                  (IsFree-apart r.entries i t.entry r.free t.at t.free) (omega (arith, long)) wr;
            tallied = tallied_after i r t es wr;
            used = omega (
              arith,
              t.used,
              counted i r t,
              weight-set_entry r.entries i (some (credited t.entry s)) es written,
              ap weigh t.at,
              length-append c.shares (window_share s i ∷ []),
            );
            total = omega (arith, h.sound.total, work_of-append c.shares (window_share s i));
          };
          shows =
              Shows-append es c.shares w (window_share s i) s.identity
                (Shows-kept c.identities.entries es c.shares w (keep i r t es wr) h.shows)
                (credited t.entry s, ground (arith, wr i), t.called);
        },
      )

  -- Contents of fewer than 2^32 - 1 shares that stand for a list of names and work take a share
  -- without a panic, and then stand for the list with the share's name and work at its end.
  pub push-Refines :
      (c' : Contents) × (push c s ≡ some c') × Refines c' (w ++ ((s.identity, s.difficulty) ∷ []))
  unfolding push
  push-Refines =
      let (i, r, taken, t) =
        index_of-IsTaken c.identities s.identity c.shares h.sound.named h.sound.free h.sound.tallied
          (omega (arith, few)) h.sound.used in
      let (c', done, refines) = pushed i r t in (c', ground (arith, taken, done), refines)
