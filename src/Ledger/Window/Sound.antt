-- ===== src/Ledger/Window/Sound.antt =====
-- The invariant of the window's contents.
use ratum.Base.{
  sym, subst, ℕ, suc, ◌+◌, ◌<◌, ◌≡◌, ◌≢◌, List, [], ◌∷◌, Option, none, some, ◌==◌, if◌then◌else◌,
  length, All,
}
use ratum.Ledger.Split.{Name, Entry}
use ratum.Ledger.Window.{WindowShare, IdentityEntry, Contents, entry_at}

-- The shares that credit an index, their work, and the work of all.
abbrev pub credits : ℕ → List WindowShare → ℕ
credits i [] = 0
credits i (s ∷ ss) = if s.credit == i then suc (credits i ss) else credits i ss

abbrev pub credited_work : ℕ → List WindowShare → ℕ
credited_work i [] = 0
credited_work i (s ∷ ss) =
    if s.credit == i then s.difficulty + credited_work i ss else credited_work i ss

abbrev pub work_of : List WindowShare → ℕ
work_of [] = 0
work_of (s ∷ ss) = s.difficulty + work_of ss

-- Each name stands for the index whose entry carries it, and each entry's name for its index.
pub record IsNamed (by_name : Name → Option ℕ) (es : List (Option IdentityEntry)) : Type 0 where
  pub held :
      (n : Name) (i : ℕ)
      → by_name n ≡ some i
      → (e : IdentityEntry) × (entry_at es i ≡ some e) × (e.name ≡ n)
  pub found : (i : ℕ) (e : IdentityEntry) → entry_at es i ≡ some e → by_name e.name ≡ some i

-- The released indices are different ones, inside the entries, that hold no identity.
abbrev pub IsFree : List (Option IdentityEntry) → List ℕ → Type 0
IsFree es [] = Unit
IsFree es (i ∷ free) =
    (i < length es) × (entry_at es i ≡ none) × All (λ j. j ≢ i) free × IsFree es free

-- The entries' weight: their shares, and 1 for an index that holds no identity.
abbrev pub weigh : Option IdentityEntry → ℕ
weigh none = 1
weigh (some e) = e.shares

abbrev pub weight : List (Option IdentityEntry) → ℕ
weight [] = 0
weight (e ∷ es) = weigh e + weight es

-- What an index's entry says of the shares that credit it.
abbrev pub Tally : ℕ → List WindowShare → Option IdentityEntry → Type 0
Tally i ss none = credits i ss ≡ 0
Tally i ss (some e) =
    (e.shares ≡ credits i ss) × (e.state.work ≡ credited_work i ss) × (0 < e.shares)

pub Tally-at :
    (i : ℕ) (ss : List WindowShare) (o p : Option IdentityEntry)
    → o ≡ p
    → Tally i ss p
    → Tally i ss o
Tally-at i ss o p e t = subst (Tally i ss) (sym e) t

pub record IsSound (c : Contents) : Type 0 where
  pub named : IsNamed c.identities.by_name c.identities.entries
  pub free : IsFree c.identities.entries c.identities.free
  pub tallied : (i : ℕ) → Tally i c.shares (entry_at c.identities.entries i)
  pub total : c.total_work ≡ work_of c.shares
  -- Every index is free or credited by a share.
  pub used : weight c.identities.entries ≡ length c.identities.free + length c.shares

-- The window as what it stands for: the name and the work of each share, oldest first.
abbrev pub Carries : List (Option IdentityEntry) → ℕ → Name → Type 0
Carries es i n = (e : IdentityEntry) × (entry_at es i ≡ some e) × (e.name ≡ n)

abbrev pub Shows : List (Option IdentityEntry) → List WindowShare → List Entry → Type 0
Shows es [] [] = Unit
Shows es [] (_ ∷ w) = ⊥
Shows es (s ∷ ss) [] = ⊥
Shows es (s ∷ ss) ((n, d) ∷ w) = Carries es s.credit n × (s.difficulty ≡ d) × Shows es ss w

-- Sound contents that stand for a list of names and work.
pub record Refines (c : Contents) (w : List Entry) : Type 0 where
  pub sound : IsSound c
  pub shows : Shows c.identities.entries c.shares w
