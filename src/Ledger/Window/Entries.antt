-- ===== src/Ledger/Window/Entries.antt =====
-- The entries as a map from indices: what a write and an append change.
use ratum.Base.{
  ℕ, zero, suc, ◌<◌, ◌≡◌, refl, arith, List, [], ◌∷◌, ◌++◌, Option, none, some, ◌==◌, if◌then◌else◌,
  length, elim_some, some_inj, subst, ◌+◌, ◌≤◌,
}
use ratum.Ledger.Window.{IdentityEntry, entry_at, set_entry}
use ratum.Ledger.Window.Sound.{weigh, weight}

-- One index of the entries changed.
abbrev pub Written :
    List (Option IdentityEntry) → ℕ → Option IdentityEntry → List (Option IdentityEntry) → Type 0
Written es i e r = (j : ℕ) → entry_at r j ≡ (if j == i then e else entry_at es j)

-- A write inside the entries succeeds, and changes one index.
pub set_entry-some :
    (es : List (Option IdentityEntry)) (i : ℕ) (e : Option IdentityEntry)
    → i < length es
    → (r : List (Option IdentityEntry)) × (set_entry es i e ≡ some r)
      × (length r ≡ length es)
      × Written es i e r
unfolding set_entry entry_at
set_entry-some [] i e h = absurd (omega arith)
set_entry-some (x ∷ es) zero e h = (e ∷ es, refl, refl, at)
  where
    at : (j : ℕ) → entry_at (e ∷ es) j ≡ (if j == zero then e else entry_at (x ∷ es) j)
    at zero = refl
    at (suc j) = ground arith
set_entry-some (x ∷ es) (suc i) e h =
    let (r, written, long, at) = set_entry-some es i e (omega arith) in
    (x ∷ r, ground (arith, written), omega (arith, long), there r at)
  where
    there :
        (r : List (Option IdentityEntry))
        → ((j : ℕ) → entry_at r j ≡ (if j == i then e else entry_at es j))
        → (j : ℕ) → entry_at (x ∷ r) j ≡ (if j == suc i then e else entry_at (x ∷ es) j)
    there r at zero = ground arith
    there r at (suc j) = ground (arith, at j)

pub entry_at-append :
    (es : List (Option IdentityEntry)) (e : Option IdentityEntry) (j : ℕ)
    → entry_at (es ++ (e ∷ [])) j ≡ (if j == length es then e else entry_at es j)
unfolding entry_at
entry_at-append [] e zero = refl
entry_at-append [] e (suc j) = ground arith
entry_at-append (x ∷ es) e zero = ground arith
entry_at-append (x ∷ es) e (suc j) = ground (arith, entry_at-append es e j)

-- An index that holds an identity is inside the entries.
pub entry_at-lt :
    (es : List (Option IdentityEntry)) (i : ℕ) (e : IdentityEntry)
    → entry_at es i ≡ some e
    → i < length es
unfolding entry_at
entry_at-lt [] i e h = absurd (ground (arith, h))
entry_at-lt (x ∷ es) zero e h = omega arith
entry_at-lt (x ∷ es) (suc i) e h = omega (arith, entry_at-lt es i e h)

-- Past the entries there is none.
pub entry_at_past :
    (es : List (Option IdentityEntry)) (i : ℕ) → i ≡ length es → entry_at es i ≡ none
unfolding entry_at
entry_at_past [] i h = refl
entry_at_past (x ∷ es) zero h = absurd (omega arith)
entry_at_past (x ∷ es) (suc i) h = entry_at_past es i (omega arith)

-- A write moves the weight from what was under the index to what is.
pub weight-set_entry :
    (es : List (Option IdentityEntry)) (i : ℕ) (e : Option IdentityEntry)
    (r : List (Option IdentityEntry))
    → set_entry es i e ≡ some r
    → weight r + weigh (entry_at es i) ≡ weight es + weigh e
unfolding set_entry entry_at
weight-set_entry [] i e r h = absurd (ground (arith, h))
weight-set_entry (x ∷ es) zero e r h =
    subst (λ (r : List (Option IdentityEntry)). weight r + weigh x ≡ weight (x ∷ es) + weigh e)
      (some_inj h) (omega arith)
weight-set_entry (x ∷ es) (suc i) e r h =
    let (r', rest, done) = elim_some (set_entry es i e) (λ r. some (x ∷ r)) h in
    subst
      (λ (r : List (Option IdentityEntry)).
        weight r + weigh (entry_at es i) ≡ weight (x ∷ es) + weigh e)
      (some_inj done) (omega (arith, weight-set_entry es i e r' rest))

pub weight-append :
    (es : List (Option IdentityEntry)) (e : Option IdentityEntry)
    → weight (es ++ (e ∷ [])) ≡ weight es + weigh e
weight-append [] e = omega arith
weight-append (x ∷ es) e = omega (arith, weight-append es e)

-- Where every index weighs something, there are no more entries than weight.
pub length-weight :
    (es : List (Option IdentityEntry))
    → ((i : ℕ) → 0 < weigh (entry_at es i))
    → length es ≤ weight es
unfolding entry_at
length-weight [] h = omega arith
length-weight (x ∷ es) h = omega (arith, h 0, length-weight es (λ i. h (suc i)))
