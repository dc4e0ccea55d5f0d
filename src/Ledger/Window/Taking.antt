-- ===== src/Ledger/Window/Taking.antt =====
-- What taking an index for a name gives: an entry under it, with the shares that credit it.
use ratum.Base.{
  ℕ, ◌+◌, ◌<◌, ◌≤◌, ◌^◌, ltb, true, ◌≡◌, ◌≢◌, refl, sym, ap, arith, List, [], ◌∷◌, ◌++◌, Option,
  subst, none, some, length,
}
use ratum.Ledger.Split.{Name}
use ratum.Ledger.Window.{
  WindowShare, IdentityEntry, Identities, entry_at, map_insert, fresh, take_index, index_of,
}
use ratum.Ledger.Window.Entries.{
  Written, set_entry-some, entry_at-append, entry_at_past, weight-set_entry, weight-append,
  length-weight,
}
use ratum.Ledger.Window.Sound.{IsNamed, IsFree, weigh, weight, Tally, credits, credited_work}
use ratum.Ledger.Window.Names.{IsNamed-insert, IsFree-write}

-- No share credits an index: it has no work.
pub uncredited_work : (i : ℕ) (ss : List WindowShare) → credits i ss ≡ 0 → credited_work i ss ≡ 0
uncredited_work i [] h = refl
uncredited_work i (s ∷ ss) h = ground (arith, h, uncredited_work i ss)

-- The index `i` is taken for a name: what is left of the rest, and the entry it holds.
pub record IsTaken (ids : Identities) (name : Name) (ss : List WindowShare) (i : ℕ) (r : Identities)
    : Type 0 where
  pub named : IsNamed r.by_name r.entries
  pub free : IsFree r.entries r.free
  pub entry : IdentityEntry
  pub at : entry_at r.entries i ≡ some entry
  pub called : entry.name ≡ name
  pub shares : entry.shares ≡ credits i ss
  pub work : entry.state.work ≡ credited_work i ss
  pub others : (j : ℕ) → j ≢ i → entry_at r.entries j ≡ entry_at ids.entries j
  pub used : weight r.entries ≡ length r.free + length ss
  pub kept :
      (j : ℕ) (e : IdentityEntry) → entry_at ids.entries j ≡ some e → entry_at r.entries j ≡ some e

module _ (ids : Identities) (name : Name) (ss : List WindowShare)
    (named : IsNamed ids.by_name ids.entries) (free : IsFree ids.entries ids.free)
    (tallied : (i : ℕ) → Tally i ss (entry_at ids.entries i)) (few : length ss < 2 ^ 32) where
  uncredited : (i : ℕ) (e : Option IdentityEntry) → Tally i ss e → e ≡ none → credits i ss ≡ 0
  uncredited i none t h = t
  uncredited i (some e) t h = absurd (ground (arith, h))

  -- An index that holds no identity is given the fresh entry.
  taken :
      (i : ℕ) (r : List (Option IdentityEntry)) (left : List ℕ)
      → ids.by_name name ≡ none
      → entry_at ids.entries i ≡ none
      → Written ids.entries i (some (fresh name)) r
      → IsFree r left
      → weight r ≡ length left + length ss
      → IsTaken ids name ss i
          (record { by_name = map_insert ids.by_name name i; entries = r; free = left })
  taken i r left unheld empty w f u =
      let no_credits = uncredited i (entry_at ids.entries i) (tallied i) empty in
      record {
        named = IsNamed-insert ids.by_name ids.entries r i named (fresh name) unheld empty w;
        free = f;
        entry = fresh name;
        at = ground (arith, w i);
        called = refl;
        shares = sym no_credits;
        work = sym (uncredited_work i ss no_credits);
        used = u;
        others = λ j ne. ground (arith, w j, ne);
        kept = λ j e h. ground (arith, w j, h, empty, ap (entry_at ids.entries) {x = j} {y = i});
      }

  weighs : (i : ℕ) → 0 < weigh (entry_at ids.entries i)
  weighs i = of_tally (entry_at ids.entries i) (tallied i)
    where
      of_tally : (e : Option IdentityEntry) → Tally i ss e → 0 < weigh e
      of_tally none t = omega arith
      of_tally (some e) t = t.2

  take_index-IsTaken :
      (left : List ℕ)
      → IsFree ids.entries left
      → ids.by_name name ≡ none
      → weight ids.entries ≡ length left + length ss
      → (i : ℕ) × (r : Identities) × (take_index ids name left ≡ some (i, r))
        × IsTaken ids name ss i r
  unfolding take_index
  take_index-IsTaken [] f unheld u = (
    length ids.entries,
    _,
    rw (room (omega (arith, u, length-weight ids.entries weighs))) refl,
    taken (length ids.entries) (ids.entries ++ (some (fresh name) ∷ [])) [] unheld
        (entry_at_past ids.entries (length ids.entries) refl)
        (entry_at-append ids.entries (some (fresh name))) tt
        (omega (arith, u, weight-append ids.entries (some (fresh name)))),
  )
    where
      room : length ids.entries ≤ length ss → ltb (length ids.entries) (2 ^ 32) ≡ true
      room l = ground (arith, l, few)
  take_index-IsTaken (i ∷ left) f unheld u =
      let (r, written, long, w) = set_entry-some ids.entries i (some (fresh name)) f.0 in
      (
        i,
        record { by_name = map_insert ids.by_name name i; entries = r; free = left },
        ground (arith, written),
        taken i r left unheld f.1 w
            (IsFree-write ids.entries r i (some (fresh name)) left f.3 f.2 (omega (arith, long)) w)
            (omega (
              arith,
              u,
              weight-set_entry ids.entries i (some (fresh name)) r written,
              ap weigh f.1,
            )),
      )

  pub index_of-IsTaken :
      weight ids.entries ≡ length ids.free + length ss
      → (i : ℕ) × (r : Identities) × (index_of ids name ≡ some (i, r)) × IsTaken ids name ss i r
  unfolding index_of
  index_of-IsTaken u = by_case (ids.by_name name) refl
    where
      held :
          (i : ℕ) (e : IdentityEntry)
          → entry_at ids.entries i ≡ some e
          → e.name ≡ name
          → Tally i ss (entry_at ids.entries i)
          → IsTaken ids name ss i ids
      held i e at called t =
          let t' : Tally i ss (some e) = subst (Tally i ss) at t in
          record {
            named = named;
            free = free;
            entry = e;
            at = at;
            called = called;
            shares = t'.0;
            work = t'.1;
            used = u;
            others = λ j ne. refl;
            kept = λ j e h. h;
          }

      by_case :
          (o : Option ℕ)
          → ids.by_name name ≡ o
          → (i : ℕ) × (r : Identities) × (index_of ids name ≡ some (i, r)) × IsTaken ids name ss i r
      by_case (some i) h =
          let (e, at, called) = named.held name i h in
          (i, ids, ground (arith, h), held i e at called (tallied i))
      by_case none h =
          let (i, r, done, taking) = take_index-IsTaken ids.free free h u in
          (i, r, ground (arith, h, done), taking)
