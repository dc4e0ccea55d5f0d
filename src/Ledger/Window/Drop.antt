-- ===== src/Ledger/Window/Drop.antt =====
-- The oldest share leaves: what the counts become, and that no index is missing.
use ratum.Base.{
  ℕ, ◌+◌, ◌-◌, ◌<◌, ◌≡◌, refl, sym, ap, arith, List, [], ◌∷◌, Option, none, some, true, false, ◌==◌,
  ==_iff, length, Bool-cases, inl, inr, subst, drop,
}
use ratum.Ledger.Split.{Name, Entry}
use ratum.Ledger.Window.{
  WindowShare, IdentityEntry, Identities, Contents, entry_at, set_entry, debited, debit_at, release,
  map_remove, drop_oldest_of, drop_oldest,
}
use ratum.Ledger.Window.Entries.{Written, set_entry-some, entry_at-lt, weight-set_entry}
use ratum.Ledger.Window.Sound.{
  IsNamed, IsFree, weigh, weight, Tally, Tally-at, credits, IsSound, Carries, Shows, Refines,
}
use ratum.Ledger.Window.Names.{IsNamed-replace, IsNamed-remove, IsFree-write, IsFree-apart}
use ratum.Ledger.Window.Push.{Shows-kept}

module _ (s : WindowShare) (rest : List WindowShare) where
  -- What the identities are once a share that credits them has left.
  record IsDebited (ids r : Identities) : Type 0 where
    pub named : IsNamed r.by_name r.entries
    pub free : IsFree r.entries r.free
    pub tallied : (j : ℕ) → Tally j rest (entry_at r.entries j)
    pub used : weight r.entries ≡ length r.free + length rest
    pub keep :
        (j : ℕ) (n : Name) → 0 < credits j rest → Carries ids.entries j n → Carries r.entries j n

  module _ (ids : Identities) (e : IdentityEntry) (named : IsNamed ids.by_name ids.entries)
      (free : IsFree ids.entries ids.free) (at : entry_at ids.entries s.credit ≡ some e)
      (tallied : (j : ℕ) → Tally j (s ∷ rest) (entry_at ids.entries j))
      (used : weight ids.entries ≡ length ids.free + length (s ∷ rest)) where
    here : Tally s.credit (s ∷ rest) (some e)
    here = subst (Tally s.credit (s ∷ rest)) at (tallied s.credit)

    -- Every index but the share's keeps its tally.
    elsewhere :
        (j : ℕ) (o : Option IdentityEntry)
        → (j == s.credit) ≡ false
        → Tally j (s ∷ rest) o
        → Tally j rest o
    elsewhere j none ne t = ground (arith, ne, t)
    elsewhere j (some x) ne t = (ground (arith, ne, t.0), ground (arith, ne, t.1), t.2)

    tallied_after :
        (x : Option IdentityEntry) (es : List (Option IdentityEntry))
        → Written ids.entries s.credit x es
        → Tally s.credit rest x
        → (j : ℕ) → Tally j rest (entry_at es j)
    tallied_after x es wr t j = elim (Bool-cases (j == s.credit)) [
      | inl eq ↦
          Tally-at j rest (entry_at es j) x (ground (arith, wr j, eq))
            (subst (λ k. Tally k rest x) (sym ((==_iff j s.credit).0 eq)) t)
      | inr ne ↦
          Tally-at j rest (entry_at es j) (entry_at ids.entries j) (ground (arith, wr j, ne))
            (elsewhere j (entry_at ids.entries j) ne (tallied j))
    ]

    weight-debited :
        (es : List (Option IdentityEntry))
        → set_entry ids.entries s.credit (some (debited e s.difficulty)) ≡ some es
        → weight es + e.shares ≡ weight ids.entries + (e.shares - 1)
    weight-debited es written = omega (
      arith,
      weight-set_entry ids.entries s.credit (some (debited e s.difficulty)) es written,
      ap weigh at,
    )

    -- The identity keeps a share.
    kept :
        (es : List (Option IdentityEntry))
        → length es ≡ length ids.entries
        → Written ids.entries s.credit (some (debited e s.difficulty)) es
        → set_entry ids.entries s.credit (some (debited e s.difficulty)) ≡ some es
        → ((debited e s.difficulty).shares == 0) ≡ false
        → IsDebited ids (record ids { entries = es })
    kept es long wr written more = record {
      used = omega (arith, used, here.2, weight-debited es written);
      named =
          IsNamed-replace ids.by_name ids.entries es s.credit named e (debited e s.difficulty) at
            refl wr;
      free =
          IsFree-write ids.entries es s.credit (some (debited e s.difficulty)) ids.free free
            (IsFree-apart ids.entries s.credit e ids.free at free) (omega (arith, long)) wr;
      tallied =
          tallied_after (some (debited e s.difficulty)) es wr
            (ground (arith, here.0), ground (arith, here.1), ground (arith, more));
      keep = λ j n k (x, there, called). elim (Bool-cases (j == s.credit)) [
        | inl eq ↦ (
          debited e s.difficulty,
          ground (arith, wr j, eq),
          ground (arith, eq, there, at, called),
        )
        | inr ne ↦ (x, ground (arith, wr j, ne, there), called)
      ];
    }

    -- The identity is released.
    released :
        (es es' : List (Option IdentityEntry))
        → length es ≡ length ids.entries
        → length es' ≡ length es
        → Written ids.entries s.credit (some (debited e s.difficulty)) es
        → Written es s.credit none es'
        → set_entry ids.entries s.credit (some (debited e s.difficulty)) ≡ some es
        → set_entry es s.credit none ≡ some es'
        → ((debited e s.difficulty).shares == 0) ≡ true
        → IsDebited ids (record {
          by_name = map_remove ids.by_name e.name;
          entries = es';
          free = s.credit ∷ ids.free;
        })
    released es es' long long' wr wr' written written' last =
        let zero_left : e.shares - 1 ≡ 0 = ground (arith, last) in
        let under : entry_at es s.credit ≡ some (debited e s.difficulty) =
          ground (arith, wr s.credit) in
        let through : Written ids.entries s.credit none es' = λ j. ground (arith, wr j, wr' j) in
        let gone : credits s.credit rest ≡ 0 = ground (arith, last, here.0) in
        let apart = IsFree-apart ids.entries s.credit e ids.free at free in
        record {
          named = IsNamed-remove ids.by_name ids.entries es' s.credit named e at through;
          free = (
            omega (arith, long, long', entry_at-lt ids.entries s.credit e at),
            ground (arith, through s.credit),
            apart,
            IsFree-write ids.entries es' s.credit none ids.free free apart
                (omega (arith, long, long')) through,
          );
          tallied = tallied_after none es' through gone;
          used = omega (
            arith,
            used,
            here.2,
            zero_left,
            weight-debited es written,
            weight-set_entry es s.credit none es' written',
            ap weigh under,
          );
          keep = λ j n k (x, there, called). elim (Bool-cases (j == s.credit)) [
            | inl eq ↦
                absurd (
                  ground
                    (arith, k, gone, ap (λ (i : ℕ). credits i rest) ((==_iff j s.credit).0 eq)))
            | inr ne ↦ (x, ground (arith, through j, ne, there), called)
          ];
        }

    debit_at-IsDebited :
        (r : Identities) × (debit_at ids s.credit s.difficulty (some e) ≡ some r) × IsDebited ids r
    unfolding debit_at release
    debit_at-IsDebited =
        let inside = entry_at-lt ids.entries s.credit e at in
        let (es, written, long, wr) =
          set_entry-some ids.entries s.credit (some (debited e s.difficulty)) inside in
        let (es', written', long', wr') =
          set_entry-some es s.credit none (omega (arith, long, inside)) in
        elim (Bool-cases ((debited e s.difficulty).shares == 0)) [
          | inl last ↦ (
            _,
            ground (arith, written, written', last),
            released es es' long long' wr wr' written written' last,
          )
          | inr more ↦ (_, ground (arith, written, more), kept es long wr written more)
        ]

-- Contents that stand for a list of names and work let the oldest share go without a panic, and
-- then stand for the list without its head.
pub drop_oldest-Refines :
    (c : Contents) (w : List Entry)
    → Refines c w
    → (c' : Contents) × (drop_oldest c ≡ some c')
      × Refines c' (drop 1 w)
      × (c'.shares ≡ drop 1 c.shares)
unfolding drop_oldest drop_oldest_of
drop_oldest-Refines c w h = by_case c.shares w (h.sound) h.shows
  where
    by_case :
        (ss : List WindowShare) (w : List Entry)
        → IsSound (record c { shares = ss })
        → Shows c.identities.entries ss w
        → (c' : Contents) × (drop_oldest_of (record c { shares = ss }) ss ≡ some c')
          × Refines c' (drop 1 w)
          × (c'.shares ≡ drop 1 ss)
    by_case [] [] sound shows =
        (record c { shares = [] }, refl, record { sound = sound; shows = tt }, refl)
    by_case [] (_ ∷ w) sound shows = absurd shows
    by_case (s ∷ rest) [] sound shows = absurd shows
    by_case (s ∷ rest) ((n, d) ∷ w) sound ((e, at, called), work, shows) =
        let (r, done, t) =
          debit_at-IsDebited s rest c.identities e sound.named sound.free at sound.tallied
            sound.used in
        (
          record { shares = rest; identities = r; total_work = c.total_work - s.difficulty },
          ground (arith, at, done),
          record {
            sound = record {
              named = t.named;
              free = t.free;
              tallied = t.tallied;
              total = omega (arith, sound.total);
              used = t.used;
            };
            shows = Shows-kept c.identities.entries r.entries rest w t.keep shows;
          },
          refl,
        )
