-- ===== src/Ledger/Window/Weights.antt =====
-- prime/src/ledger/split.rs, `Ledger::weights`: the weights that a split is computed from, one for
-- each identity held.
use ratum.Base.{
  same_bytes, same_bytes_refl, same_bytes→≡, ℕ, zero, suc, ◌+◌, ◌<◌, ◌≡◌, refl, sym, ap, ◌∙◌, arith,
  List, [], ◌∷◌, Option, none, some, true, ◌==◌, ==_iff, ltb, leb, ◌&&◌, if◌then◌else◌, length, All,
  subst, Bool-cases, inl, inr,
}
use ratum.Ledger.Split.{Name, Entry, total_weight}
use ratum.Ledger.Window.{WindowShare, IdentityEntry, Contents, entry_at}
use ratum.Ledger.Window.Entries.{entry_at-lt}
use ratum.Ledger.Window.Taking.{uncredited_work}
use ratum.Ledger.Window.Sound.{Tally, IsNamed, credited_work, work_of, Shows, Refines}

-- `Identities::iter`, as far as `weights` reads it.
unfoldable pub entry_weights : List (Option IdentityEntry) → List Entry
entry_weights [] = []
entry_weights (none ∷ es) = entry_weights es
entry_weights (some e ∷ es) = (e.name, e.state.work) ∷ entry_weights es

unfoldable pub weights : Contents → List Entry
weights c = entry_weights c.identities.entries

-- The work that so many indices from one on are credited.
work_from : ℕ → ℕ → List WindowShare → ℕ
work_from i zero ss = 0
work_from i (suc n) ss = credited_work i ss + work_from (suc i) n ss

work_from_nil : (i n : ℕ) → work_from i n [] ≡ 0
unfolding work_from
work_from_nil i zero = refl
work_from_nil i (suc n) = omega (arith, work_from_nil (suc i) n)

work_from_cons :
    (i n : ℕ) (s : WindowShare) (ss : List WindowShare)
    → work_from i n (s ∷ ss)
      ≡ work_from i n ss + (if leb i s.credit && ltb s.credit (i + n) then s.difficulty else 0)
unfolding work_from
work_from_cons i zero s ss = ground arith
work_from_cons i (suc n) s ss = ground (arith, work_from_cons (suc i) n s ss)

work_from_every :
    (n : ℕ) (ss : List WindowShare) → All (λ s. s.credit < n) ss → work_from 0 n ss ≡ work_of ss
work_from_every n [] h = work_from_nil 0 n
work_from_every n (s ∷ ss) h =
    ground (arith, work_from_cons 0 n s ss, work_from_every n ss h.1, h.0)

Tally-shift :
    (i j : ℕ) (ss : List WindowShare) (o : Option IdentityEntry)
    → i ≡ j
    → Tally i ss o
    → Tally j ss o
Tally-shift i j ss o e t = subst (λ k. Tally k ss o) e t

entry_weights_total :
    (i : ℕ) (es : List (Option IdentityEntry)) (ss : List WindowShare)
    → ((j : ℕ) → Tally (i + j) ss (entry_at es j))
    → total_weight (entry_weights es) ≡ work_from i (length es) ss
unfolding entry_weights work_from entry_at
entry_weights_total i [] ss h = refl
entry_weights_total i (none ∷ es) ss h = omega (
  arith,
  uncredited_work i ss (Tally-shift (i + 0) i ss none (omega arith) (h 0)),
  entry_weights_total (suc i) es ss
      (λ j. Tally-shift (i + suc j) (suc i + j) ss (entry_at es j) (omega arith) (h (suc j))),
)
entry_weights_total i (some e ∷ es) ss h = omega (
  arith,
  (Tally-shift (i + 0) i ss (some e) (omega arith) (h 0)).1,
  entry_weights_total (suc i) es ss
      (λ j. Tally-shift (i + suc j) (suc i + j) ss (entry_at es j) (omega arith) (h (suc j))),
)

Shows-inside :
    (es : List (Option IdentityEntry)) (ss : List WindowShare) (w : List Entry)
    → Shows es ss w
    → All (λ s. s.credit < length es) ss
Shows-inside es [] w h = tt
Shows-inside es (s ∷ ss) [] h = absurd h
Shows-inside es (s ∷ ss) ((n, d) ∷ w) ((e, at, _), _, h) =
    (entry_at-lt es s.credit e at, Shows-inside es ss w h)

-- The weights of contents that stand for a list of names and work total the window's work: no work
-- is paid twice and none is lost.
pub weights-total :
    (c : Contents) (w : List Entry) → Refines c w → total_weight (weights c) ≡ c.total_work
unfolding weights
weights-total c w h =
    entry_weights_total 0 c.identities.entries c.shares (λ j.
      Tally-shift j (0 + j) c.shares (entry_at c.identities.entries j) (omega arith)
        (h.sound.tallied j))
    ∙ work_from_every (length c.identities.entries) c.shares
        (Shows-inside c.identities.entries c.shares w h.shows)
    ∙ sym h.sound.total

-- The work of a name in a list of names and work.
abbrev pub work_in : Name → List Entry → ℕ
work_in n [] = 0
work_in n ((m, d) ∷ w) = if same_bytes m n then d + work_in n w else work_in n w

-- The work credited to an index is that of its entry's name.
credited_work-work_in :
    (by_name : Name → Option ℕ) (es : List (Option IdentityEntry)) (i : ℕ) (e : IdentityEntry)
    → IsNamed by_name es
    → entry_at es i ≡ some e
    → (ss : List WindowShare) (w : List Entry) → Shows es ss w
    → credited_work i ss ≡ work_in e.name w
credited_work-work_in by_name es i e named at [] [] h = refl
credited_work-work_in by_name es i e named at [] (_ ∷ w) h = absurd h
credited_work-work_in by_name es i e named at (s ∷ ss) [] h = absurd h
credited_work-work_in by_name es i e named at (s ∷ ss) ((n, d) ∷ w) ((x, there, called), work, h) =
    let rest = credited_work-work_in by_name es i e named at ss w h in
    elim (Bool-cases (s.credit == i)) [
      | inl eq ↦ ground (arith, eq, work, rest, called, same eq)
      | inr ne ↦ elim (Bool-cases (same_bytes n e.name)) [
        | inl same ↦ absurd (
            ground (
              arith,
              ne,
              named.found s.credit x there,
              named.found i e at,
              ap by_name (called ∙ same_bytes→≡ n e.name same),
            ))
        | inr other ↦ ground (arith, ne, other, rest)
      ]
    ]
  where
    same : (s.credit == i) ≡ true → same_bytes n e.name ≡ true
    same eq = ground (
      arith,
      at,
      there,
      called,
      ap (entry_at es) ((==_iff s.credit i).0 eq),
      same_bytes_refl e.name,
    )

entry_weights-All {κ} :
    (P : Entry → Type κ) (es : List (Option IdentityEntry))
    → ((i : ℕ) (e : IdentityEntry) → entry_at es i ≡ some e → P (e.name, e.state.work))
    → All P (entry_weights es)
unfolding entry_weights entry_at
entry_weights-All P [] h = tt
entry_weights-All P (none ∷ es) h = entry_weights-All P es (λ i. h (suc i))
entry_weights-All P (some e ∷ es) h = (h 0 e refl, entry_weights-All P es (λ i. h (suc i)))

-- In contents that stand for a list of names and work, each identity's weight is the work that the
-- list has under its name.
pub weights-work_in :
    (c : Contents) (w : List Entry) → Refines c w → All (λ p. p.1 ≡ work_in p.0 w) (weights c)
unfolding weights
weights-work_in c w h =
    entry_weights-All (λ p. p.1 ≡ work_in p.0 w) c.identities.entries
      (λ i e at. weight i e at (subst (Tally i c.shares) at (h.sound.tallied i)))
  where
    weight :
        (i : ℕ) (e : IdentityEntry)
        → entry_at c.identities.entries i ≡ some e
        → Tally i c.shares (some e)
        → e.state.work ≡ work_in e.name w
    weight i e at t =
        t.1
        ∙ credited_work-work_in c.identities.by_name c.identities.entries i e h.sound.named at
            c.shares w h.shows
