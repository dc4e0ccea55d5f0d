-- ===== src/Ledger/Window/Trim.antt =====
-- The window is trimmed: what is left of the list of names and work.
use ratum.Base.{
  ℕ, zero, suc, ◌+◌, ◌-◌, ◌≤◌, ◌≡◌, refl, ap, ◌∙◌, arith, List, [], ◌∷◌, Option, some, Bool, true,
  false, ◌&&◌, ltb, leb, if◌then◌else◌, length, Bool-cases, inl, inr, ◌⊎◌, drop, length-drop, min,
  subst,
}
use ratum.Ledger.Split.{Entry, total_weight}
use ratum.Ledger.Window.{
  WindowShare, IdentityEntry, Contents, is_spare, trim_work, trim_count, trim,
}
use ratum.Ledger.Window.Sound.{work_of, Shows, Refines}
use ratum.Ledger.Window.Drop.{drop_oldest-Refines}

Shows-length :
    (es : List (Option IdentityEntry)) (ss : List WindowShare) (w : List Entry)
    → Shows es ss w
    → length ss ≡ length w
Shows-length es [] [] h = refl
Shows-length es [] (_ ∷ w) h = absurd h
Shows-length es (s ∷ ss) [] h = absurd h
Shows-length es (s ∷ ss) ((n, d) ∷ w) h = ap suc (Shows-length es ss w h.2)

Shows-work :
    (es : List (Option IdentityEntry)) (ss : List WindowShare) (w : List Entry)
    → Shows es ss w
    → work_of ss ≡ total_weight w
Shows-work es [] [] h = refl
Shows-work es [] (_ ∷ w) h = absurd h
Shows-work es (s ∷ ss) [] h = absurd h
Shows-work es (s ∷ ss) ((n, d) ∷ w) h = omega (arith, h.1, Shows-work es ss w h.2)

pub Refines-length : (c : Contents) (w : List Entry) → Refines c w → length c.shares ≡ length w
Refines-length c w h = Shows-length c.identities.entries c.shares w h.shows

pub Refines-total : (c : Contents) (w : List Entry) → Refines c w → c.total_work ≡ total_weight w
Refines-total c w h = h.sound.total ∙ Shows-work c.identities.entries c.shares w h.shows

-- The oldest share is spare when there are others, which reach the window's work without it, and
-- all together are past it.
abbrev pub spare : ℕ → List Entry → Bool
spare window [] = false
spare window ((n, d) ∷ w) =
    ltb 0 (length w) && ltb window (d + total_weight w) && leb window (total_weight w)

-- The list without its spare head, as long as it has one.
abbrev pub newest : ℕ → List Entry → List Entry
newest window [] = []
newest window (x ∷ w) = let rest = newest window w in if spare window (x ∷ w) then rest else x ∷ w

is_spare-spare :
    (window : ℕ) (c : Contents) (w : List Entry) → Refines c w → is_spare window c ≡ spare window w
unfolding is_spare
is_spare-spare window c w h =
    by_case c.shares w (Refines-total c w h) (Refines-length c w h) h.shows
  where
    by_case :
        (ss : List WindowShare) (w : List Entry)
        → c.total_work ≡ total_weight w
        → length ss ≡ length w
        → Shows c.identities.entries ss w
        → is_spare window (record c { shares = ss }) ≡ spare window w
    by_case [] [] t l s = refl
    by_case [] (_ ∷ w) t l s = absurd s
    by_case (x ∷ ss) [] t l s = absurd s
    by_case (x ∷ ss) ((n, d) ∷ w) t l s = ground (arith, t, l, s.1)

trim_work-Refines :
    (rounds window : ℕ) (c : Contents) (w : List Entry)
    → length w ≤ rounds
    → Refines c w
    → (c' : Contents) × (trim_work rounds window c ≡ some c') × Refines c' (newest window w)
unfolding trim_work
trim_work-Refines zero window c [] l h = (c, refl, h)
trim_work-Refines zero window c (x ∷ w) l h = absurd (omega arith)
trim_work-Refines (suc rounds) window c [] l h =
    (c, ground (arith, is_spare-spare window c [] h), h)
trim_work-Refines (suc rounds) window c (x ∷ w) l h = elim (Bool-cases (spare window (x ∷ w))) [
  | inl more ↦
      let (c₁, done, h₁, _) = drop_oldest-Refines c (x ∷ w) h in
      let (c₂, all, h₂) = trim_work-Refines rounds window c₁ w (omega arith) h₁ in
      (c₂, ground (arith, is_spare-spare window c (x ∷ w) h, more, done, all), rw more h₂)
  | inr enough ↦ (c, ground (arith, is_spare-spare window c (x ∷ w) h, enough), rw enough h)
]

trim_count-Refines :
    (rounds max_shares : ℕ) (c : Contents) (w : List Entry)
    → length w ≤ rounds
    → Refines c w
    → (c' : Contents) × (trim_count rounds max_shares c ≡ some c')
      × Refines c' (drop (length w - max_shares) w)
unfolding trim_count
trim_count-Refines zero max_shares c [] l h = (c, refl, ground (arith, h))
trim_count-Refines zero max_shares c (x ∷ w) l h = absurd (omega arith)
trim_count-Refines (suc rounds) max_shares c [] l h =
    (c, ground (arith, Refines-length c [] h), ground (arith, h))
trim_count-Refines (suc rounds) max_shares c (x ∷ w) l h =
    elim (Bool-cases (ltb max_shares (suc (length w)))) [
      | inl more ↦
          let (c₁, done, h₁, _) = drop_oldest-Refines c (x ∷ w) h in
          let (c₂, all, h₂) = trim_count-Refines rounds max_shares c₁ w (omega arith) h₁ in
          (
            c₂,
            ground (arith, Refines-length c (x ∷ w) h, more, done, all),
            subst (λ k. Refines c₂ (drop k (x ∷ w))) (counts more) h₂,
          )
      | inr enough ↦ (
        c,
        ground (arith, Refines-length c (x ∷ w) h, enough),
        subst (λ k. Refines c (drop k (x ∷ w))) {x = 0} (ground (arith, enough)) h,
      )
    ]
  where
    counts :
        ltb max_shares (suc (length w)) ≡ true
        → suc (length w - max_shares) ≡ suc (length w) - max_shares
    counts more = ground (arith, more)

-- No more than the newest so many.
abbrev pub latest : ℕ → List Entry → List Entry
latest max_shares w = drop (length w - max_shares) w

-- Contents that stand for a list of names and work are trimmed without a panic, within the rounds
-- their length gives, and then stand for the list that loses its head as long as that is spare, cut
-- to its newest `max_shares`.
pub trim-Refines :
    (c : Contents) (w : List Entry) (window max_shares : ℕ)
    → Refines c w
    → (c' : Contents) × (trim c window max_shares ≡ some c')
      × Refines c' (latest max_shares (newest window w))
unfolding trim
trim-Refines c w window max_shares h =
    let (c₁, done, h₁) =
      trim_work-Refines (length c.shares) window c w (omega (arith, Refines-length c w h)) h in
    let (c₂, all, h₂) =
      trim_count-Refines (length c₁.shares) max_shares c₁ (newest window w)
        (omega (arith, Refines-length c₁ (newest window w) h₁)) h₁ in
    (c₂, ground (arith, done, all), h₂)

newest_enough :
    (window : ℕ) (w : List Entry) → min window (total_weight w) ≤ total_weight (newest window w)
newest_enough window [] = omega arith
newest_enough window ((n, d) ∷ w) = ground (arith, newest_enough window w)

newest_tight : (window : ℕ) (w : List Entry) → spare window (newest window w) ≡ false
newest_tight window [] = refl
newest_tight window ((n, d) ∷ w) = ground (arith, newest_tight window w)

-- Trimmed contents hold no more than `max_shares` shares. Unless they hold exactly that many, their
-- work still reaches the window's, or all there was, and the oldest share is needed for it, the
-- only one, or the work is within the window's.
pub trim-bounds :
    (c : Contents) (w : List Entry) (window max_shares : ℕ)
    → Refines c w
    → (c' : Contents) × (trim c window max_shares ≡ some c')
      × (length c'.shares ≤ max_shares)
      × ((length c'.shares ≡ max_shares)
          ⊎ ((min window c.total_work ≤ c'.total_work) × (is_spare window c' ≡ false)))
trim-bounds c w window max_shares h =
    let (c', done, h') = trim-Refines c w window max_shares h in
    let short = Refines-length c' (latest max_shares (newest window w)) h' in
    let long = length-drop (length (newest window w) - max_shares) (newest window w) in
    (
      c',
      done,
      omega (arith, short, long),
      elim (Bool-cases (ltb max_shares (length (newest window w)))) [
        | inl over ↦ inl (ground (arith, over, short, long))
        | inr within ↦ inr (
            whole c' (
              subst (λ k. Refines c' (drop k (newest window w))) {y = 0} (ground (arith, within))
                h'))
      ],
    )
  where
    whole :
        (c' : Contents)
        → Refines c' (newest window w)
        → (min window c.total_work ≤ c'.total_work) × (is_spare window c' ≡ false)
    whole c' h' = (
      omega (
        arith,
        Refines-total c w h,
        Refines-total c' (newest window w) h',
        newest_enough window w,
      ),
      is_spare-spare window c' (newest window w) h' ∙ newest_tight window w,
    )
