-- ===== src/Ledger/Window/Names.antt =====
-- What a write to one index leaves of the map of names and of the released indices.
use ratum.Base.{
  same_bytes, same_bytes_refl, same_bytes→≡, ℕ, ◌≤◌, ◌≡◌, ◌≢◌, sym, ap, arith, List, [], ◌∷◌,
  Option, none, some, true, ◌==◌, ==_iff, length, All, Bool-cases, inl, inr,
}
use ratum.Ledger.Split.{Name}
use ratum.Ledger.Window.{IdentityEntry, entry_at, map_insert, map_remove}
use ratum.Ledger.Window.Entries.{Written}
use ratum.Ledger.Window.Sound.{IsNamed, IsFree}

module _ (m : Name → Option ℕ) (es r : List (Option IdentityEntry)) (i : ℕ)
    (named : IsNamed m es) where
  -- The entry of an index is replaced by one of the same name.
  pub IsNamed-replace :
      (e x : IdentityEntry)
      → entry_at es i ≡ some e
      → x.name ≡ e.name
      → Written es i (some x) r
      → IsNamed m r
  IsNamed-replace e x here same w = record {
    held = λ n j h.
        let (d, at, called) = named.held n j h in
        elim (Bool-cases (j == i)) [
          | inl eq ↦ (x, ground (arith, w j, eq), ground (arith, same, called, at, here, eq))
          | inr ne ↦ (d, ground (arith, w j, ne, at), called)
        ];
    found = λ j d h. elim (Bool-cases (j == i)) [
      | inl eq ↦ ground (arith, w j, h, eq, same, named.found i e here)
      | inr ne ↦ ground (arith, w j, h, ne, named.found j d)
    ];
  }

  -- A name that is not held takes an index that holds none.
  pub IsNamed-insert :
      (x : IdentityEntry)
      → m x.name ≡ none
      → entry_at es i ≡ none
      → Written es i (some x) r
      → IsNamed (map_insert m x.name i) r
  IsNamed-insert x unheld empty w = record {
    held = λ n j h. elim (Bool-cases (same_bytes n x.name)) [
      | inl same ↦ (x, ground (arith, w j, h, same), sym (same_bytes→≡ n x.name same))
      | inr other ↦
          let (d, at, called) = named.held n j (ground (arith, h, other)) in
          (d, ground (arith, w j, at, empty, apart n j d at), called)
    ];
    found = λ j d h. elim (Bool-cases (j == i)) [
      | inl eq ↦ ground (arith, w j, h, eq, same_bytes_refl x.name)
      | inr ne ↦
          let at : entry_at es j ≡ some d = ground (arith, w j, h, ne) in
          elim (Bool-cases (same_bytes d.name x.name)) [
            | inl same ↦
                absurd (
                  ground
                    (arith, named.found j d at, unheld, ap m (same_bytes→≡ d.name x.name same)))
            | inr other ↦ ground (arith, named.found j d at, other)
          ]
    ];
  }
    where
      apart : (n : Name) (j : ℕ) (d : IdentityEntry) → entry_at es j ≡ some d → j ≢ i
      apart n j d at eq = ground (arith, at, empty, ap (entry_at es) eq)

  -- The entry of an index leaves, and its name with it.
  pub IsNamed-remove :
      (e : IdentityEntry)
      → entry_at es i ≡ some e
      → Written es i none r
      → IsNamed (map_remove m e.name) r
  IsNamed-remove e here w = record {
    held = λ n j h. elim (Bool-cases (same_bytes n e.name)) [
      | inl same ↦ absurd (ground (arith, h, same))
      | inr other ↦
          let (d, at, called) = named.held n j (ground (arith, h, other)) in
          elim (Bool-cases (j == i)) [
            | inl eq ↦
                absurd (ground (arith, other, same_bytes_refl e.name, carries n j d at called eq))
            | inr ne ↦ (d, ground (arith, w j, at, ne), called)
          ]
    ];
    found = λ j d h. elim (Bool-cases (j == i)) [
      | inl eq ↦ absurd (ground (arith, w j, h, eq))
      | inr ne ↦
          let at : entry_at es j ≡ some d = ground (arith, w j, h, ne) in
          elim (Bool-cases (same_bytes d.name e.name)) [
            | inl same ↦ absurd (
                ground (
                  arith,
                  ne,
                  named.found j d at,
                  named.found i e here,
                  ap m (same_bytes→≡ d.name e.name same),
                ))
            | inr other ↦ ground (arith, named.found j d at, other)
          ]
    ];
  }
    where
      carries :
          (n : Name) (j : ℕ) (d : IdentityEntry)
          → entry_at es j ≡ some d
          → d.name ≡ n
          → (j == i) ≡ true
          → same_bytes n e.name ≡ same_bytes e.name e.name
      carries n j d at called eq =
          ground (arith, at, called, here, eq, ap (entry_at es) ((==_iff j i).0 eq))

-- The released indices stay free under a write to another index.
pub IsFree-write :
    (es r : List (Option IdentityEntry)) (i : ℕ) (x : Option IdentityEntry) (free : List ℕ)
    → IsFree es free
    → All (λ j. j ≢ i) free
    → length es ≤ length r
    → Written es i x r
    → IsFree r free
IsFree-write es r i x [] f apart long w = tt
IsFree-write es r i x (j ∷ free) f apart long w = (
  omega (arith, f.0, long),
  ground (arith, f.1, w j, apart.0),
  f.2,
  IsFree-write es r i x free f.3 apart.1 long w,
)

-- A released index is not one that holds an identity.
pub IsFree-apart :
    (es : List (Option IdentityEntry)) (i : ℕ) (e : IdentityEntry) (free : List ℕ)
    → entry_at es i ≡ some e
    → IsFree es free
    → All (λ j. j ≢ i) free
IsFree-apart es i e [] here f = tt
IsFree-apart es i e (j ∷ free) here f =
    (λ eq. ground (arith, here, f.1, ap (entry_at es) eq), IsFree-apart es i e free here (f.3))
