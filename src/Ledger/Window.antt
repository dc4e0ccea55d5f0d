-- ===== src/Ledger/Window.antt =====
-- prime/src/ledger.rs, the contents of the share window: the shares, oldest first, the identities
-- that they credit, each under an index its shares refer to, and their total work.
--
-- `none` is a panic: an index that stands for no identity, or outside the entries, or that 32 bits do
-- not hold. The map of names
-- is a function, the vector of free indices a list whose head is its end, an identity's name the
-- list of its bytes. Work is a u128, whose sums are below 2^128 by far and are written without a
-- wrap; `-=` of more than is there is the subtraction of ℕ. Buffers' capacities are not modelled.
pub mod Entries
pub mod Sound
pub mod Names
pub mod Taking
pub mod Push
pub mod Drop
pub mod Trim
pub mod Weights
use ratum.Base.{
  same_bytes, ℕ, zero, suc, ◌+◌, ◌-◌, ◌%◌, ◌^◌, min, List, [], ◌∷◌, ◌++◌, Option, none, some, Bool,
  true, false, ◌&&◌, ◌==◌, ltb, leb, if◌then◌else◌, length,
}
use ratum.Ledger.Split.{Name}

-- `Share`; its block hash is not read by the window.
pub record Share : Type 0 where
  pub accepted_at : ℕ
  pub identity : Name
  pub difficulty : ℕ
  pub tag_secondary : List ℕ

pub record IdentityState : Type 0 where
  pub work : ℕ
  pub tag_secondary : List ℕ

pub record WindowShare : Type 0 where
  pub difficulty : ℕ
  pub accepted_at : ℕ
  pub credit : ℕ

-- `WindowShare::new`.
abbrev pub window_share : Share → ℕ → WindowShare
window_share s index = record {
  difficulty = s.difficulty;
  accepted_at = min s.accepted_at (2 ^ 32 - 1);
  credit = index;
}

pub record IdentityEntry : Type 0 where
  pub name : Name
  pub state : IdentityState
  pub shares : ℕ

pub record Identities : Type 0 where
  pub by_name : Name → Option ℕ
  pub entries : List (Option IdentityEntry)
  pub free : List ℕ

-- `HashMap::insert` and `HashMap::remove`.
abbrev pub map_insert : (Name → Option ℕ) → Name → ℕ → Name → Option ℕ
map_insert m name i n = if same_bytes n name then some i else m n

abbrev pub map_remove : (Name → Option ℕ) → Name → Name → Option ℕ
map_remove m name n = if same_bytes n name then none else m n

-- `entries[i].as_mut()`: the identity under an index.
unfoldable pub entry_at : List (Option IdentityEntry) → ℕ → Option IdentityEntry
entry_at [] i = none
entry_at (e ∷ es) zero = e
entry_at (e ∷ es) (suc i) = entry_at es i

-- `entries[i] = e`, which panics outside the vector.
unfoldable pub set_entry :
    List (Option IdentityEntry) → ℕ → Option IdentityEntry → Option (List (Option IdentityEntry))
set_entry [] i e = none
set_entry (x ∷ es) zero e = some (e ∷ es)
set_entry (x ∷ es) (suc i) e = elim (set_entry es i e) [ none ↦ none | some r ↦ some (x ∷ r) ]

abbrev pub fresh : Name → IdentityEntry
fresh name = record { name = name; state = record { work = 0; tag_secondary = [] }; shares = 0 }

-- `index_of` for a name that is not held: a released index, or a new one at the end.
unfoldable pub take_index : Identities → Name → List ℕ → Option (ℕ × Identities)
take_index ids name [] =
    if ltb (length ids.entries) (2 ^ 32)
    then some (
      length ids.entries,
      record {
        by_name = map_insert ids.by_name name (length ids.entries);
        entries = ids.entries ++ (some (fresh name) ∷ []);
        free = [];
      },
    )
    else none
take_index ids name (i ∷ rest) = elim (set_entry ids.entries i (some (fresh name))) [
  | none ↦ none
  | some es ↦
      some (i, record { by_name = map_insert ids.by_name name i; entries = es; free = rest })
]

unfoldable pub index_of : Identities → Name → Option (ℕ × Identities)
index_of ids name = elim (ids.by_name name) [
  | some i ↦ some (i, ids)
  | none ↦ take_index ids name ids.free
]

-- `release`; the index holds an identity, whose entry is given.
unfoldable pub release : Identities → ℕ → IdentityEntry → Option Identities
release ids i e = elim (set_entry ids.entries i none) [
  | none ↦ none
  | some es ↦
      some (record { by_name = map_remove ids.by_name e.name; entries = es; free = i ∷ ids.free })
]

pub record Contents : Type 0 where
  pub shares : List WindowShare
  pub identities : Identities
  pub total_work : ℕ

-- The entry of a credited share: its work, its newest tag and its count.
abbrev pub credited : IdentityEntry → Share → IdentityEntry
credited e s = record e {
  state = record { work = e.state.work + s.difficulty; tag_secondary = s.tag_secondary };
  shares = (e.shares + 1) % 2 ^ 32;
}

-- `push` once the index is known: `entry_mut`, the counts and the share.
unfoldable pub credit_at :
    Contents → Share → ℕ → Identities → Option IdentityEntry → Option Contents
credit_at c s i ids none = none
credit_at c s i ids (some e) = elim (set_entry ids.entries i (some (credited e s))) [
  | none ↦ none
  | some es ↦ some (record {
    shares = c.shares ++ (window_share s i ∷ []);
    identities = record ids { entries = es };
    total_work = c.total_work + s.difficulty;
  })
]

unfoldable pub push : Contents → Share → Option Contents
push c s = elim (index_of c.identities s.identity) [
  | none ↦ none
  | some p ↦ credit_at c s (p.0) (p.1) (entry_at (p.1).entries (p.0))
]

-- The entry of a share that leaves.
abbrev pub debited : IdentityEntry → ℕ → IdentityEntry
debited e work = record e {
  state = record e.state { work = e.state.work - work };
  shares = e.shares - 1;
}

-- The identity's entry once the share has left, released at zero.
unfoldable pub debit_at : Identities → ℕ → ℕ → Option IdentityEntry → Option Identities
debit_at ids i work none = none
debit_at ids i work (some e) = elim (set_entry ids.entries i (some (debited e work))) [
  | none ↦ none
  | some es ↦
      if (debited e work).shares == 0
      then release (record ids { entries = es }) i (debited e work)
      else some (record ids { entries = es })
]

unfoldable pub drop_oldest_of : Contents → List WindowShare → Option Contents
drop_oldest_of c [] = some c
drop_oldest_of c (s ∷ rest) =
    elim (debit_at c.identities s.credit s.difficulty (entry_at c.identities.entries s.credit)) [
      | none ↦ none
      | some ids ↦
          some
            (record { shares = rest; identities = ids; total_work = c.total_work - s.difficulty })
    ]

-- `drop_oldest`.
unfoldable pub drop_oldest : Contents → Option Contents
drop_oldest c = drop_oldest_of c c.shares

-- The test of the first loop of `trim`: more than one share, more work than the window, and the
-- oldest share not needed to reach it.
unfoldable pub is_spare : ℕ → Contents → Bool
is_spare window c = elim c.shares [
  | [] ↦ false
  | s ∷ rest ↦
      ltb 1 (length c.shares) && ltb window c.total_work && leb s.difficulty (c.total_work - window)
]

-- The two loops of `trim`. Each round drops a share, so a round for every share is enough.
unfoldable pub trim_work : ℕ → ℕ → Contents → Option Contents
trim_work zero window c = some c
trim_work (suc rounds) window c = elim (is_spare window c) [
  | false ↦ some c
  | true ↦ elim (drop_oldest c) [ none ↦ none | some c' ↦ trim_work rounds window c' ]
]

unfoldable pub trim_count : ℕ → ℕ → Contents → Option Contents
trim_count zero max_shares c = some c
trim_count (suc rounds) max_shares c = elim (ltb max_shares (length c.shares)) [
  | false ↦ some c
  | true ↦ elim (drop_oldest c) [ none ↦ none | some c' ↦ trim_count rounds max_shares c' ]
]

-- `trim`.
unfoldable pub trim : Contents → ℕ → ℕ → Option Contents
trim c window max_shares = elim (trim_work (length c.shares) window c) [
  | none ↦ none
  | some c' ↦ trim_count (length c'.shares) max_shares c'
]
