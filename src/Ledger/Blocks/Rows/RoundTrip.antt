-- ===== src/Ledger/Blocks/Rows/RoundTrip.antt =====
-- A row is read back as the record it was packed from.
use ratum.Base.{
  ℕ, ◌<◌, ◌^◌, ◌≡◌, ◌≢◌, refl, sym, ap, ap₂, ◌∙◌, arith, List, [], ◌∷◌, ◌++◌, Option, none, some,
  length, All, ok,
}
use ratum.Base.Bytes.{le_bytes, length-le_bytes, cast}
use ratum.Reader.{cursor, truncated_itself, advance}
use ratum.Reader.Laws.{
  >>=_ok, u16-append, u32-append, u64-append, get_le-append, take_bytes-append, run_ok,
}
use ratum.Ledger.Split.{Payout}
use ratum.Ledger.Blocks.Rows.{
  OwedBlock, FoundBlock, total, settled_field, field_settled, pack_entries, pack_owed, to_option,
  keyed, read_entries, read_owed, unpack_owed, name_separator, before_separator, after_separator,
  pack_block, read_block, unpack_block,
}

module _ (utf8_lossy : List ℕ → List ℕ) where
  -- What fits a row: numbers of their fields' widths and names that are valid UTF-8.
  unfoldable pub FitsEntry : Payout → Type 0
  FitsEntry p =
      (length p.identity < 2 ^ 16) × (p.sats < 2 ^ 64) × (utf8_lossy p.identity ≡ p.identity)

  abbrev pub FitsSettled : Option ℕ → Type 0
  FitsSettled none = Unit
  FitsSettled (some s) = (0 < s) × (s < 2 ^ 64)

  pub record FitsOwed (o : OwedBlock) : Type 0 where
    pub found_at : o.found_at < 2 ^ 64
    pub height : o.height < 2 ^ 32
    pub hash : length o.block_hash ≡ 32
    pub total : total o < 2 ^ 64
    pub settled : FitsSettled o.settled_at
    pub count : length o.entries < 2 ^ 16
    pub entries : All FitsEntry o.entries

  read_entries-pack_entries :
      (ps : List Payout) (w : List ℕ)
      → All FitsEntry ps
      → read_entries utf8_lossy (length ps) (cursor w (pack_entries ps)) ≡ ok (ps, cursor w [])
  unfolding read_entries pack_entries FitsEntry
  read_entries-pack_entries [] w h = refl
  read_entries-pack_entries (p ∷ ps) w h =
      let small : cast 2 (length p.identity) ≡ length p.identity = omega (arith, h.0.0) in
      >>=_ok _ _ (u16-append "identity length" w _ (cast 2 (length p.identity)) (omega arith)) (
        >>=_ok _ _
          (take_bytes-append (cast 2 (length p.identity)) "identity" w p.identity _ (sym small))
          (>>=_ok _ _ (u64-append "sats" w _ p.sats h.0.1) (
            >>=_ok _ _ (read_entries-pack_entries ps w h.1)
              (ap (λ n. ok (record { identity = n; sats = p.sats } ∷ ps, cursor w [])) h.0.2))))

  field_settled-settled_field : (s : Option ℕ) → FitsSettled s → field_settled (settled_field s) ≡ s
  unfolding field_settled
  field_settled-settled_field none h = refl
  field_settled-settled_field (some s) h = ground (arith, h)

  settled_field-lt : (s : Option ℕ) → FitsSettled s → settled_field s < 2 ^ 64
  settled_field-lt none h = omega arith
  settled_field-lt (some s) h = h.1

  found :
      {A : Type 0} (hash : List ℕ) (a : A)
      → length hash ≡ 32
      → keyed hash (to_option (ok a)) ≡ some a
  unfolding keyed to_option
  found hash a h = ground (arith, h)

  -- A record of what is owed that fits its row is read back from it under the block's hash, with
  -- whether and when it was settled.
  pub unpack_owed-pack_owed :
      (o : OwedBlock) → FitsOwed o → unpack_owed utf8_lossy o.block_hash (pack_owed o) ≡ some o
  unfolding unpack_owed read_owed pack_owed keyed to_option advance
  unpack_owed-pack_owed o h =
      let w = pack_owed o in
      let small : cast 2 (length o.entries) ≡ length o.entries = omega (arith, h.count) in
      rw
        (run_ok (read_owed utf8_lossy o.block_hash) {c' = cursor w []} (
          >>=_ok _ _ (u64-append "found_at" w _ o.found_at h.found_at) (
            >>=_ok _ _ (u32-append "height" w _ o.height h.height) (
              >>=_ok _ _
                (>>=_ok _ _
                  (take_bytes-append 8 "total" w (le_bytes 8 (total o)) _
                    (length-le_bytes 8 (total o)))
                  refl)
                (>>=_ok _ _
                  (u64-append "settled_at" w _ (settled_field o.settled_at)
                    (settled_field-lt o.settled_at h.settled))
                  (>>=_ok _ _
                    (u16-append "entry count" w _ (cast 2 (length o.entries)) (omega arith))
                    (>>=_ok _ _
                      (ap (λ n. read_entries utf8_lossy n (cursor w (pack_entries o.entries))) small
                        ∙ read_entries-pack_entries o.entries w h.entries)
                      (ap (λ s. ok (record o { settled_at = s }, cursor w []))
                        (field_settled-settled_field o.settled_at h.settled)))))))))
        (found o.block_hash o h.hash)

  pub record FitsBlock (b : FoundBlock) : Type 0 where
    pub found_at : b.found_at < 2 ^ 64
    pub height : b.height < 2 ^ 32
    pub hash : length b.block_hash ≡ 32
    pub paid_to_split : b.paid_to_split < 2 ^ 64
    pub paid_to_pool : b.paid_to_pool < 2 ^ 64
    pub difficulty : b.network_difficulty < 2 ^ 64
    pub work : b.cumulative_work < 256 ^ 16
    pub finder : All (λ x. x ≢ name_separator) b.finder × (utf8_lossy b.finder ≡ b.finder)
    pub tag : utf8_lossy b.tag_secondary ≡ b.tag_secondary

  before_separator_lem :
      (xs ys : List ℕ)
      → All (λ x. x ≢ name_separator) xs
      → before_separator (xs ++ (name_separator ∷ ys)) ≡ xs
  unfolding before_separator
  before_separator_lem [] ys h = refl
  before_separator_lem (x ∷ xs) ys h = ground (arith, h.0, before_separator_lem xs ys h.1)

  after_separator_lem :
      (xs ys : List ℕ)
      → All (λ x. x ≢ name_separator) xs
      → after_separator (xs ++ (name_separator ∷ ys)) ≡ ys
  unfolding after_separator
  after_separator_lem [] ys h = refl
  after_separator_lem (x ∷ xs) ys h = ground (arith, h.0, after_separator_lem xs ys h.1)

  -- The record of a block that fits its row, its finder's name without a zero byte, is read back from
  -- it under the block's hash.
  pub unpack_block-pack_block :
      (b : FoundBlock) → FitsBlock b → unpack_block utf8_lossy b.block_hash (pack_block b) ≡ some b
  unfolding unpack_block read_block pack_block
  unpack_block-pack_block b h =
      let w = pack_block b in
      let names = b.finder ++ (name_separator ∷ b.tag_secondary) in
      ap (λ r. keyed b.block_hash (to_option r))
        (run_ok (read_block utf8_lossy b.block_hash) {c' = cursor w names} (
          >>=_ok _ _ (u64-append "found_at" w _ b.found_at h.found_at) (
            >>=_ok _ _ (u32-append "height" w _ b.height h.height) (
              >>=_ok _ _ (u64-append "paid_to_split" w _ b.paid_to_split h.paid_to_split) (
                >>=_ok _ _ (u64-append "paid_to_pool" w _ b.paid_to_pool h.paid_to_pool) (
                  >>=_ok _ _
                    (get_le-append 8 "network difficulty" w _ b.network_difficulty h.difficulty)
                    (>>=_ok _ _
                      (get_le-append 16 "cumulative work" w names b.cumulative_work h.work)
                      (>>=_ok _ _ refl (
                        ap₂ (λ f t. ok (record b { finder = f; tag_secondary = t }, cursor w names))
                          (ap utf8_lossy (before_separator_lem b.finder b.tag_secondary h.finder.0)
                            ∙ h.finder.1)
                          (ap utf8_lossy (after_separator_lem b.finder b.tag_secondary h.finder.0)
                            ∙ h.tag))))))))))
      ∙ found b.block_hash b h.hash
