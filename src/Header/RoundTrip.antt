-- ===== src/Header/RoundTrip.antt =====
-- A header is read back as it was written.
use ratum.Base.{
  ℕ, ◌+◌, ◌-◌, ◌%◌, ◌<◌, ◌^◌, ◌≡◌, refl, ap, arith, List, [], drop, subst, some, false, ltb, length,
  length-append, ok, Bool-cases, inl, inr,
}
use mathlib.Core.List.{append-nil}
use ratum.Base.Bytes.{le_bytes}
use ratum.Reader.{cursor, truncated_itself, Truncated, u8, arr}
use ratum.Reader.Laws.{>>=_ok, u16-append, u32-append, get_le-append, arr-append, run_ok}
use ratum.Header.{
  BlockHeaderV2, v2_flag, header_v2_size, uses_time_offset, time_on_wire, serialize, restore_time,
  read_fields, read_header, header_of, deserialize,
}

-- Every field fits its width, and the version has no flag.
pub record Fits (h : BlockHeaderV2) : Type 0 where
  pub version : h.version < v2_flag
  pub prev_block : length h.prev_block ≡ 32
  pub merkle_root : length h.merkle_root ≡ 32
  pub time : h.time < 2 ^ 32
  pub bits : h.bits < 2 ^ 32
  pub nonce : (h.nonce < 2 ^ 32) × (h.nonce2 < 2 ^ 32) × (h.nonce3 < 2 ^ 32)
  pub extranonce : length h.extranonce ≡ 16
  pub time_offset : h.time_offset < 2 ^ 32
  pub txcount : h.txcount < 2 ^ 16
  pub flags : h.flags < 256
  pub clear_bits : h.xor_key_mask_clear_bits < 256
  pub xor_key : length h.xor_key ≡ 16
  pub height : h.height < 2 ^ 32
  pub mm_rhs : length h.mm_rhs ≡ 32

module _ (h : BlockHeaderV2) (f : Fits h) where
  time_on_wire-lt : time_on_wire h < 2 ^ 32
  unfolding time_on_wire
  time_on_wire-lt = ground (arith, f.time)

  restore_time-time_on_wire :
      restore_time
        (record h { version = (v2_flag + h.version % v2_flag) % v2_flag; time = time_on_wire h })
      ≡ h
  unfolding restore_time time_on_wire
  restore_time-time_on_wire = elim (Bool-cases (uses_time_offset h.flags)) [
    | inl with_offset ↦
        rw with_offset (λ i. record h { version = same_version i; time = wrapped i })
    | inr without ↦ rw without (λ i. record h { version = same_version i })
  ]
    where
      same_version : (v2_flag + h.version % v2_flag) % v2_flag ≡ h.version
      same_version = omega (arith, f.version)

      wrapped : ((h.time + 2 ^ 32 - h.time_offset) % 2 ^ 32 + h.time_offset) % 2 ^ 32 ≡ h.time
      wrapped = omega (arith, f.time, f.time_offset)

  written_version : ℕ
  written_version = v2_flag + h.version % v2_flag

  read_fields-serialize :
      (w : List ℕ)
      → read_fields written_version (cursor w (drop 4 (serialize h))) ≡ ok (h, cursor w [])
  unfolding read_fields serialize u8 le_bytes written_version
  read_fields-serialize w = >>=_ok _ _ (arr-append 32 "prev block" w h.prev_block _ f.prev_block) (
      >>=_ok _ _ (arr-append 32 "merkle root" w h.merkle_root _ f.merkle_root) (
        >>=_ok _ _ (u32-append "time" w _ (time_on_wire h) time_on_wire-lt) (
          >>=_ok _ _ (u32-append "bits" w _ h.bits f.bits) (
            >>=_ok _ _ (u32-append "nonce" w _ h.nonce f.nonce.0) (
              >>=_ok _ _ (u32-append "nonce2" w _ h.nonce2 f.nonce.1) (
                >>=_ok _ _ (u32-append "nonce3" w _ h.nonce3 f.nonce.2) (
                  >>=_ok _ _ (arr-append 16 "extranonce" w h.extranonce _ f.extranonce) (
                    >>=_ok _ _ (u32-append "time offset" w _ h.time_offset f.time_offset) (
                      >>=_ok _ _ (u16-append "txcount" w _ h.txcount f.txcount) (
                        >>=_ok _ _ (get_le-append 1 "flags" w _ h.flags (omega (arith, f.flags))) (
                          >>=_ok _ _
                            (get_le-append 1 "xor key mask clear bits" w _ h.xor_key_mask_clear_bits
                              (omega (arith, f.clear_bits)))
                            (>>=_ok _ _ (arr-append 16 "xor key" w h.xor_key _ f.xor_key) (
                              >>=_ok _ _ (u32-append "height" w _ h.height f.height) (
                                >>=_ok _ _ (arr_all w) (
                                  ap (λ x. ok (x, cursor w []))
                                    restore_time-time_on_wire)))))))))))))))
    where
      arr_all :
          (w : List ℕ)
          → arr {E = Truncated} 32 "mm rhs" (cursor w h.mm_rhs) ≡ ok (h.mm_rhs, cursor w [])
      arr_all w =
          subst (λ u. arr {E = Truncated} 32 "mm rhs" (cursor w u) ≡ ok (h.mm_rhs, cursor w []))
            (append-nil h.mm_rhs) (arr-append 32 "mm rhs" w h.mm_rhs [] f.mm_rhs)

  length-serialize : length (serialize h) ≡ header_v2_size
  unfolding serialize le_bytes
  length-serialize =
      rw
        (
          length-append h.prev_block,
          length-append h.merkle_root,
          length-append h.extranonce,
          length-append h.xor_key,
        )
        (omega (arith, f.prev_block, f.merkle_root, f.extranonce, f.xor_key, f.mm_rhs))

  read_header-serialize :
      (w : List ℕ) → read_header (cursor w (serialize h)) ≡ ok (some h, cursor w [])
  unfolding read_header serialize written_version le_bytes
  read_header-serialize w =
      >>=_ok _ _ (u32-append "version" w (drop 4 (serialize h)) written_version (omega arith))
        (rw flagged (>>=_ok _ _ (read_fields-serialize w) refl))
    where
      flagged : ltb written_version v2_flag ≡ false
      flagged = ground arith

  -- A header whose fields fit their widths, with an offset of its time or without, is deserialized to
  -- itself from its 164 bytes.
  pub deserialize-serialize : deserialize (serialize h) ≡ some h
  unfolding deserialize header_of
  deserialize-serialize =
      let whole = run_ok read_header (read_header-serialize (serialize h)) in
      ground (arith, length-serialize, ap header_of whole)
