-- ===== src/Volume/Bits.antt =====
-- fs.rs: one bit of a block of the bit map changes, and no other.
use web_os.Prelude.{
  ℕ, ◌/◌, ◌%◌, ◌<◌, ◌≡◌, ◌∙◌, not, ◌&&◌, ◌||◌, length, arith, ◌==◌, if_intro, if_ap, ==_sound, ap,
  true, false, if◌then◌else◌,
}
use web_os.Prelude.Bytes.{
  bit_isset, with_bit, without_bit, bit_isset-with_bit, bit_isset-without_bit, with_bit-lt,
  without_bit-lt, byte_at, set_byte, byte_at-set_byte,
}
use web_os.BlockStore.{Block}
use web_os.Volume.{bit_used, mark, unmark, bpb, block_words}

module _ (block : Block) (i j : ℕ) (whole : length block ≡ block_words) (hi : i < bpb) where
  abbrev byte : ℕ
  byte = byte_at block (i / 8)

  byte-lt : byte < 256
  byte-lt = omega arith

  same_bit : (i / 8 == j / 8) ≡ true → (i % 8 == j % 8) ≡ (i == j)
  same_bit e = ground (arith, e)

  other_bit : (i / 8 == j / 8) ≡ false → (i == j) ≡ false
  other_bit e = ground (arith, e)

  same_byte : (i / 8 == j / 8) ≡ true → byte ≡ byte_at block (j / 8)
  same_byte e = ap (byte_at block) (==_sound (i / 8) (j / 8) e)

  bit_used-set_byte :
      (w : ℕ)
      → w < 256
      → bit_used (set_byte block (i / 8) w) j
        ≡ (if i / 8 == j / 8 then bit_isset w (j % 8) else bit_used block j)
  bit_used-set_byte w hw =
      ap (λ x. bit_isset x (j % 8))
        (byte_at-set_byte block (i / 8) (j / 8) w hw (omega (arith, whole, hi)))
      ∙ if_ap (λ x. bit_isset x (j % 8)) (i / 8 == j / 8) w (byte_at block (j / 8))

  pub bit_used-mark : bit_used (mark block i) j ≡ (i == j || bit_used block j)
  bit_used-mark =
      bit_used-set_byte (with_bit byte (i % 8)) (with_bit-lt byte (i % 8) byte-lt (omega arith))
      ∙ if_intro (λ b. b ≡ (i == j || bit_used block j)) (i / 8 == j / 8) _ _
          (λ e.
            bit_isset-with_bit byte (i % 8) (j % 8) byte-lt (omega arith) (omega arith)
            ∙ cc (same_bit e, same_byte e))
          (λ e. cc (other_bit e))

  pub bit_used-unmark : bit_used (unmark block i) j ≡ (not (i == j) && bit_used block j)
  bit_used-unmark =
      bit_used-set_byte (without_bit byte (i % 8))
        (without_bit-lt byte (i % 8) byte-lt (omega arith))
      ∙ if_intro (λ b. b ≡ (not (i == j) && bit_used block j)) (i / 8 == j / 8) _ _
          (λ e.
            bit_isset-without_bit byte (i % 8) (j % 8) byte-lt (omega arith) (omega arith)
            ∙ cc (same_bit e, same_byte e))
          (λ e. cc (other_bit e))
