-- ===== src/Prelude/Bytes.antt =====
-- Bytes: their bits by the native bit operations, and the bytes of 32-bit words.
use Prim.Native.Nat.{bit_and, bit_or}
use native.Mathlib.Decide.{ℕ_discrete}
use web_os.Prelude.{
  ℕ, zero, suc, ◌+◌, ◌-◌, ◌*◌, ◌/◌, ◌%◌, ◌^◌, ◌<◌, ◌≡◌, refl, Bool, true, false, not, ◌&&◌, ◌||◌,
  List, arith, length, get_or, get_or-set_self, get_or-set_ne, set, ◌≢◌, ltb, ◌==◌, if◌then◌else◌,
}

-- `byte & (1 << i) != 0`, `byte | (1 << i)` and `byte & !(1 << i)`.
abbrev pub bit_isset : ℕ → ℕ → Bool
bit_isset byte i = not (bit_and byte (2 ^ i) == 0)

abbrev pub with_bit : ℕ → ℕ → ℕ
with_bit byte i = bit_or byte (2 ^ i)

abbrev pub without_bit : ℕ → ℕ → ℕ
without_bit byte i = bit_and byte (255 - 2 ^ i)

-- Whether a test passes on the numbers up to a bound, the bound left out.
passes : (ℕ → Bool) → ℕ → Bool
passes test zero = true
passes test (suc bound) = if test bound then passes test bound else false

passes_at : (test : ℕ → Bool) (bound k : ℕ) → k < bound → passes test bound ≡ true → test k ≡ true
unfolding passes
passes_at test zero k inside h = absurd (omega (arith, inside))
passes_at test (suc bound) k inside h = ground (arith, inside, h, passes_at test bound k)

agree : Bool → Bool → Bool
agree true b = b
agree false b = not b

agree_sound : (a b : Bool) → agree a b ≡ true → a ≡ b
unfolding agree
agree_sound a b h = ground arith

four :
    (a b c d : Bool)
    → (a && (b && (c && d))) ≡ true
    → (a ≡ true) × (b ≡ true) × (c ≡ true) × (d ≡ true)
four a b c d h = (ground arith, ground arith, ground arith, ground arith)

ltb_sound : (a : ℕ) → ltb a 256 ≡ true → a < 256
ltb_sound a h = ground arith

-- What holds of one byte `x` and two of its bits.
abbrev obeys : ℕ → ℕ → ℕ → Bool
obeys x i j =
    agree (bit_isset (with_bit x i) j) (i == j || bit_isset x j)
    && (agree (bit_isset (without_bit x i) j) (not (i == j) && bit_isset x j)
        && (ltb (with_bit x i) 256 && ltb (without_bit x i) 256))

laws_table : passes (λ i. passes (λ j. passes (λ x. obeys x i j) 256) 8) 8 ≡ true
unfolding passes agree
laws_table = refl

module _ (x i j : ℕ) (hx : x < 256) (hi : i < 8) (hj : j < 8) where
  laws : obeys x i j ≡ true
  laws = passes_at _ 256 x hx (passes_at _ 8 j hj (passes_at _ 8 i hi laws_table))

  laws_split :
      (agree (bit_isset (with_bit x i) j) (i == j || bit_isset x j) ≡ true)
      × (agree (bit_isset (without_bit x i) j) (not (i == j) && bit_isset x j) ≡ true)
      × (ltb (with_bit x i) 256 ≡ true)
      × (ltb (without_bit x i) 256 ≡ true)
  laws_split =
      four (agree (bit_isset (with_bit x i) j) (i == j || bit_isset x j))
        (agree (bit_isset (without_bit x i) j) (not (i == j) && bit_isset x j))
        (ltb (with_bit x i) 256) (ltb (without_bit x i) 256) laws

  pub bit_isset-with_bit : bit_isset (with_bit x i) j ≡ (i == j || bit_isset x j)
  bit_isset-with_bit = agree_sound _ _ laws_split.0

  pub bit_isset-without_bit : bit_isset (without_bit x i) j ≡ (not (i == j) && bit_isset x j)
  bit_isset-without_bit = agree_sound _ _ laws_split.1

pub with_bit-lt : (x i : ℕ) → x < 256 → i < 8 → with_bit x i < 256
with_bit-lt x i hx hi = ltb_sound _ (laws_split x i 0 hx hi (omega arith)).2

pub without_bit-lt : (x i : ℕ) → x < 256 → i < 8 → without_bit x i < 256
without_bit-lt x i hx hi = ltb_sound _ (laws_split x i 0 hx hi (omega arith)).3

-- Byte `r` of a word, and the word with that byte replaced.
abbrev pub word_byte : ℕ → ℕ → ℕ
word_byte w r = w / 256 ^ r % 256

abbrev pub set_word_byte : ℕ → ℕ → ℕ → ℕ
set_word_byte w r v = w - word_byte w r * 256 ^ r + v * 256 ^ r

word_byte-set :
    (w v r s : ℕ)
    → v < 256
    → r < 4
    → s < 4
    → word_byte (set_word_byte w r v) s ≡ (if r == s then v else word_byte w s)
word_byte-set w v zero zero hv hr hs = omega arith
word_byte-set w v zero (suc zero) hv hr hs = omega arith
word_byte-set w v zero (suc (suc zero)) hv hr hs = omega arith
word_byte-set w v zero (suc (suc (suc zero))) hv hr hs = omega arith
word_byte-set w v zero (suc (suc (suc (suc s)))) hv hr hs = absurd (omega arith)
word_byte-set w v (suc zero) zero hv hr hs = omega arith
word_byte-set w v (suc zero) (suc zero) hv hr hs = omega arith
word_byte-set w v (suc zero) (suc (suc zero)) hv hr hs = omega arith
word_byte-set w v (suc zero) (suc (suc (suc zero))) hv hr hs = omega arith
word_byte-set w v (suc zero) (suc (suc (suc (suc s)))) hv hr hs = absurd (omega arith)
word_byte-set w v (suc (suc zero)) zero hv hr hs = omega arith
word_byte-set w v (suc (suc zero)) (suc zero) hv hr hs = omega arith
word_byte-set w v (suc (suc zero)) (suc (suc zero)) hv hr hs = omega arith
word_byte-set w v (suc (suc zero)) (suc (suc (suc zero))) hv hr hs = omega arith
word_byte-set w v (suc (suc zero)) (suc (suc (suc (suc s)))) hv hr hs = absurd (omega arith)
word_byte-set w v (suc (suc (suc zero))) zero hv hr hs = omega arith
word_byte-set w v (suc (suc (suc zero))) (suc zero) hv hr hs = omega arith
word_byte-set w v (suc (suc (suc zero))) (suc (suc zero)) hv hr hs = omega arith
word_byte-set w v (suc (suc (suc zero))) (suc (suc (suc zero))) hv hr hs = omega arith
word_byte-set w v (suc (suc (suc zero))) (suc (suc (suc (suc s)))) hv hr hs = absurd (omega arith)
word_byte-set w v (suc (suc (suc (suc r)))) s hv hr hs = absurd (omega arith)

-- The bytes of a block of words.
abbrev pub byte_at : List ℕ → ℕ → ℕ
byte_at block k = word_byte (get_or block (k / 4) 0) (k % 4)

abbrev pub set_byte : List ℕ → ℕ → ℕ → List ℕ
set_byte block k v = set block (k / 4) (set_word_byte (get_or block (k / 4) 0) (k % 4) v)

pub byte_at-set_byte :
    (block : List ℕ) (k j v : ℕ)
    → v < 256
    → k / 4 < length block
    → byte_at (set_byte block k v) j ≡ (if k == j then v else byte_at block j)
byte_at-set_byte block k j v hv h = elim (ℕ_discrete (k / 4) (j / 4)) [
  | yes same ↦ here same
  | no apart ↦
      cc (
        get_or-set_ne block (set_word_byte (get_or block (k / 4) 0) (k % 4) v) 0 apart,
        other apart,
      )
]
  where
    word : ℕ
    word = get_or block (k / 4) 0

    here : k / 4 ≡ j / 4 → byte_at (set_byte block k v) j ≡ (if k == j then v else byte_at block j)
    here same = ground (
      arith,
      get_or-set_self block (k / 4) (set_word_byte word (k % 4) v) 0 h,
      word_byte-set word v (k % 4) (j % 4) hv (omega arith) (omega arith),
    )

    other : k / 4 ≢ j / 4 → (k == j) ≡ false
    other apart = ground arith
