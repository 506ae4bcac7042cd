-- ===== src/Boot/Reverse.antt =====
-- What the table of bit_reverse_table.c and the two loops over it do to the bits.
use native.Mathlib.Nat.{pow-suc, mul_assoc, le_refl}
use native.Mathlib.Decide.{dec_le, ℕ_discrete}
use ndk_sw_bachelor_thesis.Common.{
  ℕ, zero, suc, ◌+◌, ◌-◌, ◌*◌, ◌/◌, ◌%◌, ◌^◌, ◌≤◌, ◌<◌, ◌≡◌, refl, sym, ap, ◌∙◌, bit_and, bit_or,
  Bool, true, ◌&&◌, List, [], ◌∷◌, arith, ◌==◌, ltb,
}
use ndk_sw_bachelor_thesis.Common.Bits.{bit, or_digit, and-low_mask}
use Prim.Native.Nat.{bit_or-bitwise}
use ndk_sw_bachelor_thesis.Boot.{
  bit_reverse, reverse_bits16, nfb_fw_bitstream_reverse_bits_8, nfb_fw_bitstream_reverse_bits_16,
}

-- All numbers below `n`.
abbrev all_below : (ℕ → Bool) → ℕ → Bool
all_below p zero = true
all_below p (suc n) = let rest = all_below p n in p n && rest

all_below_lem : (p : ℕ → Bool) (n i : ℕ) → all_below p n ≡ true → i < n → p i ≡ true
all_below_lem p zero i e h = absurd (omega arith)
all_below_lem p (suc n) i e h = elim (ℕ_discrete i n) [
  | yes same ↦ rw same (ground arith)
  | no ne ↦ all_below_lem p n i (ground arith) (omega arith)
]

abbrev reverses_bits : ℕ → Bool
reverses_bits b = all_below (λ i. bit (bit_reverse b) i == bit b (7 - i)) 8

abbrev is_good : ℕ → Bool
is_good b = ltb (bit_reverse b) 256 && bit_reverse (bit_reverse b) == b && reverses_bits b

table_checked : all_below is_good 256 ≡ true
unfolding bit_reverse
table_checked = refl

pub bit-bit_reverse : (b i : ℕ) → b < 256 → i < 8 → bit (bit_reverse b) i ≡ bit b (7 - i)
bit-bit_reverse b i hb hi =
    let good = all_below_lem is_good 256 b table_checked hb in
    let bits = all_below_lem (λ j. bit (bit_reverse b) j == bit b (7 - j)) 8 i (ground arith) hi in
    ground arith

pub reverse_small : (b : ℕ) → b < 256 → bit_reverse b < 256
reverse_small b h = let good = all_below_lem is_good 256 b table_checked h in ground arith

pub reverse_twice : (b : ℕ) → b < 256 → bit_reverse (bit_reverse b) ≡ b
reverse_twice b h = let good = all_below_lem is_good 256 b table_checked h in ground arith

-- The parts of a number whose lowest `w` bits are `b`.
shift_suc : (w a : ℕ) → a * 2 ^ suc w ≡ 2 * (a * 2 ^ w)
shift_suc w a = ap (λ x. a * x) (pow-suc 2 w) ∙ sym (mul_assoc a (2 ^ w) 2) ∙ omega arith

low_bit : (w a b i : ℕ) → b < 2 ^ w → i < w → bit (a * 2 ^ w + b) i ≡ bit b i
low_bit zero a b i h k = absurd (omega arith)
low_bit (suc w) a b zero h k = omega (arith, shift_suc w a)
low_bit (suc w) a b (suc i) h k =
    ap (λ x. bit x i) {y = a * 2 ^ w + b / 2} (omega (arith, shift_suc w a))
    ∙ low_bit w a (b / 2) i (omega (arith, pow-suc 2 w)) (omega arith)

high_bit : (w a b i : ℕ) → b < 2 ^ w → bit (a * 2 ^ w + b) (w + i) ≡ bit a i
high_bit zero a b i h =
    ap (bit (a * 2 ^ 0 + b)) {x = 0 + i} {y = i} (omega arith)
    ∙ ap (λ x. bit x i) {x = a * 2 ^ 0 + b} {y = a} (omega arith)
high_bit (suc w) a b i h =
    ap (bit (a * 2 ^ suc w + b)) {x = suc w + i} {y = suc (w + i)} (omega arith)
    ∙ ap (λ x. bit x (w + i)) {y = a * 2 ^ w + b / 2} (omega (arith, shift_suc w a))
    ∙ high_bit w a (b / 2) i (omega (arith, pow-suc 2 w))

or_zero_fuel : (fuel x : ℕ) → x ≤ fuel → bit_or x 0 ≡ x
or_zero_fuel fuel zero h = bit_or-bitwise 0 0
or_zero_fuel zero (suc x) h = absurd (omega arith)
or_zero_fuel (suc fuel) (suc x) h =
    omega (arith, or_digit (suc x) 0, or_zero_fuel fuel (suc x / 2) (omega arith))

or_shift : (w a b : ℕ) → b < 2 ^ w → bit_or (a * 2 ^ w) b ≡ a * 2 ^ w + b
or_shift zero a b h =
    ap (bit_or (a * 2 ^ 0)) {x = b} {y = 0} (omega arith)
    ∙ or_zero_fuel _ (a * 2 ^ 0) (le_refl _)
    ∙ omega arith
or_shift (suc w) a b h = omega (
  arith,
  shift_suc w a,
  or_digit (a * 2 ^ suc w) b,
  ap (λ x. bit_or x (b / 2)) {x = a * 2 ^ suc w / 2} {y = a * 2 ^ w} (omega (arith, shift_suc w a)),
  or_shift w a (b / 2) (omega (arith, pow-suc 2 w)),
)

-- A word of two bytes.
word_lem :
    (low high : ℕ)
    → low < 256
    → high < 256
    → reverse_bits16 (low + 256 * high) ≡ bit_reverse low * 256 + bit_reverse high
unfolding reverse_bits16
word_lem low high hl hh =
    rw (first, second)
      (ap (λ x. bit_or x (bit_reverse high)) (bit_or-bitwise 0 _ ∙ within)
        ∙ or_shift 8 (bit_reverse low) (bit_reverse high) (reverse_small high hh))
  where
    first : bit_and (low + 256 * high) 255 ≡ low
    first = and-low_mask (low + 256 * high) 8 ∙ omega arith

    second : bit_and ((low + 256 * high) / 256) 255 ≡ high
    second = and-low_mask ((low + 256 * high) / 256) 8 ∙ omega arith

    within : bit_reverse low * 2 ^ 8 % 2 ^ 16 ≡ bit_reverse low * 2 ^ 8
    within = omega (arith, reverse_small low hl)

abbrev pub AreBytes : List ℕ → Type 0
AreBytes [] = Unit
AreBytes (b ∷ bytes) = (b < 256) × AreBytes bytes

-- `reverseBits16` turns a word of 16 bits round: bit `i` of the result is bit `15 - i` of the word.
pub bit-reverse_bits16 : (w i : ℕ) → w < 2 ^ 16 → i < 16 → bit (reverse_bits16 w) i ≡ bit w (15 - i)
bit-reverse_bits16 w i hw hi =
    let low = w % 256 in
    let high = w / 256 in
    let split : w ≡ low + 256 * high = omega arith in
    let parts : w ≡ high * 2 ^ 8 + low = omega arith in
    let word : reverse_bits16 w ≡ bit_reverse low * 2 ^ 8 + bit_reverse high =
      ap reverse_bits16 split ∙ word_lem low high (omega arith) (omega arith) in
    elim (dec_le 8 i) [
      | no small ↦
          ap (λ x. bit x i) word
          ∙ low_bit 8 (bit_reverse low) (bit_reverse high) i (reverse_small high (omega arith))
              (omega arith)
          ∙ bit-bit_reverse high i (omega arith) (omega arith)
          ∙ sym (high_bit 8 high low (7 - i) (omega arith))
          ∙ ap (bit (high * 2 ^ 8 + low)) {x = 8 + (7 - i)} {y = 15 - i} (omega arith)
          ∙ ap (λ x. bit x (15 - i)) (sym parts)
      | yes large ↦
          ap (λ x. bit x i) word
          ∙ ap (bit (bit_reverse low * 2 ^ 8 + bit_reverse high)) {x = i} {y = 8 + (i - 8)}
              (omega arith)
          ∙ high_bit 8 (bit_reverse low) (bit_reverse high) (i - 8)
              (reverse_small high (omega arith))
          ∙ bit-bit_reverse low (i - 8) (omega arith) (omega arith)
          ∙ ap (bit low) {x = 7 - (i - 8)} {y = 15 - i} (omega arith)
          ∙ sym (low_bit 8 high low (15 - i) (omega arith) (omega arith))
          ∙ ap (λ x. bit x (15 - i)) (sym parts)
    ]

-- One step of the loop over words.
pair_lem :
    (low high : ℕ) (bytes : List ℕ)
    → low < 256
    → high < 256
    → nfb_fw_bitstream_reverse_bits_16 (low ∷ high ∷ bytes)
      ≡ bit_reverse high ∷ bit_reverse low ∷ nfb_fw_bitstream_reverse_bits_16 bytes
unfolding nfb_fw_bitstream_reverse_bits_16
pair_lem low high bytes hl hh =
    let word = word_lem low high hl hh in
    let a : reverse_bits16 (low + 2 ^ 8 * high) % 2 ^ 8 ≡ bit_reverse high =
      omega (arith, word, reverse_small high hh) in
    let b : reverse_bits16 (low + 2 ^ 8 * high) / 2 ^ 8 ≡ bit_reverse low =
      omega (arith, word, reverse_small high hh) in
    rw (a, b) refl

-- Turning the words round twice gives the data back, of even length or odd. The data are bytes.
pub reverse_bits_16-twice :
    (bytes : List ℕ)
    → AreBytes bytes
    → nfb_fw_bitstream_reverse_bits_16 (nfb_fw_bitstream_reverse_bits_16 bytes) ≡ bytes
unfolding nfb_fw_bitstream_reverse_bits_16
reverse_bits_16-twice [] h = refl
reverse_bits_16-twice (b ∷ []) h = refl
reverse_bits_16-twice (low ∷ high ∷ bytes) (hl, (hh, h)) =
    ap nfb_fw_bitstream_reverse_bits_16 (pair_lem low high bytes hl hh)
    ∙ pair_lem (bit_reverse high) (bit_reverse low) (nfb_fw_bitstream_reverse_bits_16 bytes)
        (reverse_small high hh) (reverse_small low hl)
    ∙ ap
        (λ l.
          l
          ∷ bit_reverse (bit_reverse high)
          ∷ nfb_fw_bitstream_reverse_bits_16 (nfb_fw_bitstream_reverse_bits_16 bytes))
        (reverse_twice low hl)
    ∙ ap
        (λ h'. low ∷ h' ∷ nfb_fw_bitstream_reverse_bits_16 (nfb_fw_bitstream_reverse_bits_16 bytes))
        (reverse_twice high hh)
    ∙ ap (λ rest. low ∷ high ∷ rest) (reverse_bits_16-twice bytes h)

-- The same for the loop over bytes.
pub reverse_bits_8-twice :
    (bytes : List ℕ)
    → AreBytes bytes
    → nfb_fw_bitstream_reverse_bits_8 (nfb_fw_bitstream_reverse_bits_8 bytes) ≡ bytes
unfolding nfb_fw_bitstream_reverse_bits_8
reverse_bits_8-twice [] h = refl
reverse_bits_8-twice (b ∷ bytes) (hb, h) =
    rw (reverse_twice b hb, reverse_bits_8-twice bytes h) refl
