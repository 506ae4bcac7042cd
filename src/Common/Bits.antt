-- ===== src/Common/Bits.antt =====
-- Bits of machine words: the operations `&`, `|` and `~` of C read bit by bit, and masks of ones.
use Prim.Native.Nat.{
  ℕ, zero, suc, ◌+◌, ◌-◌, ◌*◌, ◌/◌, ◌%◌, ◌^◌, ◌≤◌, ◌<◌, min, max, bit_and, bit_or, digits, bitwise,
  bit_and-bitwise, bit_or-bitwise,
}
use mathlib.Core.Path.{◌≡◌, refl, ap, ◌∙◌, sym}
use mathlib.Core.Logic.{◌≢◌}
use native.Mathlib.Decide.{ℕ_discrete}
use native.Mathlib.Omega.{arith}
use native.Mathlib.Nat.{
  pow-suc, one-le-pow, le_refl, mod-lt, mod-eq_of_lt, add-mul-mod_self_left, div-add-mod,
}

-- Bit `i` of `a`, as 0 or 1.
abbrev pub bit : ℕ → ℕ → ℕ
bit a zero = a % 2
bit a (suc i) = bit (a / 2) i

-- `~a` on a word of 32 bits.
abbrev pub bit_not32 : ℕ → ℕ
bit_not32 a = 2 ^ 32 - 1 - a

pub bit-lt-two : (a i : ℕ) → bit a i < 2
bit-lt-two a zero = omega arith
bit-lt-two a (suc i) = bit-lt-two (a / 2) i

module _ (z : ℕ → ℕ) (f : ℕ → ℕ → ℕ) where
  -- More digits than the number has change nothing.
  spare_digits : (n m a b : ℕ) → a ≤ m → a ≤ n → digits z f n a b ≡ digits z f m a b
  spare_digits zero zero a b h k = refl
  spare_digits zero (suc m) zero b h k = refl
  spare_digits zero (suc m) (suc a) b h k = elim k [ ]
  spare_digits (suc n) zero zero b h k = refl
  spare_digits (suc n) zero (suc a) b h k = elim h [ ]
  spare_digits (suc n) (suc m) zero b h k = refl
  spare_digits (suc n) (suc m) (suc a) b h k =
      let half = spare_digits n m (suc a / 2) (b / 2) (omega arith) (omega arith) in
      ap (λ d. d * 2 + f (suc a % 2) (b % 2)) half

  lowest_digit :
      (a b : ℕ)
      → bitwise z f (suc a) b ≡ bitwise z f (suc a / 2) (b / 2) * 2 + f (suc a % 2) (b % 2)
  lowest_digit a b =
      ap (λ d. d * 2 + f (suc a % 2) (b % 2))
        (spare_digits a (suc a / 2) (suc a / 2) (b / 2) (le_refl _) (omega arith))

pub and_digit : (a b : ℕ) → bit_and a b ≡ bit_and (a / 2) (b / 2) * 2 + min (a % 2) (b % 2)
and_digit zero b = simp bit_and-bitwise (omega arith)
and_digit (suc a) b = simp bit_and-bitwise (lowest_digit (λ _. 0) min a b)

pub or_digit : (a b : ℕ) → bit_or a b ≡ bit_or (a / 2) (b / 2) * 2 + max (a % 2) (b % 2)
or_digit zero b = simp bit_or-bitwise (omega arith)
or_digit (suc a) b = simp bit_or-bitwise (lowest_digit (λ y. y) max a b)

-- The quotient and the remainder of a number given by its lowest digit.
digit_div : (x q r : ℕ) → x ≡ q * 2 + r → r < 2 → x / 2 ≡ q
digit_div x q r e h = omega arith

pub bit-and : (a b i : ℕ) → bit (bit_and a b) i ≡ min (bit a i) (bit b i)
bit-and a b zero = omega (arith, and_digit a b)
bit-and a b (suc i) =
    ap (λ x. bit x i) (digit_div _ _ _ (and_digit a b) (omega arith)) ∙ bit-and (a / 2) (b / 2) i

pub bit-or : (a b i : ℕ) → bit (bit_or a b) i ≡ max (bit a i) (bit b i)
bit-or a b zero = omega (arith, or_digit a b)
bit-or a b (suc i) =
    ap (λ x. bit x i) (digit_div _ _ _ (or_digit a b) (omega arith)) ∙ bit-or (a / 2) (b / 2) i

-- The complement of a word of `w` bits, below its width.
not_bits : (w a i : ℕ) → a < 2 ^ w → i < w → bit (2 ^ w - 1 - a) i ≡ 1 - bit a i
not_bits zero a i h k = elim k [ ]
not_bits (suc w) a zero h k = omega (arith, pow-suc 2 w)
not_bits (suc w) a (suc i) h k =
    ap (λ x. bit x i) halves ∙ not_bits w (a / 2) i (omega (arith, pow-suc 2 w)) (omega arith)
  where
    halves : (2 ^ suc w - 1 - a) / 2 ≡ 2 ^ w - 1 - a / 2
    halves = omega (arith, pow-suc 2 w)

-- A word below `2 ^ w` has no bit at `w` or above.
bit_above : (w a i : ℕ) → a < 2 ^ w → w ≤ i → bit a i ≡ 0
bit_above zero a zero h k = omega arith
bit_above zero a (suc i) h k = bit_above zero (a / 2) i (omega arith) (omega arith)
bit_above (suc w) a zero h k = elim k [ ]
bit_above (suc w) a (suc i) h k = bit_above w (a / 2) i (omega (arith, pow-suc 2 w)) (omega arith)

pub bit-not32 : (a i : ℕ) → a < 2 ^ 32 → i < 32 → bit (bit_not32 a) i ≡ 1 - bit a i
bit-not32 a i h k = not_bits 32 a i h k

pub bit-not32_above : (a i : ℕ) → 32 ≤ i → bit (bit_not32 a) i ≡ 0
bit-not32_above a i k = bit_above 32 (bit_not32 a) i (omega arith) k

pub bit_lt32 : (a i : ℕ) → a < 2 ^ 32 → 32 ≤ i → bit a i ≡ 0
bit_lt32 a i h k = bit_above 32 a i h k

-- A number all of whose bits are 0 is 0.
zero_bits_fuel : (n a : ℕ) → a ≤ n → ((i : ℕ) → bit a i ≡ 0) → a ≡ 0
zero_bits_fuel n zero h all = refl
zero_bits_fuel zero (suc a) h all = elim h [ ]
zero_bits_fuel (suc n) (suc a) h all =
    omega (arith, all 0, zero_bits_fuel n (suc a / 2) (omega arith) (λ i. all (suc i)))

pub zero_of_bits : (a : ℕ) → ((i : ℕ) → bit a i ≡ 0) → a ≡ 0
zero_of_bits a all = zero_bits_fuel a a (le_refl a) all

-- A number that is not 0 has a bit.
some_bit_fuel : (n a : ℕ) → a ≤ n → a ≢ 0 → (i : ℕ) × (bit a i ≡ 1)
some_bit_fuel zero a h ne = absurd (omega arith)
some_bit_fuel (suc n) a h ne = elim (ℕ_discrete (a % 2) 1) [
  | yes e ↦ (0, e)
  | no e ↦ let (i, r) = some_bit_fuel n (a / 2) (omega arith) (omega arith) in (suc i, r)
]

pub some_bit : (a : ℕ) → a ≢ 0 → (i : ℕ) × (bit a i ≡ 1)
some_bit a ne = some_bit_fuel a a (le_refl a) ne

pub bit_zero : (i : ℕ) → bit 0 i ≡ 0
bit_zero zero = refl
bit_zero (suc i) = bit_zero i

-- Two words with no common bit, read bit by bit.
pub disjoint_bits : (a b i : ℕ) → bit_and a b ≡ 0 → min (bit a i) (bit b i) ≡ 0
disjoint_bits a b i e = omega (arith, bit-and a b i, ap (λ x. bit x i) e, bit_zero i)

pub disjoint_of_bits : (a b : ℕ) → ((i : ℕ) → min (bit a i) (bit b i) ≡ 0) → bit_and a b ≡ 0
disjoint_of_bits a b all = zero_of_bits (bit_and a b) (λ i. bit-and a b i ∙ all i)

pub and_comm_zero : (a b : ℕ) → bit_and a b ≡ 0 → bit_and b a ≡ 0
and_comm_zero a b e = disjoint_of_bits b a (λ i. omega (arith, disjoint_bits a b i e))

pub or_disjoint : (a b c : ℕ) → bit_and a c ≡ 0 → bit_and b c ≡ 0 → bit_and (bit_or a b) c ≡ 0
or_disjoint a b c p q =
    disjoint_of_bits _ c
      (λ i. omega (arith, bit-or a b i, disjoint_bits a c i p, disjoint_bits b c i q))

pub and_disjoint : (a b c : ℕ) → bit_and a c ≡ 0 → bit_and (bit_and a b) c ≡ 0
and_disjoint a b c p =
    disjoint_of_bits _ c (λ i. omega (arith, bit-and a b i, disjoint_bits a c i p))

pub zero-bit_and : (b : ℕ) → bit_and 0 b ≡ 0
zero-bit_and b = bit_and-bitwise 0 b

pub shared_bit : (a b i : ℕ) → bit a i ≡ 1 → bit b i ≡ 1 → bit_and a b ≢ 0
shared_bit a b i p q e = omega (arith, disjoint_bits a b i e)

pub common_bit : (a b : ℕ) → bit_and a b ≢ 0 → (i : ℕ) × (bit a i ≡ 1) × (bit b i ≡ 1)
common_bit a b ne =
    let (i, e) = some_bit (bit_and a b) ne in
    (
      i,
      omega (arith, e, bit-and a b i, bit-lt-two a i),
      omega (arith, e, bit-and a b i, bit-lt-two b i),
    )

-- Masks: `x & (2^k - 1)` is `x % 2^k`.
abbrev pub low_mask : ℕ → ℕ
low_mask k = 2 ^ k - 1

mod_double : (a m : ℕ) → 0 < m → (a / 2) % m * 2 + a % 2 ≡ a % (m * 2)
mod_double a m h =
    sym (mod-eq_of_lt small)
    ∙ sym (add-mul-mod_self_left (r * 2 + a % 2) (m * 2) q)
    ∙ ap (λ x. x % (m * 2)) split
  where
    q : ℕ
    q = a / 2 / m

    r : ℕ
    r = (a / 2) % m

    small : r * 2 + a % 2 < m * 2
    small = omega (arith, mod-lt (a / 2) {m = m} h)

    split : r * 2 + a % 2 + m * 2 * q ≡ a
    split = omega (arith, div-add-mod (a / 2) m)

pub and-low_mask : (a k : ℕ) → bit_and a (low_mask k) ≡ a % 2 ^ k
and-low_mask a zero = zero_of_bits _ (λ i. omega (arith, bit-and a 0 i, bit_zero i)) ∙ omega arith
and-low_mask a (suc k) = omega (
  arith,
  and_digit a (low_mask (suc k)),
  ap (bit_and (a / 2)) (halves (one-le-pow k 2 (omega arith))),
  and-low_mask (a / 2) k,
  mod_double a (2 ^ k) (one-le-pow k 2 (omega arith)),
  ap (λ m. a % m) (pow-suc 2 k),
  pow-suc 2 k,
  one-le-pow k 2 (omega arith),
)
  where
    halves : 1 ≤ 2 ^ k → low_mask (suc k) / 2 ≡ low_mask k
    halves h = omega (arith, pow-suc 2 k)

-- Ring pointers: with `2 ^ k` slots every masked value is a slot, and the mask is `% 2 ^ k`.
pub and_mask-lt : (a k : ℕ) → bit_and a (low_mask k) < 2 ^ k
and_mask-lt a k =
    omega (arith, and-low_mask a k, mod-lt a {m = 2 ^ k} (one-le-pow k 2 (omega arith)))
