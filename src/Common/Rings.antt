-- ===== src/Common/Rings.antt =====
-- Pointers into a ring of `2 ^ k` slots, kept in words of `w` bits and masked by `2 ^ k - 1`.
use Prim.Native.Nat.{ℕ, zero, suc, ◌+◌, ◌-◌, ◌*◌, ◌/◌, ◌%◌, ◌^◌, ◌≤◌, ◌<◌, bit_and}
use mathlib.Core.Path.{◌≡◌, ap, ◌∙◌}
use native.Mathlib.Omega.{arith}
use native.Mathlib.Nat.{
  pow-suc, one-le-pow, mod-lt, mod-eq_of_lt, add-mul-mod_self_left, div-add-mod, mod-mod_of_dvd,
  lt_of_mul-lt-mul_left, mul-le-mul_left,
}
use native.Mathlib.Decide.{dec_le}
use ndk_sw_bachelor_thesis.Common.Bits.{low_mask, and-low_mask}

-- A power of two is a multiple of every smaller one.
factor : (k w : ℕ) → k ≤ w → (c : ℕ) × (2 ^ w ≡ 2 ^ k * c)
factor k zero h = (1, ap (λ x. 2 ^ x) {x = 0} {y = k} (omega arith) ∙ omega arith)
factor k (suc w) h = elim (dec_le k w) [
  | yes p ↦ let (c, e) = factor k w p in (c * 2, omega (arith, pow-suc 2 w, e))
  | no p ↦ (1, ap (λ x. 2 ^ x) {x = suc w} {y = k} (omega arith) ∙ omega arith)
]

-- Division with remainder determines the remainder.
remainder : (m x l d : ℕ) → l < m → x ≡ l + m * d → x % m ≡ l
remainder m x l d h e = ap (λ y. y % m) e ∙ add-mul-mod_self_left l m d ∙ mod-eq_of_lt h

-- A remainder below `2 m` that is a multiple of `m` and not 0 is `m`.
one_multiple : (m t d : ℕ) → m * d ≡ t → 0 < t → t < m + m → t ≡ m
one_multiple m t zero e p q = absurd (omega arith)
one_multiple m t (suc zero) e p q = omega arith
one_multiple m t (suc (suc d)) e p q =
    let big : m * 2 ≤ m * suc (suc d) = mul-le-mul_left m (omega arith) in absurd (omega arith)

equal_multiples : (m t x y : ℕ) → m * x + t ≡ m * y → 0 < t → t < m + m → t ≡ m
equal_multiples m t x y e p q = one_multiple m t (y - x) (omega (arith, spread)) p q
  where
    below : x < y
    below = lt_of_mul-lt-mul_left m (omega arith)

    spread : m * (y - x) + m * x ≡ m * y
    spread = omega (arith, ap (λ z. m * z) {x = y - x + x} {y = y} (omega (arith, below)))

module _ (k w : ℕ) (fits : k ≤ w) where
  -- Cutting a word to its width first makes no difference to a masked value.
  pub cut_word : (x : ℕ) → x % 2 ^ w % 2 ^ k ≡ x % 2 ^ k
  cut_word x = let (c, e) = factor k w fits in mod-mod_of_dvd (2 ^ k) x ∣ (c, e) ∣₁

  pub masked_word : (x : ℕ) → bit_and (x % 2 ^ w) (low_mask k) ≡ x % 2 ^ k
  masked_word x = and-low_mask (x % 2 ^ w) k ∙ cut_word x

  slots : 0 < 2 ^ k
  slots = one-le-pow k 2 (omega arith)

  -- Free slots, `(head - tail - 1) & mask`, and used slots, `(tail - head) & mask`: together they are
  -- all slots but one.
  pub free-add-used :
      (head tail : ℕ)
      → head < 2 ^ w
      → tail < 2 ^ w
      → (head + 2 ^ w - tail + 2 ^ w - 1) % 2 ^ k + (tail + 2 ^ w - head) % 2 ^ k + 1 ≡ 2 ^ k
  free-add-used head tail hh ht =
      let (c, e) = factor k w fits in
      let free = head + 2 ^ w - tail + 2 ^ w - 1 in
      let used = tail + 2 ^ w - head in
      equal_multiples (2 ^ k) (free % 2 ^ k + used % 2 ^ k + 1) (free / 2 ^ k + used / 2 ^ k)
        (c * 3) (omega (arith, div-add-mod free (2 ^ k), div-add-mod used (2 ^ k), e, slots))
        (omega arith) (omega (arith, mod-lt free {m = 2 ^ k} slots, mod-lt used {m = 2 ^ k} slots))

  -- A pointer moved on by `l` slots is `l` slots ahead.
  pub advance : (s l : ℕ) → s < 2 ^ w → l < 2 ^ k → ((s + l) % 2 ^ k + 2 ^ w - s) % 2 ^ k ≡ l
  advance s l hs hl =
      let (c, e) = factor k w fits in
      let q = (s + l) / 2 ^ k in
      let below : 2 ^ k * q ≤ s + l = omega (arith, div-add-mod (s + l) (2 ^ k)) in
      let under : q < c + 1 = lt_of_mul-lt-mul_left (2 ^ k) (omega (arith, below, e)) in
      let split : 2 ^ k * (c - q) + 2 ^ k * q ≡ 2 ^ k * c =
        omega (arith, ap (λ z. 2 ^ k * z) {x = c - q + q} {y = c} (omega (arith, under))) in
      remainder (2 ^ k) ((s + l) % 2 ^ k + 2 ^ w - s) l (c - q) hl
        (omega (arith, split, e, div-add-mod (s + l) (2 ^ k)))
