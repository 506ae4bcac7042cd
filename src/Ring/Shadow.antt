-- ===== src/Ring/Shadow.antt =====
-- The mapping of an NDP ring into a process (ndp/ring.c, `ndp_ring_mmap`) shows the ring twice, one behind the other.
use native.Mathlib.Nat.{mul-le-mul_right, mul-div_left}
use ndk_sw_bachelor_thesis.Common.{
  ℕ, zero, suc, ◌+◌, ◌-◌, ◌*◌, ◌/◌, ◌<◌, ◌≤◌, ◌≡◌, refl, ap, subst, true, false, Bool-cases, inl,
  inr, some, List, [], ◌∷◌, ltb, leb, if◌then◌else◌, arith,
}
use ndk_sw_bachelor_thesis.Ring.{ring_of, reduce, map_blocks}

module _ (count size : ℕ) (some_block : 0 < count) (some_size : 0 < size) where
  -- The block at the `k`-th place.
  abbrev pub shown : ℕ → ℕ
  shown k = if ltb k count then k else k - count

  abbrev pub parts_from : ℕ → ℕ → List (ℕ × ℕ)
  parts_from k zero = []
  parts_from k (suc n) = (k * size, shown k) ∷ parts_from (suc k) n

  reduce_lem : (k : ℕ) → k < 2 * count → reduce 3 (count * size) (k * size) ≡ some (shown k * size)
  unfolding reduce
  reduce_lem k h = elim (Bool-cases (ltb k count)) [
    | inl first ↦
        let lt : k < count = ground (arith, first) in
        let m : (k + 1) * size ≤ count * size = mul-le-mul_right size (omega arith) in
        let below : leb (count * size) (k * size) ≡ false = ground (arith, m, some_size) in
        rw (below, first) refl
    | inr second ↦
        let ge : count ≤ k = ground (arith, second) in
        let m : count * size ≤ k * size = mul-le-mul_right size ge in
        let n : (k - count + 1) * size ≤ count * size = mul-le-mul_right size (omega (arith, ge)) in
        let parts : k - count + count ≡ k = omega (arith, ge) in
        let split : (k - count) * size + count * size ≡ k * size =
          omega (arith, ap (λ z. z * size) parts) in
        let diff : k * size - count * size ≡ (k - count) * size = omega (arith, split) in
        let above : leb (count * size) (k * size) ≡ true = ground (arith, m) in
        let below : leb (count * size) ((k - count) * size) ≡ false =
          ground (arith, n, some_size) in
        rw (above, diff, below, second) refl
  ]

  map_blocks_lem :
      (n k fuel : ℕ)
      → k + n ≡ 2 * count
      → n < fuel
      → map_blocks fuel (ring_of count size) (2 * (count * size)) (k * size) ≡ some (parts_from k n)
  unfolding map_blocks
  map_blocks_lem n k zero e h = absurd (omega arith)
  map_blocks_lem zero k (suc fuel) e h =
      let all : k ≡ 2 * count = omega (arith, e) in
      let scaled : k * size ≡ 2 * (count * size) = omega (arith, ap (λ z. z * size) all) in
      let end : ltb (k * size) (2 * (count * size)) ≡ false = ground (arith, scaled) in
      rw (end, map_blocks) refl
  map_blocks_lem (suc n) k (suc fuel) e h =
      let m : (k + 1) * size ≤ 2 * count * size = mul-le-mul_right size (omega (arith, e)) in
      let more : ltb (k * size) (2 * (count * size)) ≡ true = ground (arith, m, some_size) in
      let next : k * size + size ≡ suc k * size = omega arith in
      let cancel : shown k * size / size ≡ shown k = mul-div_left (shown k) some_size in
      rw
        (
          more,
          reduce_lem k (omega (arith, e)),
          next,
          map_blocks_lem n (suc k) fuel (omega (arith, e)) (omega arith),
          cancel,
          map_blocks,
        )
        refl

-- The mapping of a ring of at least one block of some size, of twice the ring's size, shows the block `k` at the
-- distance of `k` blocks, and all blocks once more in the same order behind the last one.
pub map_shadows :
    (count size : ℕ)
    → (some_block : 0 < count) → (some_size : 0 < size)
    → map_blocks (suc (2 * count)) (ring_of count size) (ring_of count size).mmap_size 0
      ≡ some (parts_from count size some_block some_size 0 (2 * count))
map_shadows count size some_block some_size =
    let start : 0 * size ≡ 0 = omega arith in
    subst
      (λ o.
        map_blocks (suc (2 * count)) (ring_of count size) (2 * (count * size)) o
        ≡ some (parts_from count size some_block some_size 0 (2 * count)))
      start
      (map_blocks_lem count size some_block some_size (2 * count) 0 (suc (2 * count)) (omega arith)
        (omega arith))
