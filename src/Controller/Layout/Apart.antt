-- ===== src/Controller/Layout/Apart.antt =====
-- The buffers of a Medusa ring (ndp/ctrl_ndp.c) do not overlap, by the arithmetic of the walk.
use native.Mathlib.Nat.{mod-eq_of_lt, mul-le-mul_right}
use ndk_sw_bachelor_thesis.Common.{
  ℕ, zero, suc, ◌+◌, ◌*◌, ◌^◌, ◌<◌, ◌≤◌, ◌≡◌, ◌≢◌, refl, ap, sym, subst, ◌∙◌, ◌⊎◌, inl, inr, true,
  false, Bool-cases, List, [], ◌∷◌, ◌==◌, leb, ℕ_discrete, arith,
}
use ndk_sw_bachelor_thesis.Controller.Layout.Virtual.{
  Fits, slot, Inside, Before, slot-Before, slot-Inside,
}
use ndk_sw_bachelor_thesis.Controller.Layout.Folded.{
  at, blocks, folded, slot-le-blocks, offset_at, offsets_from,
}

-- Two buffers of this size have no byte in common.
abbrev pub Apart : ℕ → ℕ → ℕ → Type 0
Apart size o p = (o + size ≤ p) ⊎ (p + size ≤ o)

Apart-eq : (size o o' p p' : ℕ) → o ≡ o' → p ≡ p' → Apart size o' p' → Apart size o p
Apart-eq size o o' p p' e e' h = rw (e, e') h

abbrev pub ApartFrom : ℕ → ℕ → List ℕ → Type 0
ApartFrom size o [] = true ≡ true
ApartFrom size o (p ∷ ps) = Apart size o p × ApartFrom size o ps

-- Every buffer lies in the ring of `total` bytes, apart from all others.
abbrev pub AllApart : ℕ → ℕ → List ℕ → Type 0
AllApart size total [] = true ≡ true
AllApart size total (o ∷ os) = (o + size ≤ total) × ApartFrom size o os × AllApart size total os

module _ (page size start block_size count : ℕ) (f : Fits page size start block_size)
    (some_buffer : 0 < count) where
  abbrev spot : ℕ → ℕ × ℕ
  spot n = at page size start block_size count f n

  abbrev block_total : ℕ
  block_total = blocks page size start block_size count f

  abbrev put : ℕ → ℕ × ℕ
  put n = folded page size start block_size count f n

  from_start : (i : ℕ) → (spot i).0 ≡ 0 → start ≤ (spot i).1
  unfolding slot
  from_start zero e = omega arith
  from_start (suc i) e = elim (slot-Before page size start block_size 0 (suc i) (omega arith)) [
    | inl lt ↦ absurd (omega (arith, lt, e))
    | inr (eq, le) ↦ omega (arith, le)
  ]

  -- A buffer in the block behind the last one lies in front of the first buffer.
  in_front : (j : ℕ) → j < count → (spot j).0 ≡ block_total → (spot j).1 + size ≤ start
  in_front j h e = elim (Bool-cases (leb (spot count).1 start)) [
    | inl fits ↦
        let last : (spot j).0 ≡ (spot count).0 = ground (arith, e, fits) in
        elim (slot-Before page size start block_size j count h) [
          | inl lt ↦ absurd (omega (arith, lt, last))
          | inr (eq, le) ↦
              let room : (spot count).1 ≤ start = ground (arith, fits) in omega (arith, le, room)
        ]
    | inr over ↦
        let beyond : (spot j).0 ≡ (spot count).0 + 1 = ground (arith, e, over) in
        elim (slot-Before page size start block_size j count h) [
          | inl lt ↦ absurd (omega (arith, lt, beyond))
          | inr (eq, le) ↦ absurd (omega (arith, eq, beyond))
        ]
  ]

  pub some_block : 0 < block_total
  unfolding slot
  some_block = elim (slot-Before page size start block_size 0 count some_buffer) [
    | inl lt ↦ ground (arith, lt)
    | inr (eq, le) ↦ let size' = f.some_size in ground (arith, le)
  ]

  -- In different blocks, or apart in the same one.
  abbrev Separate : ℕ × ℕ → ℕ × ℕ → Type 0
  Separate p q = (p.0 < q.0) ⊎ ((q.0 < p.0) ⊎ ((p.0 ≡ q.0) × Apart size p.1 q.1))

  Before-Separate : (p q : ℕ × ℕ) → Before page size start block_size p q → Separate p q
  Before-Separate p q (inl lt) = inl lt
  Before-Separate p q (inr (eq, le)) = inr (inr (eq, inl le))

  put_same : (i : ℕ) → (spot i).0 ≢ block_total → put i ≡ spot i
  put_same i ne = let e : (spot i).0 == block_total ≡ false = ground (arith, ne) in rw e refl

  put_first : (i : ℕ) → (spot i).0 ≡ block_total → put i ≡ (0, (spot i).1)
  put_first i eq = let e : (spot i).0 == block_total ≡ true = ground (arith, eq) in rw e refl

  moved : (p p' q q' : ℕ × ℕ) → p ≡ p' → q ≡ q' → Separate p' q' → Separate p q
  moved p p' q q' e e' h = subst (λ r. Separate r q) (sym e) (subst (λ r. Separate p' r) (sym e') h)

  put-Separate : (i j : ℕ) → i < j → j < count → Separate (put i) (put j)
  put-Separate i j h hj = elim (ℕ_discrete (spot j).0 block_total) [
    | no ne ↦
        let below : (spot i).0 ≢ block_total = λ e.
          elim (slot-Before page size start block_size i j h) [
            | inl lt ↦
                omega
                  (arith, lt, e, slot-le-blocks page size start block_size count f j (omega arith))
            | inr (eq, le) ↦ ne (sym eq ∙ e)
          ] in
        moved (put i) _ (put j) _ (put_same i below) (put_same j ne)
          (Before-Separate (spot i) (spot j) (slot-Before page size start block_size i j h))
    | yes e ↦
        let front = in_front j hj e in
        elim (ℕ_discrete (spot i).0 block_total) [
          | yes e' ↦ elim (slot-Before page size start block_size i j h) [
            | inl lt ↦ absurd (omega (arith, lt, e, e'))
            | inr (eq, le) ↦
                moved (put i) _ (put j) _ (put_first i e') (put_first j e)
                  (inr (inr (refl, inl le)))
          ]
          | no ne ↦ elim (ℕ_discrete (spot i).0 0) [
            | yes z ↦
                moved (put i) _ (put j) _ (put_same i ne) (put_first j e)
                  (inr (inr (z, inr (omega (arith, front, from_start i z)))))
            | no nz ↦
                moved (put i) _ (put j) _ (put_same i ne) (put_first j e)
                  (inr (inl (omega (arith, nz))))
          ]
        ]
  ]

  put-lt : (i : ℕ) → i < count → (put i).0 < block_total
  put-lt i h = elim (ℕ_discrete (spot i).0 block_total) [
    | yes e ↦ subst (λ r. r.0 < block_total) (sym (put_first i e)) some_block
    | no ne ↦
        subst (λ r. r.0 < block_total) (sym (put_same i ne))
          (omega (arith, ne, slot-le-blocks page size start block_size count f i (omega arith)))
  ]

  -- Where a buffer is, as a distance from the ring's beginning.
  abbrev linear : ℕ × ℕ → ℕ
  linear (b, o) = b * block_size + o

  linear-Apart :
      (p q : ℕ × ℕ)
      → Inside page size start block_size p
      → Inside page size start block_size q
      → Separate p q
      → Apart size (linear p) (linear q)
  linear-Apart (b, o) (b', o') hp hq (inl lt) =
      let m : (b + 1) * block_size ≤ b' * block_size = mul-le-mul_right block_size (omega arith) in
      inl (omega (arith, m, hp))
  linear-Apart (b, o) (b', o') hp hq (inr (inl lt)) =
      let m : (b' + 1) * block_size ≤ b * block_size = mul-le-mul_right block_size (omega arith) in
      inr (omega (arith, m, hq))
  linear-Apart (b, o) (b', o') hp hq (inr (inr (eq, inl le))) =
      let same : b * block_size ≡ b' * block_size = ap (λ x. x * block_size) eq in
      inl (omega (arith, same, le))
  linear-Apart (b, o) (b', o') hp hq (inr (inr (eq, inr le))) =
      let same : b * block_size ≡ b' * block_size = ap (λ x. x * block_size) eq in
      inr (omega (arith, same, le))

  put-Inside : (i : ℕ) → Inside page size start block_size (put i)
  put-Inside i = slot-Inside page size start block_size i f

  linear-le : (i : ℕ) → i < count → linear (put i) + size ≤ block_total * block_size
  linear-le i h =
      let next : (put i).0 + 1 ≤ block_total = omega (arith, put-lt i h) in
      let m : ((put i).0 + 1) * block_size ≤ block_total * block_size =
        mul-le-mul_right block_size next in
      omega (arith, m, put-Inside i)

  module _ (word : block_total * block_size ≤ 2 ^ 32) where
    offset_lem :
        (i : ℕ) → i < count → offset_at page size start block_size count f i ≡ linear (put i)
    offset_lem i h =
        mod-eq_of_lt {n = linear (put i)} {m = 2 ^ 32}
          (omega (arith, linear-le i h, word, f.some_size))

    one-ApartFrom :
        (i n m : ℕ)
        → i < n
        → n + m ≤ count
        → ApartFrom size
            (offset_at page size start block_size count f i)
            (offsets_from page size start block_size count f n m)
    one-ApartFrom i n zero h e = refl
    one-ApartFrom i n (suc m) h e = (
      Apart-eq size _ _ _ _ (offset_lem i (omega arith)) (offset_lem n (omega arith)) (
          linear-Apart (put i) (put n) (put-Inside i) (put-Inside n)
            (put-Separate i n h (omega arith))),
      one-ApartFrom i (suc n) m (omega arith) (omega arith),
    )

    pub offsets-AllApart :
        (n m : ℕ)
        → n + m ≤ count
        → AllApart size
            (block_total * block_size)
            (offsets_from page size start block_size count f n m)
    offsets-AllApart n zero e = refl
    offsets-AllApart n (suc m) e = (
      subst (λ o. o + size ≤ block_total * block_size) (sym (offset_lem n (omega arith)))
          (linear-le n (omega arith)),
      one-ApartFrom n (suc n) m (omega arith) (omega arith),
      offsets-AllApart (suc n) m (omega arith),
    )
