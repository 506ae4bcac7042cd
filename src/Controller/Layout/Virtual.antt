-- ===== src/Controller/Layout/Virtual.antt =====
-- Where the buffers of a Medusa ring (ndp/ctrl_ndp.c) lie while blocks are unlimited: the walk by which
-- `ndp_ctrl_medusa_req_block_update` measures the ring.
use native.Mathlib.Nat.{mod-lt}
use ndk_sw_bachelor_thesis.Common.{
  ℕ, zero, suc, ◌+◌, ◌%◌, ◌^◌, ◌<◌, ◌≤◌, ◌≡◌, ◌≢◌, refl, ap, subst, ◌∙◌, ◌⊎◌, inl, inr, Bool, true,
  false, Bool-cases, some, ◌==◌, ltb, if◌then◌else◌, arith,
}
use ndk_sw_bachelor_thesis.Controller.Layout.{
  StateMps, Advance, ring_wrap, next_block, same_block, ndp_ctrl_medusa_mps_inc, walk,
}

abbrev pub is_wrap : Advance → Bool
is_wrap ring_wrap = true
is_wrap next_block = false
is_wrap same_block = false

module _ (page size start block_size : ℕ) where
  -- A buffer and a page together fit into a block, and so does the first buffer.
  pub record Fits : Type 0 where
    pub some_size : 0 < size
    pub some_page : 0 < page
    pub first : start + size ≤ block_size
    pub others : page + size ≤ block_size + 1
    pub word : block_size < 2 ^ 31

  abbrev pub after : ℕ → ℕ × ℕ → ℕ × ℕ
  after block (b, o) =
      if ltb block_size (o + size + size) then (block, (o + size) % page) else (b, o + size)

  -- The block and the offset of buffer `n`.
  unfoldable pub slot : ℕ → ℕ × ℕ
  slot zero = (0, start)
  slot (suc n) = after ((slot n).0 + 1) (slot n)

  abbrev pub state : (count blocks n : ℕ) → ℕ × ℕ → StateMps
  state count blocks n p = record {
    cfg = record {
      buffer_count = count;
      buffer_size = size;
      block_count = blocks;
      block_size = block_size;
      initial_offset = start;
    };
    block_offset = p.1;
    block_index = p.0;
    buffer_index = n;
  }

  abbrev pub Inside : ℕ × ℕ → Type 0
  Inside p = p.1 + size ≤ block_size

  -- One buffer ends before the other begins.
  abbrev pub Before : ℕ × ℕ → ℕ × ℕ → Type 0
  Before p q = (p.0 < q.0) ⊎ ((p.0 ≡ q.0) × (p.1 + size ≤ q.1))

  Before-trans : (p q r : ℕ × ℕ) → Before p q → Before q r → Before p r
  Before-trans p q r (inl a) (inl b) = inl (omega arith)
  Before-trans p q r (inl a) (inr b) = inl (omega (arith, b.0))
  Before-trans p q r (inr a) (inl b) = inl (omega (arith, a.0))
  Before-trans p q r (inr a) (inr b) = inr (a.0 ∙ b.0, omega (arith, a.1, b.1))

  pub after-Inside : (b o block : ℕ) → Fits → Inside (b, o) → Inside (after block (b, o))
  after-Inside b o block f h =
      let small = mod-lt (o + size) {m = page} f.some_page in ground (arith, f.others, small)

  pub slot-Inside : (n : ℕ) → Fits → Inside (slot n)
  unfolding slot
  slot-Inside zero f = f.first
  slot-Inside (suc n) f = after-Inside (slot n).0 (slot n).1 ((slot n).0 + 1) f (slot-Inside n f)

  after-Before : (p : ℕ × ℕ) → Before p (after (p.0 + 1) p)
  after-Before (b, o) = elim (Bool-cases (ltb block_size (o + size + size))) [
    | inl e ↦ rw e (inl (omega arith))
    | inr e ↦ rw e (inr (refl, omega arith))
  ]

  -- Buffers lie one after the other.
  pub slot-Before : (i j : ℕ) → i < j → Before (slot i) (slot j)
  unfolding slot
  slot-Before i zero h = absurd (omega arith)
  slot-Before i (suc j) h = elim (Bool-cases (i == j)) [
    | inl e ↦ let same : i ≡ j = ground (arith, e) in rw same (after-Before (slot j))
    | inr e ↦
        Before-trans (slot i) (slot j) (slot (suc j)) (slot-Before i j (ground (arith, e)))
          (after-Before (slot j))
  ]

  -- A block holds at least one buffer.
  pub slot-le : (n : ℕ) → (slot n).0 ≤ n
  unfolding slot
  slot-le zero = omega arith
  slot-le (suc n) = let ih = slot-le n in ground arith

  -- A step that does not end the ring.
  pub inc_lem :
      (count blocks n b o : ℕ)
      → Fits
      → Inside (b, o)
      → n + 1 < 2 ^ 32
      → b + 1 < 2 ^ 32
      → n + 1 ≢ count
      → (advance : Advance) × (is_wrap advance ≡ false)
        × (ndp_ctrl_medusa_mps_inc page (state count blocks n (b, o)) ≡ (
          advance,
          state count blocks (n + 1) (after (if b + 1 == blocks then 0 else b + 1) (b, o)),
        ))
  unfolding ndp_ctrl_medusa_mps_inc
  inc_lem count blocks n b o f h hn hb ne =
      let index : (n + 1) % 2 ^ 32 ≡ n + 1 = omega arith in
      let block : (b + 1) % 2 ^ 32 ≡ b + 1 = omega arith in
      let offset : (o + size) % 2 ^ 32 ≡ o + size = omega (arith, f.word) in
      let end : (o + size + size) % 2 ^ 32 ≡ o + size + size = omega (arith, f.word) in
      let inner : n + 1 == count ≡ false = ground (arith, ne) in
      elim (Bool-cases (ltb block_size (o + size + size))) [
        | inl e ↦ (next_block, refl, rw (index, block, offset, end, inner, e) refl)
        | inr e ↦ (same_block, refl, rw (index, block, offset, end, inner, e) refl)
      ]

  -- With no limit on blocks the walk visits the slots.
  pub walk_lem :
      (m n fuel : ℕ)
      → Fits
      → m < fuel
      → n + m < 2 ^ 32
      → walk page fuel (n + m) (state 0 0 n (slot n)) ≡ some (state 0 0 (n + m) (slot (n + m)))
  unfolding walk slot
  walk_lem m n zero f hm hn = absurd (omega arith)
  walk_lem zero n (suc fuel) f hm hn =
      let here : n + 0 ≡ n = omega arith in
      let over : ltb n n ≡ false = ground arith in rw (here, walk, over) refl
  walk_lem (suc m) n (suc fuel) f hm hn =
      let more : ltb n (n + suc m) ≡ true = ground arith in
      let (advance, inner, e) =
        inc_lem 0 0 n (slot n).0 (slot n).1 f (slot-Inside n f) (omega arith)
          (omega (arith, slot-le n)) (λ q. omega (arith, q)) in
      let no_limit : (slot n).0 + 1 == 0 ≡ false = ground arith in
      let one : n + 1 ≡ suc n = omega arith in
      let step : (ndp_ctrl_medusa_mps_inc page (state 0 0 n (slot n))).1
          ≡ state 0 0 (suc n) (slot (suc n)) =
        ap (λ r. r.1) e ∙ rw (no_limit, one) refl in
      let shift : suc n + m ≡ n + suc m = omega arith in
      rw (more, walk)
        (ap (walk page fuel (n + suc m)) step
          ∙ subst
              (λ z.
                walk page fuel z (state 0 0 (suc n) (slot (suc n))) ≡ some (state 0 0 z (slot z)))
              shift (walk_lem m (suc n) fuel f (omega arith) (omega arith)))
