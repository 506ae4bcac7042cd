-- ===== src/Controller/Layout/Folded.antt =====
-- Where the buffers of a Medusa ring (ndp/ctrl_ndp.c) lie in the blocks that were allocated: the last ones may stand in
-- front of the first one.
use ndk_sw_bachelor_thesis.Common.{
  ℕ, zero, suc, ◌+◌, ◌*◌, ◌%◌, ◌^◌, ◌<◌, ◌≤◌, ◌≡◌, refl, ap, ◌∙◌, inl, inr, true, false, Bool-cases,
  Option, some, List, [], ◌∷◌, ◌==◌, ltb, leb, if◌then◌else◌, arith,
}
use ndk_sw_bachelor_thesis.Controller.Layout.{
  StateMps, Advance, ring_wrap, next_block, same_block, ndp_ctrl_medusa_mps_inc, write_offsets,
  prepend,
}
use ndk_sw_bachelor_thesis.Controller.Layout.Virtual.{
  Fits, after, slot, state, Inside, slot-Before, slot-Inside, slot-le, is_wrap, inc_lem,
}

module _ (page size start block_size count : ℕ) (f : Fits page size start block_size) where
  abbrev pub at : ℕ → ℕ × ℕ
  at n = slot page size start block_size n

  -- The number of blocks that the walk asks for.
  abbrev pub blocks : ℕ
  blocks = if leb (at count).1 start then (at count).0 else (at count).0 + 1

  abbrev pub fold : ℕ × ℕ → ℕ × ℕ
  fold (b, o) = (if b == blocks then 0 else b, o)

  -- Where buffer `n` is.
  abbrev pub folded : ℕ → ℕ × ℕ
  folded n = fold (at n)

  slot_mono : (i j : ℕ) → i ≤ j → (at i).0 ≤ (at j).0
  slot_mono i j h = elim (Bool-cases (i == j)) [
    | inl e ↦ let same : i ≡ j = ground (arith, e) in rw same (omega arith)
    | inr e ↦ elim (slot-Before page size start block_size i j (ground (arith, e))) [
      | inl lt ↦ omega (arith, lt)
      | inr (eq, le) ↦ omega (arith, eq)
    ]
  ]

  pub slot-le-blocks : (n : ℕ) → n ≤ count → (at n).0 ≤ blocks
  slot-le-blocks n h = let le = slot_mono n count h in ground arith

  step_fold :
      (b o : ℕ)
      → b ≤ blocks
      → (after page size start block_size (b + 1) (b, o)).0 ≤ blocks
      → after page size start block_size
          (if (fold (b, o)).0 + 1 == blocks then 0 else (fold (b, o)).0 + 1)
          (fold (b, o))
        ≡ fold (after page size start block_size (b + 1) (b, o))
  step_fold b o le le' = elim (Bool-cases (ltb block_size (o + size + size))) [
    | inl e ↦
        let more : b + 1 ≤ blocks = ground (arith, e, le') in
        let ne : b == blocks ≡ false = ground (arith, more) in rw (ne, e) refl
    | inr e ↦ rw e refl
  ]

  -- The offset that is written for buffer `n`.
  abbrev pub offset_at : ℕ → ℕ
  offset_at n = ((folded n).0 * block_size + (folded n).1) % 2 ^ 32

  abbrev pub offsets_from : ℕ → ℕ → List ℕ
  offsets_from n zero = []
  offsets_from n (suc m) = offset_at n ∷ offsets_from (suc n) m

  abbrev pub buffer : ℕ → StateMps
  buffer n = state page size start block_size count blocks n (folded n)

  folded-Inside : (n : ℕ) → Inside page size start block_size (folded n)
  folded-Inside n = slot-Inside page size start block_size n f

  next_folded :
      (n : ℕ)
      → n < count
      → (after page size start block_size
          (if (folded n).0 + 1 == blocks then 0 else (folded n).0 + 1)
          (folded n))
        ≡ folded (suc n)
  unfolding slot
  next_folded n h =
      step_fold (at n).0 (at n).1 (slot-le-blocks n (omega arith))
        (slot-le-blocks (suc n) (omega arith))

  inc_buffer :
      (n : ℕ)
      → count < 2 ^ 32
      → suc n < count
      → (advance : Advance) × (is_wrap advance ≡ false)
        × (ndp_ctrl_medusa_mps_inc page (buffer n) ≡ (advance, buffer (suc n)))
  inc_buffer n word h =
      let low : (folded n).0 ≤ n =
        (let le = slot-le page size start block_size n in ground (arith, le)) in
      let (advance, inner, e) =
        inc_lem page size start block_size count blocks n (folded n).0 (folded n).1 f
          (folded-Inside n) (omega arith) (omega (arith, low)) (λ q. omega (arith, q)) in
      let one : n + 1 ≡ suc n = omega arith in
      (
        advance,
        inner,
        e
            ∙ ap (λ q. (advance, state page size start block_size count blocks (n + 1) q))
                (next_folded n (omega arith))
            ∙ ap (λ k. (advance, state page size start block_size count blocks k (folded (suc n))))
                one,
      )

  inc_last :
      (n : ℕ)
      → count < 2 ^ 32
      → suc n ≡ count
      → ndp_ctrl_medusa_mps_inc page (buffer n)
        ≡ (ring_wrap, state page size start block_size count blocks 0 (0, start))
  unfolding ndp_ctrl_medusa_mps_inc
  inc_last n word e =
      let small : (n + 1) % 2 ^ 32 ≡ count = omega (arith, e) in
      let last : count == count ≡ true = ground arith in rw (small, last) refl

  pub write_offsets_lem :
      (m n fuel : ℕ)
      → count < 2 ^ 32
      → n + suc m ≡ count
      → m < fuel
      → write_offsets page fuel (buffer n)
        ≡ some (offsets_from n (suc m), state page size start block_size count blocks 0 (0, start))
  unfolding write_offsets
  write_offsets_lem m n zero word e h = absurd (omega arith)
  write_offsets_lem zero n (suc fuel) word e h =
      let last = inc_last n word (omega (arith, e)) in
      rw (last, write_offsets) (ap (λ (r : Advance × StateMps). some (offset_at n ∷ [], r.1)) last)
  write_offsets_lem (suc m) n (suc fuel) word e h =
      let (advance, inner, step) = inc_buffer n word (omega (arith, e)) in
      let next = (ndp_ctrl_medusa_mps_inc page (buffer n)).1 in
      rw (step, write_offsets)
        (by_advance advance next (write_offsets page fuel next)
          (offsets_from (suc n) (suc m), state page size start block_size count blocks 0 (0, start))
          inner
          (ap (λ (r : Advance × StateMps). write_offsets page fuel r.1) step
            ∙ write_offsets_lem m (suc n) fuel word (omega (arith, e)) (omega arith)))
    where
      by_advance :
          (advance : Advance) (next : StateMps) (rest : Option (List ℕ × StateMps))
          (found : List ℕ × StateMps)
          → is_wrap advance ≡ false
          → rest ≡ some found
          → (elim advance as (λ a. Option (List ℕ × StateMps)) [
            | ring_wrap ↦ some (offset_at n ∷ [], next)
            | next_block ↦ prepend (offset_at n) rest
            | same_block ↦ prepend (offset_at n) rest
          ])
            ≡ some (offset_at n ∷ found.0, found.1)
      by_advance ring_wrap next rest found w r = cc
      by_advance next_block next rest found w r = rw r refl
      by_advance same_block next rest found w r = rw r refl
