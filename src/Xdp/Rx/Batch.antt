-- ===== src/Xdp/Rx/Batch.antt =====
-- ctrl_xdp_xsk.c: the driver's own `xsk_buff_alloc_batch`, for kernels without it. `alloc n` is the answer to
-- the n-th call of `xsk_buff_alloc`.
use ndk_sw_bachelor_thesis.Common.{
  ℕ, zero, suc, ◌+◌, ◌-◌, ◌≤◌, ◌<◌, ◌≡◌, refl, ap, ◌∙◌, Option, none, some, List, [], ◌∷◌, ◌++◌,
  map, length, length-append, arith,
}

module _ (alloc : ℕ → Option ℕ) where
  -- The loop: `rounds` is what `max - i` leaves behind the round that is always run.
  unfoldable pub alloc_rounds : ℕ → ℕ → List (Option ℕ)
  alloc_rounds zero i = alloc i ∷ []
  alloc_rounds (suc rounds) i =
      let later = alloc_rounds rounds (i + 1) in
      elim (alloc i) [ none ↦ alloc i ∷ [] | some buffer ↦ alloc i ∷ later ]

  -- What is returned is the number of entries written.
  unfoldable pub xsk_buff_alloc_batch : ℕ → ℕ × List (Option ℕ)
  xsk_buff_alloc_batch max = let buffers = alloc_rounds (max - 1) 0 in (length buffers, buffers)

  -- The pool gives these buffers from the i-th call on, and then none.
  abbrev pub RunsOut : ℕ → List ℕ → Type 0
  RunsOut i [] = alloc i ≡ none
  RunsOut i (buffer ∷ buffers) = (alloc i ≡ some buffer) × RunsOut (i + 1) buffers

  runs_out :
      (rounds i : ℕ) (buffers : List ℕ)
      → length buffers ≤ rounds
      → RunsOut i buffers
      → alloc_rounds rounds i ≡ map some buffers ++ (none ∷ [])
  unfolding alloc_rounds
  runs_out zero i [] h e = rw (e, alloc_rounds) refl
  runs_out zero i (b ∷ buffers) h e = absurd (omega arith)
  runs_out (suc rounds) i [] h e = rw (e, alloc_rounds) (ap (λ a. a ∷ []) e)
  runs_out (suc rounds) i (b ∷ buffers) h (e, more) =
      rw (e, alloc_rounds)
        (ap (λ a. a ∷ alloc_rounds rounds (i + 1)) e
          ∙ ap (λ r. some b ∷ r) (runs_out rounds (i + 1) buffers (omega arith) more))

  length-map-some : (buffers : List ℕ) → length (map {B = Option ℕ} some buffers) ≡ length buffers
  length-map-some [] = refl
  length-map-some (b ∷ buffers) = ap suc (length-map-some buffers)

  -- A pool that runs out before `max` buffers makes the batch one too long: the failed allocation is counted
  -- and stored, as the last one.
  alloc_batch-counts_none :
      (max : ℕ) (buffers : List ℕ)
      → length buffers < max
      → RunsOut 0 buffers
      → xsk_buff_alloc_batch max ≡ (length buffers + 1, map some buffers ++ (none ∷ []))
  unfolding xsk_buff_alloc_batch
  alloc_batch-counts_none max buffers h e =
      let all = runs_out (max - 1) 0 buffers (omega arith) e in
      let counted : length (map {B = Option ℕ} some buffers ++ (none ∷ [])) ≡ length buffers + 1 =
        omega (
          arith,
          length-append (map {B = Option ℕ} some buffers) (none ∷ []),
          length-map-some buffers,
        ) in
      rw all (ap (λ n. (n, map some buffers ++ (none ∷ []))) counted)
