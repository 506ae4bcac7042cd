-- ===== src/Xdp/Tx/Reclaim.antt =====
-- The loop of `nfb_xctrl_tx_free_buffers` (ctrl_xdp_common.h): it ends, and what it gives back.
use native.Mathlib.Nat.{mod-add-mod, mod-lt, mod-eq_of_lt, one-le-pow}
use ndk_sw_bachelor_thesis.Common.{
  ℕ, zero, suc, ◌+◌, ◌%◌, ◌^◌, ◌<◌, ◌≤◌, ◌≡◌, ◌≢◌, refl, ap, sym, subst, ◌∙◌, true, false, Option,
  none, some, List, [], ◌++◌, ◌==◌, arith,
}
use ndk_sw_bachelor_thesis.Common.Bits.{low_mask}
use ndk_sw_bachelor_thesis.Xdp.Tx.{
  TxBuffer, desc_type0, Xctrl, Release, put, next_slot, released, completions, free_loop,
  nfb_xctrl_tx_free_buffers,
}
use ndk_sw_bachelor_thesis.Xdp.Tx.Pending.{apart, next_slot_lem}

-- What the buffers of `n` slots from `p` on are given back with, in order.
abbrev pub all_released : ℕ → (ℕ → TxBuffer) → ℕ → ℕ → List Release
all_released k buffers zero p = []
all_released k buffers (suc n) p =
    released (buffers p) ++ all_released k buffers n ((p + 1) % 2 ^ k)

-- The loop has ended, with this list, and moved nothing but `fdp`.
abbrev pub Reclaimed : List Release → Xctrl → Option (List Release × Xctrl) → Type 0
Reclaimed expected before none = false ≡ true
Reclaimed expected before (some (log, after)) =
    (log ≡ expected)
    × (after.fdp ≡ before.hdp)
    × (after.hdp ≡ before.hdp)
    × (after.sdp ≡ before.sdp)
    × (after.mdp ≡ before.mdp)
    × (after.last_upper_addr ≡ before.last_upper_addr)

after_one :
    (first expected : List Release) (before : Xctrl) (buffers : ℕ → TxBuffer) (count : ℕ)
    (result : Option (List Release × Xctrl))
    → Reclaimed expected (record before { buffers = buffers; completed_xsk_tx = count }) result
    → Reclaimed
        (first ++ expected)
        before
        (elim result [ none ↦ none | some (log, after) ↦ some (first ++ log, after) ])
after_one first expected before buffers count none r = r
after_one first expected before buffers count (some (log, after)) r =
    (ap (λ l. first ++ l) r.0, r.1, r.2, r.3, r.4, r.5)

module _ (k : ℕ) (fits : k ≤ 32) where
  pub slots : 0 < 2 ^ k
  slots = one-le-pow k 2 (omega arith)

  pub shift : (p j : ℕ) → ((p + 1) % 2 ^ k + j) % 2 ^ k ≡ (p + suc j) % 2 ^ k
  shift p j =
      mod-add-mod (p + 1) (2 ^ k) j
      ∙ ap (λ x. x % 2 ^ k) {x = p + 1 + j} {y = p + suc j} (omega arith)

  -- A slot before the first one does not matter.
  released_same :
      (n p i : ℕ) (buffers : ℕ → TxBuffer)
      → p < 2 ^ k
      → ((j : ℕ) → j < n → (p + j) % 2 ^ k ≢ i)
      → all_released k (put i desc_type0 buffers) n p ≡ all_released k buffers n p
  released_same zero p i buffers hp other = refl
  released_same (suc n) p i buffers hp other =
      let rest =
        released_same n ((p + 1) % 2 ^ k) i buffers (mod-lt (p + 1) {m = 2 ^ k} slots)
          (λ j h e. other (suc j) (omega arith) (sym (shift p j) ∙ e)) in
      let here : put i desc_type0 buffers p ≡ buffers p =
        ground (arith, other 0 (omega arith), mod-eq_of_lt {n = p + 0} {m = 2 ^ k} (omega arith)) in
      rw (here, rest) refl

  loop-Reclaimed :
      (n fuel i : ℕ) (ctrl : Xctrl)
      → ctrl.mdp ≡ low_mask k
      → i < 2 ^ k
      → n < 2 ^ k
      → n < fuel
      → ctrl.hdp ≡ (i + n) % 2 ^ k
      → Reclaimed (all_released k ctrl.buffers n i) ctrl (free_loop fuel i ctrl)
  unfolding free_loop
  loop-Reclaimed n zero i ctrl mask hi hn enough at = absurd (omega arith)
  loop-Reclaimed zero (suc fuel) i ctrl mask hi hn enough at =
      let there : i == ctrl.hdp ≡ true =
        ground (arith, mod-eq_of_lt {n = i + 0} {m = 2 ^ k} (omega arith)) in
      rw (there, free_loop) (refl, refl, refl, refl, refl, refl)
  loop-Reclaimed (suc n) (suc fuel) i ctrl mask hi hn enough at =
      let start : (i + 0) % 2 ^ k ≡ i =
        mod-eq_of_lt {n = i + 0} {m = 2 ^ k} (omega arith) ∙ omega arith in
      let differs : i == ctrl.hdp ≡ false =
        ground (arith, apart k i 0 (suc n) hi (omega arith) hn) in
      let next : next_slot ctrl.mdp i ≡ (i + 1) % 2 ^ k =
        rw mask (ap (next_slot (low_mask k)) (sym start) ∙ next_slot_lem k fits i 0) in
      let count = (ctrl.completed_xsk_tx + completions (ctrl.buffers i)) % 2 ^ 32 in
      let step = record ctrl {
        buffers = put i desc_type0 ctrl.buffers;
        completed_xsk_tx = count;
      } in
      let same =
        released_same n ((i + 1) % 2 ^ k) i ctrl.buffers (mod-lt (i + 1) {m = 2 ^ k} slots)
          (λ j h e.
            apart k i 0 (suc j) hi (omega arith) (omega arith) (start ∙ sym e ∙ shift i j)) in
      let rest =
        loop-Reclaimed n fuel ((i + 1) % 2 ^ k) step mask (mod-lt (i + 1) {m = 2 ^ k} slots)
          (omega arith) (omega arith) (at ∙ sym (shift i n)) in
      let expected = all_released k ctrl.buffers n ((i + 1) % 2 ^ k) in
      let moved : Reclaimed expected step (free_loop fuel (next_slot ctrl.mdp i) step) =
        subst (λ q. Reclaimed expected step (free_loop fuel q step)) (sym next)
          (subst (λ l. Reclaimed l step (free_loop fuel ((i + 1) % 2 ^ k) step)) same rest) in
      rw (differs, free_loop)
        (after_one (released (ctrl.buffers i)) expected ctrl (put i desc_type0 ctrl.buffers) count
          (free_loop fuel (next_slot ctrl.mdp i) step) moved)

  -- The loop ends in a ring of `2 ^ k` slots of which `n` lie between `fdp` and `hdp`, with the fuel of one
  -- round of the ring and more: it gives back exactly the buffers of these slots, each once and in order,
  -- and only `fdp`, the slots and the count of completions change.
  pub free_buffers-Reclaimed :
      (n : ℕ) (ctrl : Xctrl)
      → ctrl.mdp ≡ low_mask k
      → ctrl.fdp < 2 ^ k
      → n < 2 ^ k
      → ctrl.hdp ≡ (ctrl.fdp + n) % 2 ^ k
      → Reclaimed
          (all_released k ctrl.buffers n ctrl.fdp)
          ctrl
          (nfb_xctrl_tx_free_buffers (ctrl.mdp + 2) ctrl)
  unfolding nfb_xctrl_tx_free_buffers
  free_buffers-Reclaimed n ctrl mask hf hn at =
      loop-Reclaimed n (ctrl.mdp + 2) ctrl.fdp ctrl mask hf hn (omega arith) at
