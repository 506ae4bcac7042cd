-- ===== src/Xdp/Tx/Poll/Whole.antt =====
-- The account of an AF_XDP socket over a whole `nfb_xctrl_napi_poll_tx_xsk` (ctrl_xdp_xsk.c), the reclaiming of the
-- slots that the card has sent included.
use native.Mathlib.Nat.{mod-add-mod, mod-lt, mod-eq_of_lt}
use ndk_sw_bachelor_thesis.Common.{
  ℕ, zero, suc, ◌+◌, ◌-◌, ◌%◌, ◌^◌, ◌<◌, ◌≤◌, ◌≡◌, refl, ap, sym, subst, ◌∙◌, true, false, Option,
  none, some, List, ◌++◌, length, ◌==◌, arith,
}
use ndk_sw_bachelor_thesis.Common.Bits.{low_mask}
use ndk_sw_bachelor_thesis.Xdp.Tx.{
  TxBuffer, desc_type0, Xctrl, Release, put, next_slot, released, completions, free_loop,
  free_slots, nfb_xctrl_tx_free_buffers,
}
use ndk_sw_bachelor_thesis.Xdp.Tx.Callers.{reclaim, sdp_flush}
use ndk_sw_bachelor_thesis.Xdp.Tx.Pending.{apart, next_slot_lem, free_slots_lem}
use ndk_sw_bachelor_thesis.Xdp.Tx.Reclaim.{shift, slots}
use ndk_sw_bachelor_thesis.Xdp.Tx.Poll.{Polled, send_ready, nfb_xctrl_napi_poll_tx_xsk}
use ndk_sw_bachelor_thesis.Xdp.Tx.Poll.Owed.{owed, owed_same, send_ready-Accounted}

-- The slots from `hdp` on, `r` of them in use, owe together with the count what the total says.
abbrev Freed : ℕ → ℕ → ℕ → Xctrl → Option (List Release × Xctrl) → Type 0
Freed k r total before none = false ≡ true
Freed k r total before (some (log, after)) =
    (after.completed_xsk_tx + owed k after.buffers r before.hdp ≡ total)
    × (after.fdp ≡ before.hdp)
    × (after.mdp ≡ before.mdp)

after_freed :
    (k r total : ℕ) (first : List Release) (before : Xctrl) (buffers : ℕ → TxBuffer) (count : ℕ)
    (result : Option (List Release × Xctrl))
    → Freed k r total (record before { buffers = buffers; completed_xsk_tx = count }) result
    → Freed k r total before
        (elim result [ none ↦ none | some (log, after) ↦ some (first ++ log, after) ])
after_freed k r total first before buffers count none f = f
after_freed k r total first before buffers count (some (log, after)) f = f

module _ (k : ℕ) (fits : k ≤ 32) where
  start : (p : ℕ) → p < 2 ^ k → (p + 0) % 2 ^ k ≡ p
  start p hp = mod-eq_of_lt {n = p + 0} {m = 2 ^ k} (omega arith) ∙ omega arith

  -- The first of the slots, and the others.
  owed_first :
      (n p : ℕ) (f : ℕ → TxBuffer)
      → p < 2 ^ k
      → owed k f (suc n) p ≡ completions (f p) + owed k f n ((p + 1) % 2 ^ k)
  owed_first zero p f hp =
      let here = ap (λ s. completions (f s)) (start p hp) in omega (arith, here)
  owed_first (suc n) p f hp =
      let last = ap (λ s. completions (f s)) (shift k fits p n) in
      omega (arith, owed_first n p f hp, last)

  loop-Freed :
      (a r fuel i : ℕ) (ctrl : Xctrl)
      → ctrl.mdp ≡ low_mask k
      → i < 2 ^ k
      → a + r < 2 ^ k
      → a < fuel
      → ctrl.hdp ≡ (i + a) % 2 ^ k
      → ctrl.completed_xsk_tx + owed k ctrl.buffers (a + r) i < 2 ^ 32
      → Freed k r
          (ctrl.completed_xsk_tx + owed k ctrl.buffers (a + r) i)
          ctrl
          (free_loop fuel i ctrl)
  unfolding free_loop
  loop-Freed a r zero i ctrl mask hi hn enough at small = absurd (omega arith)
  loop-Freed zero r (suc fuel) i ctrl mask hi hn enough at small =
      let here : ctrl.hdp ≡ i = at ∙ start i hi in
      let there : i == ctrl.hdp ≡ true = ground (arith, here) in
      rw (there, free_loop)
        (
          ap (λ p. ctrl.completed_xsk_tx + owed k ctrl.buffers r p) here
              ∙ ap (λ n. ctrl.completed_xsk_tx + owed k ctrl.buffers n i) {x = r} {y = 0 + r}
                  (omega arith),
          refl,
          refl,
        )
  loop-Freed (suc a) r (suc fuel) i ctrl mask hi hn enough at small =
      let differs : i == ctrl.hdp ≡ false =
        ground (arith, apart k i 0 (suc a) hi (omega arith) (omega arith), start i hi, at) in
      let next : next_slot ctrl.mdp i ≡ (i + 1) % 2 ^ k =
        rw mask (ap (next_slot (low_mask k)) (sym (start i hi)) ∙ next_slot_lem k fits i 0) in
      let count = (ctrl.completed_xsk_tx + completions (ctrl.buffers i)) % 2 ^ 32 in
      let cleared = put i desc_type0 ctrl.buffers in
      let step = record ctrl { buffers = cleared; completed_xsk_tx = count } in
      let same : owed k cleared (a + r) ((i + 1) % 2 ^ k)
          ≡ owed k ctrl.buffers (a + r) ((i + 1) % 2 ^ k) =
        owed_same k (a + r) ((i + 1) % 2 ^ k) ctrl.buffers cleared (λ j h. ground (
          arith,
          apart k i 0 (suc j) hi (omega arith) (omega arith),
          start i hi,
          shift k fits i j,
        )) in
      let whole : owed k ctrl.buffers (suc a + r) i
          ≡ completions (ctrl.buffers i) + owed k ctrl.buffers (a + r) ((i + 1) % 2 ^ k) =
        ap (λ n. owed k ctrl.buffers n i) {x = suc a + r} {y = suc (a + r)} (omega arith)
        ∙ owed_first (a + r) i ctrl.buffers hi in
      let total : count + owed k cleared (a + r) ((i + 1) % 2 ^ k)
          ≡ ctrl.completed_xsk_tx + owed k ctrl.buffers (suc a + r) i =
        omega (arith, same, whole, small) in
      let rest =
        loop-Freed a r fuel ((i + 1) % 2 ^ k) step mask (mod-lt (i + 1) {m = 2 ^ k} (slots k fits))
          (omega arith) (omega arith) (at ∙ sym (shift k fits i a)) (omega (arith, total, small)) in
      let moved : Freed k r (ctrl.completed_xsk_tx + owed k ctrl.buffers (suc a + r) i) step
          (free_loop fuel (next_slot ctrl.mdp i) step) =
        subst
          (λ q.
            Freed k r (ctrl.completed_xsk_tx + owed k ctrl.buffers (suc a + r) i) step
              (free_loop fuel q step))
          (sym next)
          (subst (λ t. Freed k r t step (free_loop fuel ((i + 1) % 2 ^ k) step)) total rest) in
      rw (differs, free_loop)
        (after_freed k r (ctrl.completed_xsk_tx + owed k ctrl.buffers (suc a + r) i)
          (released (ctrl.buffers i)) ctrl cleared count
          (free_loop fuel (next_slot ctrl.mdp i) step) moved)

  -- The poll has ended. What the socket was told, what the slots in use owe it, from the one on that the card has not
  -- sent, and the drops that are still to be reported are together `total`.
  abbrev pub Balanced : ℕ → ℕ → ℕ → Option Polled → Type 0
  Balanced total ready first none = false ≡ true
  Balanced total ready first (some p) =
      (m : ℕ) × (m < 2 ^ k)
      × (p.ctrl.sdp ≡ (first + m) % 2 ^ k)
      × (p.ctrl.sdp_register ≡ p.ctrl.sdp)
      × (p.sent ≤ ready)
      × (p.completed + owed k p.ctrl.buffers m first + p.drops ≡ total)

  -- A whole poll of an AF_XDP socket's transmit queue, run with the controller's own pointers, ends and keeps the
  -- account of completions: what the socket is told, what the slots in use owe it afterwards and the drops still to be
  -- reported are together what the controller had counted, the slots owed, the drops before, and one for each
  -- descriptor that the socket had ready, whether it was sent or not. The ring has `2 ^ k` slots and is masked, the
  -- card has sent `a` of the `a + r` slots in use, and the sum fits 32 bits.
  pub poll_tx-Balanced :
      (a r upper drops : ℕ) (ready : List (ℕ × ℕ)) (ctrl : Xctrl)
      → ctrl.mdp ≡ low_mask k
      → ctrl.fdp < 2 ^ k
      → a + r < 2 ^ k
      → ctrl.sdp ≡ (ctrl.fdp + (a + r)) % 2 ^ k
      → ctrl.completed_xsk_tx + owed k ctrl.buffers (a + r) ctrl.fdp + (drops + length ready)
        < 2 ^ 32
      → Balanced
          (ctrl.completed_xsk_tx + owed k ctrl.buffers (a + r) ctrl.fdp + (drops + length ready))
          (length ready)
          ((ctrl.fdp + a) % 2 ^ k)
          (nfb_xctrl_napi_poll_tx_xsk ctrl.sdp upper ((ctrl.fdp + a) % 2 ^ k) ready drops ctrl)
  unfolding nfb_xctrl_napi_poll_tx_xsk nfb_xctrl_tx_free_buffers
  poll_tx-Balanced a r upper drops ready ctrl mask hf hn at small =
      let hdp' = (ctrl.fdp + a) % 2 ^ k in
      let updated = record ctrl { hdp = hdp' } in
      behind_reclaim (reclaim hdp' ctrl) (
        loop-Freed a r (ctrl.mdp + 2) ctrl.fdp updated mask hf hn (omega (arith, mask)) refl
          (omega (arith, small)))
    where
      counted :
          (m : ℕ) (log : List Release) (freed : Xctrl) (sent : ℕ × ℕ × Xctrl)
          → m < 2 ^ k
          → sent.2.sdp ≡ ((ctrl.fdp + a) % 2 ^ k + m) % 2 ^ k
          → sent.0 ≤ length ready
          → owed k sent.2.buffers m ((ctrl.fdp + a) % 2 ^ k) + (sent.1 + (length ready - sent.0))
            ≡ owed k freed.buffers r ((ctrl.fdp + a) % 2 ^ k) + (drops + length ready)
          → freed.completed_xsk_tx + owed k freed.buffers r ((ctrl.fdp + a) % 2 ^ k)
            ≡ ctrl.completed_xsk_tx + owed k ctrl.buffers (a + r) ctrl.fdp
          → Balanced
              (ctrl.completed_xsk_tx
                + owed k ctrl.buffers (a + r) ctrl.fdp
                + (drops + length ready))
              (length ready)
              ((ctrl.fdp + a) % 2 ^ k)
              (some (record {
                sent = sent.0;
                completed = freed.completed_xsk_tx;
                drops = (sent.1 + length ready - sent.0) % 2 ^ 32;
                ctrl = sdp_flush sent.2;
                log = log;
              }))
      counted m log freed (i, left, after) hm sdp_is le account kept =
          (m, hm, sdp_is, refl, le, omega (arith, small, account, kept, le))

      behind_reclaim :
          (o : Option (List Release × Xctrl))
          → Freed k r
              (ctrl.completed_xsk_tx + owed k ctrl.buffers (a + r) ctrl.fdp)
              (record ctrl { hdp = (ctrl.fdp + a) % 2 ^ k })
              o
          → Balanced
              (ctrl.completed_xsk_tx
                + owed k ctrl.buffers (a + r) ctrl.fdp
                + (drops + length ready))
              (length ready)
              ((ctrl.fdp + a) % 2 ^ k)
              (elim o [
                | none ↦ none
                | some (log, freed) ↦
                    let cleared = record freed { completed_xsk_tx = 0 } in
                    let free = free_slots freed.mdp freed.fdp ctrl.sdp in
                    let (i, left, after) = send_ready ready ctrl.sdp upper free drops cleared in
                    some (record {
                      sent = i;
                      completed = freed.completed_xsk_tx;
                      drops = (left + length ready - i) % 2 ^ 32;
                      ctrl = sdp_flush after;
                      log = log;
                    })
              ])
      behind_reclaim none f = absurd (ground (arith, f))
      behind_reclaim (some (log, freed)) (kept, fdp_is, mdp_is) =
          let hdp' = (ctrl.fdp + a) % 2 ^ k in
          let in_ring : hdp' < 2 ^ k = mod-lt (ctrl.fdp + a) {m = 2 ^ k} (slots k fits) in
          let ahead : ctrl.sdp ≡ (hdp' + r) % 2 ^ k =
            at
            ∙ ap (λ x. x % 2 ^ k) {x = ctrl.fdp + (a + r)} {y = ctrl.fdp + a + r} (omega arith)
            ∙ sym (mod-add-mod (ctrl.fdp + a) (2 ^ k) r) in
          let room : free_slots freed.mdp freed.fdp ctrl.sdp + r + 1 ≡ 2 ^ k =
            rw (mdp_is, mask, fdp_is, ahead) (free_slots_lem k fits hdp' r in_ring (omega arith)) in
          let (m, hm, sdp_is, le, account) =
            send_ready-Accounted k fits hdp' in_ring ready r ctrl.sdp upper
              (free_slots freed.mdp freed.fdp ctrl.sdp) drops
              (record freed { completed_xsk_tx = 0 }) (mdp_is ∙ mask) ahead room
              (omega (arith, small)) in
          counted m log freed
            (send_ready ready ctrl.sdp upper (free_slots freed.mdp freed.fdp ctrl.sdp) drops
              (record freed { completed_xsk_tx = 0 }))
            hm sdp_is le account kept
