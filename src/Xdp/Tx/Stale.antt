-- ===== src/Xdp/Tx/Stale.antt =====
-- A run of ctrl_xdp_pp.c in which the pointers that `nfb_xctrl_rexmit_pp` reads before it takes `tx_lock`
-- are out of date when it holds the lock.
use ndk_sw_bachelor_thesis.Common.{
  ℕ, suc, ◌+◌, ◌<◌, ◌≡◌, refl, max, true, false, Option, none, some, List, Status, ok, ◌==◌, arith,
}
use ndk_sw_bachelor_thesis.Xdp.Tx.{
  Desc, Release, nc_ndp_tx_desc2, upper_addr, TxBuffer, Xctrl, next_slot, free_slots, announce,
  emit, place, min_len, free_loop, nfb_xctrl_tx_free_buffers,
}
use ndk_sw_bachelor_thesis.Xdp.Tx.Callers.{nfb_xctrl_rexmit_pp}

-- An accepted packet of which `desc` and `buffer` stand in the slot, with `sdp` at `next`.
abbrev pub Overwritten : Desc → TxBuffer → ℕ → ℕ → Option (Status × List Release × Xctrl) → Type 0
Overwritten desc buffer slot next none = false ≡ true
Overwritten desc buffer slot next (some (ret, log, after)) =
    (ret ≡ ok) × (after.descs slot ≡ desc) × (after.buffers slot ≡ buffer) × (after.sdp ≡ next)

-- Another sender places a packet after the pointers are read and before the lock is taken. Both are told
-- that their packet was accepted, but the second one's descriptor stands where the first one's did, `sdp`
-- has moved by one slot only, and the first packet's buffer is no longer recorded. Both addresses
-- have the upper bits of `last_upper_addr` here, the ring has room and nothing is to be reclaimed.
pub stale_overwrites :
    (buffer : TxBuffer) (dma len dma' frame' len' : ℕ) (ctrl : Xctrl)
    → upper_addr dma ≡ ctrl.last_upper_addr
    → upper_addr dma' ≡ ctrl.last_upper_addr
    → ctrl.fdp ≡ ctrl.hdp
    → 0 < free_slots ctrl.mdp ctrl.hdp ctrl.sdp
    → let free = free_slots ctrl.mdp ctrl.hdp ctrl.sdp in
      let (ret, between) = place buffer dma len ctrl.sdp ctrl.last_upper_addr free ctrl in
      (ret ≡ ok)
      × Overwritten
          (nc_ndp_tx_desc2 dma' (max len' min_len) 0 0)
          (TxBuffer.frame_pp frame')
          ctrl.sdp
          (next_slot ctrl.mdp ctrl.sdp)
          (nfb_xctrl_rexmit_pp ctrl.sdp ctrl.last_upper_addr ctrl.hdp dma' frame' len' between)
unfolding announce emit free_loop nfb_xctrl_tx_free_buffers nfb_xctrl_rexmit_pp
stale_overwrites buffer dma len dma' frame' len' ctrl e e' nothing room =
    let same : upper_addr dma == ctrl.last_upper_addr ≡ true = ground arith in
    let same' : upper_addr dma' == ctrl.last_upper_addr ≡ true = ground arith in
    let some_free : free_slots ctrl.mdp ctrl.hdp ctrl.sdp == 0 ≡ false = ground arith in
    let caught_up : ctrl.fdp == ctrl.hdp ≡ true = ground arith in
    let round : ctrl.mdp + 2 ≡ suc (suc ctrl.mdp) = omega arith in
    rw
      (
        same, some_free, nfb_xctrl_rexmit_pp, nfb_xctrl_tx_free_buffers, round, caught_up, same',
        some_free,
      )
      (refl, ground arith)
