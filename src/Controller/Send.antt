-- ===== src/Controller/Send.antt =====
-- drivers/kernel/drivers/nfb/ndp/ctrl_ndp.c: how a Medusa controller sends packets, in the mode in which
-- `ndp_ctrl_medusa_start` puts it (NDP_CTRL_MODE_PACKET_SIMPLE). `phys` is where a block of the ring lies for the
-- card, `frame_len` and `meta` are the fields of the headers in their slots. The headers are read and the descriptors
-- written through mappings in which the ring stands twice.
pub mod Consumed
pub mod One
pub mod Sent
use ndk_sw_bachelor_thesis.Common.{
  ℕ, zero, suc, ◌+◌, ◌-◌, ◌*◌, ◌%◌, ◌^◌, bit_and, Bool, true, false, ◌==◌, ltb, Option, none, some,
  List, [], ◌∷◌, if◌then◌else◌,
}
use ndk_sw_bachelor_thesis.Xdp.Tx.{
  Desc, type0, type2, upper_addr, put, nc_ndp_tx_desc0, nc_ndp_tx_desc2,
}
use ndk_sw_bachelor_thesis.Controller.User.{gap, forward}
use ndk_sw_bachelor_thesis.Controller.Layout.{StateMps, ndp_ctrl_medusa_mps_inc}

-- The fields of `struct ndp_ctrl` and of its `struct nc_ndp_ctrl` that these functions read or write. `is_outside`
-- tells that a descriptor was written behind the end of the mapping; `sdp_register` is what the card was last told.
pub record TxMedusa : Type 0 where
  pub last_upper_addr : ℕ
  pub mdp : ℕ
  pub mhp : ℕ
  pub sdp : ℕ
  pub hdp : ℕ
  pub shp : ℕ
  pub hhp : ℕ
  pub free_desc : ℕ
  pub mps : StateMps
  pub descs : ℕ → Desc
  pub is_outside : Bool
  pub sdp_register : ℕ

-- How many of the first `count` descriptors from the slot on are packets.
abbrev pub free_hdrs : (ℕ → Desc) → ℕ → ℕ → ℕ → ℕ
free_hdrs descs mask zero slot = 0
free_hdrs descs mask (suc i) slot =
    let before = free_hdrs descs mask i slot in
    elim (descs (forward mask slot i)) [
      | type0 lo hi ↦ before
      | type2 phys len meta next0 ↦ before + 1
    ]

-- `hdp` is what the card's pointer reads.
unfoldable pub ndp_ctrl_medusa_tx_get_hwptr : ℕ → TxMedusa → TxMedusa
ndp_ctrl_medusa_tx_get_hwptr hdp ctrl =
    let count = gap ctrl.mdp hdp ctrl.hdp in
    record ctrl {
      hdp = hdp;
      free_desc = (ctrl.free_desc + count) % 2 ^ 32;
      hhp = forward ctrl.mhp ctrl.hhp (free_hdrs ctrl.descs ctrl.mdp count ctrl.hdp);
    }

-- `reads` are what the card's pointer reads in each round and whether a kill signal is pending behind it. The Boolean
-- is the returned value, with the readings that are left; `none`: the loop waits for more of them.
unfoldable pub ndp_ctrl_medusa_tx_wait_for_free_desc :
    List (ℕ × Bool) → ℕ → TxMedusa → Option (Bool × List (ℕ × Bool) × TxMedusa)
ndp_ctrl_medusa_tx_wait_for_free_desc [] count ctrl =
    if ltb ctrl.free_desc count then none else some (false, [], ctrl)
ndp_ctrl_medusa_tx_wait_for_free_desc ((hdp, is_killed) ∷ reads) count ctrl =
    let next = ndp_ctrl_medusa_tx_get_hwptr hdp ctrl in
    let rest = ndp_ctrl_medusa_tx_wait_for_free_desc reads count next in
    if ltb ctrl.free_desc count
    then (if is_killed then some (true, reads, next) else rest)
    else some (false, (hdp, is_killed) ∷ reads, ctrl)

-- `desc[sdp] = …; sdp++; ctrl->free_desc--`, where `sdp` is the function's own copy.
abbrev pub push : ℕ → Desc → TxMedusa → ℕ × TxMedusa
push sdp desc ctrl =
    let is_inside = ltb sdp (2 * (ctrl.mdp + 1)) in
    (
      sdp + 1,
      record ctrl {
        descs = if is_inside then put (bit_and sdp ctrl.mdp) desc ctrl.descs else ctrl.descs;
        is_outside = if is_inside then ctrl.is_outside else true;
        free_desc = ctrl.free_desc - 1;
      },
    )

abbrev pub push_upper : ℕ → ℕ → TxMedusa → ℕ × TxMedusa
push_upper addr sdp ctrl =
    if upper_addr addr == ctrl.last_upper_addr
    then (sdp, ctrl)
    else push sdp (nc_ndp_tx_desc0 addr) (record ctrl { last_upper_addr = upper_addr addr })

module _ (page_size : ℕ) (phys frame_len meta : ℕ → ℕ) where
  -- One packet, whose header stands in the slot.
  unfoldable pub send_one : ℕ → ℕ → TxMedusa → ℕ × TxMedusa
  send_one slot sdp ctrl =
      let addr = (phys ctrl.mps.block_index + ctrl.mps.block_offset) % 2 ^ 64 in
      let (sdp', ready) = push_upper addr sdp ctrl in
      let (sdp'', sent) = push sdp' (nc_ndp_tx_desc2 addr (frame_len slot) (meta slot) 0) ready in
      (sdp'', record sent { mps = (ndp_ctrl_medusa_mps_inc page_size sent.mps).1 })

  -- The loop over the headers from the `i`-th on; `sdp` is the copy behind it.
  unfoldable pub send_rounds : ℕ → ℕ → List (ℕ × Bool) → ℕ → TxMedusa → Option (ℕ × TxMedusa)
  send_rounds zero i reads sdp ctrl = some (sdp, ctrl)
  send_rounds (suc rounds) i reads sdp ctrl =
      elim (ndp_ctrl_medusa_tx_wait_for_free_desc reads 2 ctrl) [
        | none ↦ none
        | some (is_killed, reads', ready) ↦
            let (sdp', after) = send_one (forward ready.mhp ready.shp i) sdp ready in
            let rest = send_rounds rounds (i + 1) reads' sdp' after in
            if is_killed then some (sdp, ready) else rest
      ]

  -- `ptr` is a word of 64 bits.
  unfoldable pub ndp_ctrl_medusa_tx_set_swptr : List (ℕ × Bool) → ℕ → TxMedusa → Option TxMedusa
  ndp_ctrl_medusa_tx_set_swptr reads ptr ctrl =
      elim (send_rounds (gap ctrl.mhp (ptr % 2 ^ 32) ctrl.shp) 0 reads ctrl.sdp ctrl) [
        | none ↦ none
        | some (sdp, sent) ↦
            let sdp' = bit_and sdp sent.mdp in
            some (record sent { sdp = sdp'; shp = ptr % 2 ^ 32; sdp_register = sdp' })
      ]
