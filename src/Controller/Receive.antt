-- ===== src/Controller/Receive.antt =====
-- drivers/kernel/drivers/nfb/ndp/ctrl_ndp.c: how a Medusa controller gets empty buffers, in the mode in which
-- `ndp_ctrl_medusa_start` puts it (NDP_CTRL_MODE_PACKET_SIMPLE). `phys` is where a block of the ring lies for the
-- card. The headers are read and the descriptors written through mappings in which the ring stands twice.
pub mod Fill
pub mod Refill
use ndk_sw_bachelor_thesis.Common.{
  ℕ, zero, suc, ◌+◌, ◌-◌, ◌*◌, ◌%◌, ◌^◌, Bool, true, false, ◌==◌, ltb, Option, none, some,
  if◌then◌else◌,
}
use ndk_sw_bachelor_thesis.Xdp.Tx.{Desc, upper_addr, put}
use ndk_sw_bachelor_thesis.Xdp.Rx.{nc_ndp_rx_desc0, nc_ndp_rx_desc2}
use ndk_sw_bachelor_thesis.Controller.User.{desc_burst, gap, forward}
use ndk_sw_bachelor_thesis.Controller.Layout.{StateMps, ndp_ctrl_medusa_mps_inc}

-- The fields of `struct ndp_ctrl` and of its `struct nc_ndp_ctrl` that these functions read or write; `sp_register`
-- is what the card was last told of both software pointers.
pub record RxMedusa : Type 0 where
  pub last_upper_addr : ℕ
  pub mdp : ℕ
  pub mhp : ℕ
  pub sdp : ℕ
  pub shp : ℕ
  pub free_desc : ℕ
  pub mps : StateMps
  pub descs : ℕ → Desc
  pub sp_register : ℕ × ℕ

-- The descriptors that the headers of `rounds` packets give back: how many packets took one, how many took two.
abbrev pub count_frees : (ℕ → ℕ) → ℕ → ℕ → ℕ → ℕ × ℕ
count_frees freed mask zero slot = (0, 0)
count_frees freed mask (suc rounds) slot =
    let (ones, twos) = count_frees freed mask rounds (forward mask slot 1) in
    if freed slot == 1
    then (ones + 1, twos)
    else (if freed slot == 2 then (ones, twos + 1) else (ones, twos))

-- `nc_ndp_ctrl_sp_flush`
abbrev pub sp_flush : RxMedusa → RxMedusa
sp_flush ctrl = record ctrl { sp_register = (ctrl.sdp, ctrl.shp) }

module _ (page_size : ℕ) (phys : ℕ → ℕ) where
  abbrev pub buffer_addr : StateMps → ℕ
  buffer_addr s = (phys s.block_index + s.block_offset) % 2 ^ 64

  -- One round, which writes a descriptor: the upper bits of the address, or the buffer.
  unfoldable pub fill_one : ℕ → RxMedusa → RxMedusa
  fill_one i ctrl =
      let addr = buffer_addr ctrl.mps in
      let slot = forward ctrl.mdp ctrl.sdp i in
      if upper_addr addr == ctrl.last_upper_addr
      then record ctrl {
        descs = put slot (nc_ndp_rx_desc2 addr ctrl.mps.cfg.buffer_size 0) ctrl.descs;
        mps = (ndp_ctrl_medusa_mps_inc page_size ctrl.mps).1;
      }
      else record ctrl {
        last_upper_addr = upper_addr addr;
        descs = put slot (nc_ndp_rx_desc0 addr) ctrl.descs;
      }

  abbrev pub fill_rounds : ℕ → ℕ → RxMedusa → RxMedusa
  fill_rounds zero i ctrl = ctrl
  fill_rounds (suc rounds) i ctrl = fill_rounds rounds (i + 1) (fill_one i ctrl)

  abbrev pub ndp_ctrl_mps_fill_rx_descs : RxMedusa → ℕ → RxMedusa
  ndp_ctrl_mps_fill_rx_descs ctrl count =
      let filled = fill_rounds count 0 ctrl in
      record filled { sdp = forward filled.mdp filled.sdp count }

  -- `while (ctrl->free_desc >= NDP_CTRL_RX_DESC_BURST)` on fuel; the Boolean is whether there was a burst.
  unfoldable pub refill_bursts : ℕ → Bool → RxMedusa → Option (Bool × RxMedusa)
  refill_bursts zero any ctrl = none
  refill_bursts (suc fuel) any ctrl =
      let filled = ndp_ctrl_mps_fill_rx_descs ctrl desc_burst in
      let rest =
        refill_bursts fuel true (record filled { free_desc = filled.free_desc - desc_burst }) in
      if ltb ctrl.free_desc desc_burst then some (any, ctrl) else rest

  -- `ptr` is a word of 64 bits; `freed` is what the headers in the slots give back.
  unfoldable pub ndp_ctrl_medusa_rx_set_swptr : ℕ → (ℕ → ℕ) → ℕ → RxMedusa → Option RxMedusa
  ndp_ctrl_medusa_rx_set_swptr fuel freed ptr ctrl =
      let count = gap ctrl.mhp (ptr % 2 ^ 32) ctrl.shp in
      let (ones, twos) = count_frees freed ctrl.mhp count ctrl.shp in
      let told = record ctrl {
        free_desc = (ctrl.free_desc + (ones + twos * 2)) % 2 ^ 32;
        shp = ptr % 2 ^ 32;
      } in
      elim (refill_bursts fuel false told) [
        | none ↦ none
        | some (any, after) ↦ some (if any then sp_flush after else after)
      ]
