-- ===== src/Controller/Begin.antt =====
-- drivers/kernel/drivers/nfb/ndp/ctrl_ndp.c: how a Medusa receive queue begins, `ndp_ctrl_medusa_start` behind the start
-- of the controller (Ndp/Restart): the offsets of the buffers are written, and all descriptors but a burst are filled.
pub mod Begun
use ndk_sw_bachelor_thesis.Common.{ℕ, ◌+◌, ◌-◌, Option, none, some, List}
use ndk_sw_bachelor_thesis.Controller.User.{desc_burst}
use ndk_sw_bachelor_thesis.Controller.Layout.{ndp_ctrl_medusa_mps_meta_first, write_offsets}
use ndk_sw_bachelor_thesis.Controller.Receive.{RxMedusa, ndp_ctrl_mps_fill_rx_descs}

-- `nc_ndp_ctrl_sdp_flush`
abbrev pub sdp_flush : RxMedusa → RxMedusa
sdp_flush ctrl = record ctrl { sp_register = (ctrl.sdp, ctrl.sp_register.1) }

-- The offsets that are written, and the queue; the walk is on fuel.
unfoldable pub medusa_start_rx :
    (page_size : ℕ) → (ℕ → ℕ) → ℕ → RxMedusa → Option (List ℕ × RxMedusa)
medusa_start_rx page_size phys fuel ctrl =
    elim (write_offsets page_size fuel (ndp_ctrl_medusa_mps_meta_first ctrl.mps)) [
      | none ↦ none
      | some (offsets, last) ↦
          let filled =
            ndp_ctrl_mps_fill_rx_descs page_size phys (record ctrl { mps = last })
              (ctrl.mdp + 1 - desc_burst) in
          some (offsets, record (sdp_flush filled) { free_desc = 0 })
    ]
