-- ===== src/Controller/User.antt =====
-- drivers/kernel/drivers/nfb/ndp/ctrl_ndp.c: `ndp_ctrl_user_fill_rx_descs`, which turns the buffers that a user
-- gives into descriptors. The offsets and headers are read, and the descriptors written, through mappings in which
-- the ring stands twice, so that an index behind the end is a slot at the beginning.
pub mod Bursts
use ndk_sw_bachelor_thesis.Common.{
  ℕ, zero, suc, ◌+◌, ◌-◌, ◌*◌, ◌/◌, ◌%◌, ◌^◌, bit_and, Bool, true, false, not, ◌&&◌, ◌==◌, Option,
  none, some, if◌then◌else◌,
}
use ndk_sw_bachelor_thesis.Xdp.Tx.{Desc, upper_addr, put}
use ndk_sw_bachelor_thesis.Xdp.Rx.{nc_ndp_rx_desc0, nc_ndp_rx_desc2}

-- The fields of `struct ndp_ctrl` and of its `struct nc_ndp_ctrl` that the function reads or writes.
pub record UserCtrl : Type 0 where
  pub last_upper_addr : ℕ
  pub mdp : ℕ
  pub sdp : ℕ
  pub hdp : ℕ
  pub mhp : ℕ
  pub shp : ℕ
  pub php : ℕ
  pub free_desc : ℕ
  pub next_sdp : ℕ
  pub next_sdp_age : ℕ
  pub descs : ℕ → Desc
  pub sdp_register : ℕ

-- NDP_CTRL_RX_DESC_BURST
abbrev pub desc_burst : ℕ
desc_burst = 64

-- NDP_CTRL_NEXT_SDP_AGE_MAX
abbrev pub age_max : ℕ
age_max = 16

-- `(a - b) & mask` of words of 32 bits
abbrev pub gap : ℕ → ℕ → ℕ → ℕ
gap mask a b = bit_and ((a + 2 ^ 32 - b) % 2 ^ 32) mask

abbrev pub forward : ℕ → ℕ → ℕ → ℕ
forward mask a n = bit_and ((a + n) % 2 ^ 32) mask

-- A descriptor at the `j`-th place behind `next_sdp`.
abbrev pub write_desc : ℕ → Desc → UserCtrl → UserCtrl
write_desc j desc ctrl = record ctrl {
  descs = put (forward ctrl.mdp ctrl.next_sdp j) desc ctrl.descs;
  free_desc = ctrl.free_desc - 1;
}

-- The first half of a round: `none` is the `break`; else how many descriptors there are now.
abbrev pub user_upper : ℕ → ℕ → UserCtrl → Option (ℕ × UserCtrl)
user_upper addr j ctrl =
    if upper_addr addr == ctrl.last_upper_addr
    then some (j, ctrl)
    else (if ctrl.free_desc == 0
        then none
        else some (
          j + 1,
          write_desc j (nc_ndp_rx_desc0 addr) (record ctrl { last_upper_addr = upper_addr addr }),
        ))

-- `ctrl->c.sdp = …` with the flush
abbrev pub move_sdp : ℕ → UserCtrl → UserCtrl
move_sdp shift ctrl =
    let sdp = forward ctrl.mdp ctrl.sdp shift in record ctrl { sdp = sdp; sdp_register = sdp }

-- Behind the loop, which did `i` rounds and wrote `j` descriptors.
abbrev pub user_publish : ℕ → ℕ → UserCtrl → UserCtrl
user_publish i j ctrl =
    let next_sdp = forward ctrl.mdp ctrl.next_sdp j in
    let shift = gap ctrl.mdp next_sdp ctrl.sdp in
    let age = if j == 0 && not (shift == 0) then (ctrl.next_sdp_age + 1) % 2 ^ 8 else 0 in
    let bursts = shift / desc_burst * desc_burst in
    let aged = record ctrl {
      next_sdp = next_sdp;
      php = forward ctrl.mhp ctrl.php i;
      next_sdp_age = age;
    } in
    if age == age_max
    then move_sdp shift aged
    else (if bursts == 0 then aged else move_sdp bursts aged)

module _ (off frame_len : ℕ → ℕ) where
  -- The loop with `rounds` to go: the rounds done, the descriptors written, and the controller.
  unfoldable pub user_rounds : ℕ → ℕ → ℕ → UserCtrl → ℕ × ℕ × UserCtrl
  user_rounds zero i j ctrl = (i, j, ctrl)
  user_rounds (suc rounds) i j ctrl =
      let slot = forward ctrl.mhp ctrl.php i in
      elim (user_upper (off slot) j ctrl) [
        | none ↦ (i, j, ctrl)
        | some (j', ready) ↦
            let rest =
              user_rounds rounds (i + 1) (j' + 1)
                (write_desc j' (nc_ndp_rx_desc2 (off slot) (frame_len slot) 0) ready) in
            if ready.free_desc == 0 then (i, j', ready) else rest
      ]

  unfoldable pub ndp_ctrl_user_fill_rx_descs : UserCtrl → UserCtrl
  ndp_ctrl_user_fill_rx_descs ctrl =
      let count = gap ctrl.mhp ctrl.shp ctrl.php in
      let free = bit_and ((ctrl.hdp + 2 ^ 32 - ctrl.next_sdp + 2 ^ 32 - 1) % 2 ^ 32) ctrl.mhp in
      let (i, j, filled) = user_rounds count 0 0 (record ctrl { free_desc = free }) in
      if i == 0 then filled else user_publish i j filled
