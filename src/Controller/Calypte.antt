-- ===== src/Controller/Calypte.antt =====
-- drivers/kernel/drivers/nfb/ndp/ctrl_ndp.c: the pointers of a Calypte transmit queue, whose data lie in a buffer of
-- bytes in the card. `frame_len` are the lengths in the headers, of 16 bits; the headers are read through a mapping
-- in which the ring stands twice. NDP_TX_CALYPTE_BLOCK_SIZE is 32.
pub mod Bytes
use ndk_sw_bachelor_thesis.Common.{ℕ, zero, suc, ◌+◌, ◌-◌, ◌*◌, ◌/◌, ◌%◌, ◌^◌, bit_and}
use ndk_sw_bachelor_thesis.Controller.User.{gap, forward}

-- The fields of `struct ndp_ctrl` and of its `struct nc_ndp_ctrl` that these functions read or write; `sp_register`
-- is what the card was last told of both software pointers.
pub record TxCalypte : Type 0 where
  pub mdp : ℕ
  pub mhp : ℕ
  pub sdp : ℕ
  pub hdp : ℕ
  pub shp : ℕ
  pub hhp : ℕ
  pub free_bytes : ℕ
  pub sp_register : ℕ × ℕ

-- `(x + 31) & ~31` in 32 bits
abbrev pub ceil_block : ℕ → ℕ
ceil_block x = (x + 31) % 2 ^ 32 / 32 * 32

-- What the card's two pointers read is masked by `nc_ndp_ctrl_hp_update`.
unfoldable pub ndp_ctrl_calypte_tx_get_hwptr : (read_hdp read_hhp : ℕ) → TxCalypte → TxCalypte
ndp_ctrl_calypte_tx_get_hwptr read_hdp read_hhp ctrl =
    let hdp = bit_and read_hdp ctrl.mdp in
    record ctrl {
      hdp = hdp;
      hhp = bit_and read_hhp ctrl.mhp;
      free_bytes = (ctrl.free_bytes + gap ctrl.mdp hdp ctrl.hdp) % 2 ^ 64;
    }

module _ (frame_len : ℕ → ℕ) where
  -- One packet: `sdp` is the function's own copy.
  abbrev pub take_bytes : ℕ → ℕ → TxCalypte → ℕ × TxCalypte
  take_bytes slot sdp ctrl = (
    bit_and (ceil_block (sdp + frame_len slot)) ctrl.mdp,
    record ctrl { free_bytes = (ctrl.free_bytes + 2 ^ 64 - ceil_block (frame_len slot)) % 2 ^ 64 },
  )

  unfoldable pub take_rounds : ℕ → ℕ → ℕ → TxCalypte → ℕ × TxCalypte
  take_rounds zero i sdp ctrl = (sdp, ctrl)
  take_rounds (suc rounds) i sdp ctrl =
      let (sdp', after) = take_bytes (forward ctrl.mhp ctrl.shp i) sdp ctrl in
      take_rounds rounds (i + 1) sdp' after

  -- `ptr` is a word of 64 bits.
  unfoldable pub ndp_ctrl_calypte_tx_set_swptr : ℕ → TxCalypte → TxCalypte
  ndp_ctrl_calypte_tx_set_swptr ptr ctrl =
      let (sdp, after) = take_rounds (gap ctrl.mhp (ptr % 2 ^ 32) ctrl.shp) 0 ctrl.sdp ctrl in
      record after { sdp = sdp; shp = ptr % 2 ^ 32; sp_register = (sdp, ptr % 2 ^ 32) }
