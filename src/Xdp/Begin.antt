-- ===== src/Xdp/Begin.antt =====
-- drivers/kernel/drivers/nfb/xdp/ctrl_xdp_common.c: `nfb_xctrl_start`, which starts the DMA controller of a queue.
use native.Mathlib.Nat.{one-le-pow, mod-eq_of_lt}
use ndk_sw_bachelor_thesis.Common.{
  ℕ, ◌^◌, ◌<◌, ◌≤◌, ◌≡◌, sym, ap, subst, inl, inr, Bool, true, List, [], String, ok, err, arith,
}
use ndk_sw_bachelor_thesis.Lock.{LockItem}
use ndk_sw_bachelor_thesis.Lock.Exclusion.{Exclusive}
use ndk_sw_bachelor_thesis.Ndp.{
  medusa, NdpCtrl, StartParams, Registers, Outcome, nc_ndp_ctrl_start, ones64,
}
use ndk_sw_bachelor_thesis.Ndp.Start.{Ready, LeftBy, start-Left}
use ndk_sw_bachelor_thesis.Xdp.Alloc.{QueueType, rx, tx}
use ndk_sw_bachelor_thesis.Xdp.Tx.{Xctrl}
use ndk_sw_bachelor_thesis.Xdp.Tx.Pending.{Pending}

-- The fields of `struct xctrl` that a start reads.
pub record Queue : Type 0 where
  pub kind : QueueType
  pub desc_buffer_dma : ℕ
  pub update_buffer_dma : ℕ
  pub hdr_buffer_dma : ℕ
  pub nb_desc : ℕ
  pub nb_hdr : ℕ

-- `sp`: the fields that are not set are 0.
abbrev pub start_params : Queue → StartParams
start_params queue = record {
  desc_buffer = queue.desc_buffer_dma;
  data_buffer = 0;
  hdr_buffer = elim queue.kind [ rx ↦ queue.hdr_buffer_dma | tx ↦ 0 ];
  update_buffer = queue.update_buffer_dma;
  nb_data = 0;
  nb_desc = queue.nb_desc;
  nb_hdr = elim queue.kind [ rx ↦ queue.nb_hdr | tx ↦ 0 ];
}

-- `ctrl->c` inside `struct xctrl`.
abbrev pub attach : NdpCtrl → Xctrl → Xctrl
attach c ctrl = record ctrl {
  last_upper_addr = c.last_upper_addr;
  mdp = c.mdp;
  sdp = c.sdp;
  hdp = c.hdp;
}

module _ (memory : ℕ → Bool) (others : ℕ → List LockItem → List LockItem) (kernel_app : ℕ)
    (path : String) where
  -- The Boolean is XCTRL_STATUS_IS_RUNNING.
  unfoldable pub nfb_xctrl_start :
      Registers → Queue → NdpCtrl → List LockItem → Bool → Outcome × Bool
  nfb_xctrl_start regs queue c items running =
      let started =
        nc_ndp_ctrl_start memory others kernel_app path regs (start_params queue) c items in
      (started, elim started.result [ ok ↦ true | err e ↦ running ])

  -- A transmit queue that started on a Medusa controller is marked running, has a power of two of slots, at most
  -- 2^31, and nothing pending in it, whatever the descriptor memory holds; the hardware stands at no upper
  -- address that a packet could have. The number of descriptors is a word of 32 bits, and the locks are exclusive.
  pub start-Pending :
      (regs : Registers) (queue : Queue) (c : NdpCtrl) (items : List LockItem) (running : Bool)
      (ctrl : Xctrl)
      → c.ty ≡ medusa
      → queue.kind ≡ tx
      → queue.nb_desc < 2 ^ 32
      → Exclusive items
      → (nfb_xctrl_start regs queue c items running).0.result ≡ ok
      → ((nfb_xctrl_start regs queue c items running).1 ≡ true)
        × ((k : ℕ) × (k ≤ 31)
            × (queue.nb_desc ≡ 2 ^ k)
            × Pending k 0 ones64 []
                (attach ((nfb_xctrl_start regs queue c items running).0.ctrl) ctrl))
  unfolding nfb_xctrl_start
  start-Pending regs queue c items running ctrl medusa_is tx_is h x succeeded =
      let o = nc_ndp_ctrl_start memory others kernel_app path regs (start_params queue) c items in
      let left =
        start-Left memory others kernel_app path regs (start_params queue) c items (ground arith)
          (ground arith) x in
      let (ready_is, accepted, taken, written) =
        subst (LeftBy memory others kernel_app path regs (start_params queue) c items o) succeeded
          left in
      (
        ap (λ s. elim s as (λ _. Bool) [ ok ↦ true | err e ↦ running ]) succeeded,
        masked o.ctrl ready_is,
      )
    where
      masked :
          (after : NdpCtrl)
          → Ready (start_params queue) c after
          → (k : ℕ) × (k ≤ 31) × (queue.nb_desc ≡ 2 ^ k) × Pending k 0 ones64 [] (attach after ctrl)
      masked after (sdp_is, hdp_is, shp_is, hhp_is, upper_is, inl calypte_tx, header) =
          absurd (ground arith)
      masked after
            (sdp_is, hdp_is, shp_is, hhp_is, upper_is, inr (k, small, size_is, mask_is), header) =
          (
            k,
            small,
            ground arith,
            (
              mask_is,
              one-le-pow k 2 (omega arith),
              omega (arith, hdp_is, one-le-pow k 2 (omega arith)),
              rw (sdp_is, hdp_is) (sym (mod-eq_of_lt (one-le-pow k 2 (omega arith)))),
              ap (λ u. (u, [])) (sym upper_is),
            ),
          )
