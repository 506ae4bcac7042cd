-- ===== src/Xdp/Tx.antt =====
-- The transmit ring of the XDP driver: drivers/kernel/drivers/nfb/xdp/ctrl_xdp_common.h
-- (`nfb_xctrl_tx_submit_frame_needs_lock`, `nfb_xctrl_tx_free_buffers`), with the descriptors of
-- libnfb/include/netcope/dma_ctrl_ndp.h. `tx_lock` makes each locked part atomic. What a DMA mapping
-- returns, and the hardware pointer that `nc_ndp_ctrl_hdp_update` reads, are arguments.
pub mod Callers
pub mod Decode
pub mod Pending
pub mod Submit
pub mod Stale
pub mod Poll
pub mod Reclaim
use ndk_sw_bachelor_thesis.Common.{
  ℕ, zero, suc, ◌+◌, ◌-◌, ◌*◌, ◌/◌, ◌%◌, ◌^◌, max, bit_and, Bool, true, false, Option, none, some,
  List, [], ◌∷◌, ◌++◌, Status, ok, err, ebusy, enotsupp, enomem, efault, ◌==◌, ltb, if◌then◌else◌,
  not, ◌&&◌,
}

-- `struct nc_ndp_desc`, the two types that transmission uses, by their bit fields
pub data Desc : Type 0 where
  type0 : (phys_lo phys_hi : ℕ) → Desc
  type2 : (phys len meta next0 : ℕ) → Desc

abbrev pub nc_ndp_tx_desc0 : ℕ → Desc
nc_ndp_tx_desc0 phys = type0 (phys / 2 ^ 30 % 2 ^ 32) (phys / 2 ^ 62 % 2 ^ 2)

abbrev pub nc_ndp_tx_desc2 : ℕ → ℕ → ℕ → ℕ → Desc
nc_ndp_tx_desc2 phys len meta next = type2 (phys % 2 ^ 30) (len % 2 ^ 16) (meta % 2 ^ 12) next

-- `addr & 0xFFFFFFFFc0000000`: a 64-bit address with its low 30 bits cleared
abbrev pub upper_addr : ℕ → ℕ
upper_addr addr = addr / 2 ^ 30 * 2 ^ 30

-- `struct xctrl_tx_buffer`: what is behind a slot. Frames and socket buffers are addresses.
pub data TxBuffer : Type 0 where
  desc_type0 : TxBuffer
  frame_pp : (frame : ℕ) → TxBuffer
  redirected : (frame dma len : ℕ) → TxBuffer
  skb : (skb dma len : ℕ) → TxBuffer
  xsk : (num_of_xsk_completions : ℕ) → TxBuffer

-- `struct xctrl` of a transmit queue; `sdp_register` is what the hardware was last told.
pub record Xctrl : Type 0 where
  pub last_upper_addr : ℕ
  pub mdp : ℕ
  pub sdp : ℕ
  pub hdp : ℕ
  pub fdp : ℕ
  pub descs : ℕ → Desc
  pub buffers : ℕ → TxBuffer
  pub completed_xsk_tx : ℕ
  pub sdp_register : ℕ

abbrev pub put {ℓ} : {A : Type ℓ} → ℕ → A → (ℕ → A) → ℕ → A
put i a f j = if j == i then a else f j

-- `(p + 1) & mdp`
abbrev pub next_slot : ℕ → ℕ → ℕ
next_slot mdp p = bit_and ((p + 1) % 2 ^ 32) mdp

-- `(head - sdp - 1) & mdp` in 32 bits
abbrev pub free_slots : ℕ → ℕ → ℕ → ℕ
free_slots mdp head sdp = bit_and ((head + 2 ^ 32 - sdp + 2 ^ 32 - 1) % 2 ^ 32) mdp

-- What giving back one buffer does outside of the controller
pub data Release : Type 0 where
  return_frame : (frame : ℕ) → Release
  unmap : (dma len : ℕ) → Release
  free_skb : (skb : ℕ) → Release

abbrev pub released : TxBuffer → List Release
released desc_type0 = []
released (frame_pp frame) = return_frame frame ∷ []
released (redirected frame dma len) = unmap dma len ∷ return_frame frame ∷ []
released (skb s dma len) = unmap dma len ∷ free_skb s ∷ []
released (xsk completions) = []

abbrev pub completions : TxBuffer → ℕ
completions desc_type0 = 0
completions (frame_pp frame) = 0
completions (redirected frame dma len) = 0
completions (skb s dma len) = 0
completions (xsk n) = n

-- The loop of `nfb_xctrl_tx_free_buffers` from slot `i`, on fuel; `none`: the fuel is used up.
unfoldable pub free_loop : ℕ → ℕ → Xctrl → Option (List Release × Xctrl)
free_loop zero i ctrl = none
free_loop (suc fuel) i ctrl =
    let step = record ctrl {
      completed_xsk_tx = (ctrl.completed_xsk_tx + completions (ctrl.buffers i)) % 2 ^ 32;
      buffers = put i desc_type0 ctrl.buffers;
    } in
    let rest = free_loop fuel (next_slot ctrl.mdp i) step in
    if i == ctrl.hdp then some ([], record ctrl { fdp = ctrl.hdp }) else elim rest [
      | none ↦ none
      | some (log, after) ↦ some (released (ctrl.buffers i) ++ log, after)
    ]

unfoldable pub nfb_xctrl_tx_free_buffers : ℕ → Xctrl → Option (List Release × Xctrl)
nfb_xctrl_tx_free_buffers fuel ctrl = free_loop fuel ctrl.fdp ctrl

-- The part that all four transmit functions share: a descriptor of type 0 when the upper bits of the
-- address change. It works on copies of the pointers; `none` is the jump to the busy label.
unfoldable pub announce : ℕ → ℕ → ℕ → ℕ → Xctrl → Option (ℕ × ℕ × Xctrl)
announce dma sdp upper free ctrl =
    if upper_addr dma == upper
    then some (sdp, free, ctrl)
    else (if ltb free 2
        then none
        else some (
          next_slot ctrl.mdp sdp,
          free - 1,
          record ctrl {
            last_upper_addr = upper_addr dma;
            descs = put sdp (nc_ndp_tx_desc0 dma) ctrl.descs;
            buffers = put sdp desc_type0 ctrl.buffers;
          },
        ))

-- The shared rest: the descriptor of type 2 and the new `sdp`.
unfoldable pub emit : TxBuffer → ℕ → ℕ → Option (ℕ × ℕ × Xctrl) → Xctrl → Status × Xctrl
emit buffer dma len none ctrl = (err ebusy, ctrl)
emit buffer dma len (some (sdp, free, announced)) ctrl =
    if free == 0 then (err ebusy, announced) else (
      ok,
      record announced {
        descs = put sdp (nc_ndp_tx_desc2 dma len 0 0) announced.descs;
        buffers = put sdp buffer announced.buffers;
        sdp = next_slot announced.mdp sdp;
      },
    )

abbrev pub place : TxBuffer → ℕ → ℕ → ℕ → ℕ → ℕ → Xctrl → Status × Xctrl
place buffer dma len sdp upper free ctrl =
    emit buffer dma len (announce dma sdp upper free ctrl) ctrl

abbrev pub min_len : ℕ
min_len = 60

-- `struct xdp_frame`, the fields that are read
pub record Frame : Type 0 where
  pub address : ℕ
  pub len : ℕ
  pub frame_sz : ℕ
  pub headroom : ℕ

-- Returns what is unmapped too. The DMA mapping is `none` when it failed.
unfoldable pub nfb_xctrl_tx_submit_frame_needs_lock :
    Option ℕ → Frame → Xctrl → Status × List Release × Xctrl
unfolding announce emit
nfb_xctrl_tx_submit_frame_needs_lock mapped frame ctrl =
    let len = max frame.len min_len in
    let free = free_slots ctrl.mdp ctrl.hdp ctrl.sdp in
    if ltb frame.len min_len && ltb ((frame.frame_sz + 2 ^ 32 - frame.headroom) % 2 ^ 32) min_len
    then (err enotsupp, [], ctrl)
    else elim mapped [
      | none ↦ (err enomem, [], ctrl)
      | some dma ↦
          let (ret, placed) =
            place (redirected frame.address dma len) dma len ctrl.sdp ctrl.last_upper_addr free
              ctrl in
          elim ret [ ok ↦ (ok, [], placed) | err e ↦ (err e, unmap dma len ∷ [], placed) ]
    ]
