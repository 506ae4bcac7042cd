-- ===== src/Xdp/Tx/Callers.antt =====
-- The functions that hand packets to the transmit ring: ctrl_xdp_common.c (`nfb_xctrl_start_xmit`,
-- `nfb_xctrl_xdp_xmit`), ctrl_xdp_pp.c (`nfb_xctrl_rexmit_pp`), ctrl_xdp_xsk.c (`nfb_xctrl_rexmit_xsk`).
use ndk_sw_bachelor_thesis.Common.{
  ℕ, ◌+◌, max, Bool, true, false, Option, none, some, List, [], ◌∷◌, ◌++◌, Status, ok, err, enomem,
  if◌then◌else◌, not,
}
use ndk_sw_bachelor_thesis.Xdp.Tx.{
  frame_pp, skb, Xctrl, free_slots, Release, unmap, free_skb, return_frame,
  nfb_xctrl_tx_free_buffers, announce, emit, place, min_len, Frame,
  nfb_xctrl_tx_submit_frame_needs_lock,
}

-- `nc_ndp_ctrl_hdp_update` and the loop behind it, which runs at most once round the ring.
abbrev pub reclaim : ℕ → Xctrl → Option (List Release × Xctrl)
reclaim hdp' ctrl = nfb_xctrl_tx_free_buffers (ctrl.mdp + 2) (record ctrl { hdp = hdp' })

abbrev pub sdp_flush : Xctrl → Xctrl
sdp_flush ctrl = record ctrl { sdp_register = ctrl.sdp }

-- `struct sk_buff`: its address and length; whether `skb_linearize` and `skb_padto` succeed (a failed
-- `skb_padto` frees the buffer itself).
pub record Skb : Type 0 where
  pub address : ℕ
  pub len : ℕ
  pub linear : Bool
  pub padded : Bool

-- The packet's own fate, behind the releases of the reclaimed slots.
unfoldable pub nfb_xctrl_start_xmit :
    ℕ → Option ℕ → Skb → Xctrl → Option (Bool × List Release × Xctrl)
unfolding announce emit
nfb_xctrl_start_xmit hdp' mapped packet ctrl = elim (reclaim hdp' ctrl) [
  | none ↦ none
  | some (log, ready) ↦
      let len = max min_len packet.len in
      let free = free_slots ready.mdp ready.hdp ready.sdp in
      if not packet.linear
      then some (false, log ++ (free_skb packet.address ∷ []), ready)
      else (if not packet.padded
          then some (false, log ++ (free_skb packet.address ∷ []), ready)
          else elim mapped [
            | none ↦ some (false, log ++ (free_skb packet.address ∷ []), ready)
            | some dma ↦
                let (ret, placed) =
                  place (skb packet.address dma len) dma len ready.sdp ready.last_upper_addr free
                    ready in
                elim ret [
                  | ok ↦ some (true, log, sdp_flush placed)
                  | err e ↦
                      some (false, log ++ (unmap dma len ∷ free_skb packet.address ∷ []), placed)
                ]
          ])
]

-- The loop of `nfb_xctrl_xdp_xmit` over the frames, each with its DMA mapping: how many were accepted.
unfoldable pub submit_all : List (Option ℕ × Frame) → Xctrl → ℕ × List Release × Xctrl
submit_all [] ctrl = (0, [], ctrl)
submit_all (f ∷ frames) ctrl =
    let (ret, log, submitted) = nfb_xctrl_tx_submit_frame_needs_lock f.0 f.1 ctrl in
    let (cnt, log', after) = submit_all frames submitted in
    elim ret [ ok ↦ (cnt + 1, log ++ log', after) | err e ↦ (0, log, submitted) ]

unfoldable pub nfb_xctrl_xdp_xmit :
    ℕ → List (Option ℕ × Frame) → Xctrl → Option (ℕ × List Release × Xctrl)
nfb_xctrl_xdp_xmit hdp' [] ctrl = some (0, [], ctrl)
nfb_xctrl_xdp_xmit hdp' (f ∷ frames) ctrl = elim (reclaim hdp' ctrl) [
  | none ↦ none
  | some (log, ready) ↦
      let (cnt, log', after) = submit_all (f ∷ frames) ready in
      some (cnt, log ++ log', sdp_flush after)
]

-- `sdp0` and `upper0` are `sdp` and `last_upper_addr` as read before `tx_lock` is taken; `len` is that of
-- the packet, `frame` the frame that `xdp_convert_buff_to_frame` makes of the buffer.
unfoldable pub nfb_xctrl_rexmit_pp :
    (sdp0 upper0 hdp' dma frame len : ℕ) → Xctrl → Option (Status × List Release × Xctrl)
unfolding announce emit
nfb_xctrl_rexmit_pp sdp0 upper0 hdp' dma frame len ctrl = elim (reclaim hdp' ctrl) [
  | none ↦ none
  | some (log, ready) ↦
      let free = free_slots ready.mdp ready.fdp sdp0 in
      let (ret, placed) = place (frame_pp frame) dma (max len min_len) sdp0 upper0 free ready in
      elim ret [
        | ok ↦ some (ok, log, sdp_flush placed)
        | err e ↦ some (err e, log ++ (return_frame frame ∷ []), sdp_flush placed)
      ]
]

-- The frame is `none` when the conversion failed; address 0 stands for the null pointer that is then
-- handed to `xdp_return_frame`.
unfoldable pub nfb_xctrl_rexmit_xsk :
    (hdp' : ℕ) → Option ℕ → Option Frame → Xctrl → Option (Status × List Release × Xctrl)
unfolding nfb_xctrl_tx_submit_frame_needs_lock
nfb_xctrl_rexmit_xsk hdp' mapped none ctrl = some (err enomem, return_frame 0 ∷ [], ctrl)
nfb_xctrl_rexmit_xsk hdp' mapped (some frame) ctrl = elim (reclaim hdp' ctrl) [
  | none ↦ none
  | some (log, ready) ↦
      let (ret, log', after) = nfb_xctrl_tx_submit_frame_needs_lock mapped frame ready in
      elim ret [
        | ok ↦ some (ok, log ++ log', sdp_flush after)
        | err e ↦ some (err e, log ++ log' ++ (return_frame frame.address ∷ []), sdp_flush after)
      ]
]
