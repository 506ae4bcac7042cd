-- ===== src/Xdp/Rx/Verdict.antt =====
-- What happens to one received buffer: `nfb_xctrl_handle_pp` (ctrl_xdp_pp.c) and `nfb_xctrl_handle_xsk`
-- (ctrl_xdp_xsk.c), as the list of what is done with the buffer and with the frame made of it. The verdict
-- of the program, and whether a conversion or a redirection succeeds, are arguments; the retransmission is
-- the one of Xdp/Tx/Callers. In page pool mode the frame is the buffer itself; in AF_XDP mode
-- `xdp_convert_buff_to_frame` makes a copy and frees the buffer, or fails and leaves it alone, as the
-- driver's comment on it says. A failed `xdp_build_skb_from_frame` or `xdp_do_redirect` leaves what it was
-- given with the caller.
pub mod Placed
pub mod Ledger
use ndk_sw_bachelor_thesis.Common.{
  ℕ, Bool, true, false, Option, none, some, List, [], ◌∷◌, ◌++◌, Status, ok, err, ◌==◌, ◌||◌,
  if◌then◌else◌,
}
use ndk_sw_bachelor_thesis.Xdp.Tx.{
  Xctrl, TxBuffer, desc_type0, frame_pp, redirected, skb, xsk, Frame, Release, return_frame, unmap,
  free_skb, next_slot,
}
use ndk_sw_bachelor_thesis.Xdp.Tx.Callers.{reclaim, nfb_xctrl_rexmit_pp, nfb_xctrl_rexmit_xsk}

-- `XDP_*`, and any other number
pub data Verdict : Type 0 where
  xdp_pass xdp_tx xdp_redirect xdp_aborted xdp_drop xdp_unknown : Verdict

-- `give_back`: `xdp_return_frame` of the frame; `return_null`: of the null pointer
pub data Deed : Type 0 where
  free_buff give_buff convert give_frame give_back return_null : Deed

-- Whether `xdp_convert_buff_to_frame` and `xdp_build_skb_from_frame` succeed, and what `xdp_do_redirect`
-- returns.
pub record Services : Type 0 where
  pub converts : Bool
  pub builds : Bool
  pub redirected : Status

-- Without a program the verdict is XDP_PASS.
abbrev pub verdict_of : Option Verdict → Verdict
verdict_of none = xdp_pass
verdict_of (some act) = act

-- What a list of releases has behind the releases of the slots that were reclaimed first.
abbrev pub behind : List Release → List Release → List Release
behind [] log = log
behind (r ∷ reclaimed) [] = []
behind (r ∷ reclaimed) (s ∷ log) = behind reclaimed log

abbrev pub is_frame_pp : ℕ → TxBuffer → Bool
is_frame_pp frame desc_type0 = false
is_frame_pp frame (frame_pp f) = f == frame
is_frame_pp frame (redirected f dma len) = false
is_frame_pp frame (skb s dma len) = false
is_frame_pp frame (xsk n) = false

abbrev pub is_redirected : ℕ → TxBuffer → Bool
is_redirected frame desc_type0 = false
is_redirected frame (frame_pp f) = false
is_redirected frame (redirected f dma len) = f == frame
is_redirected frame (skb s dma len) = false
is_redirected frame (xsk n) = false

-- Whether a sender that began at slot `sdp` succeeded and left a buffer of this kind there, or in the next slot if
-- a descriptor of type 0 came first.
abbrev pub in_ring : (TxBuffer → Bool) → ℕ → Status → Xctrl → Bool
in_ring test sdp (err e) after = false
in_ring test sdp ok after =
    test (after.buffers sdp) || test (after.buffers (next_slot after.mdp sdp))

-- A return of the frame counts as this deed.
abbrev pub returns : Deed → ℕ → List Release → List Deed
returns deed frame [] = []
returns deed frame (return_frame f ∷ log) =
    if f == frame then deed ∷ returns deed frame log else returns deed frame log
returns deed frame (unmap dma len ∷ log) = returns deed frame log
returns deed frame (free_skb s ∷ log) = returns deed frame log

-- What a retransmission did to this buffer, as its results show: the ring took it if a slot holds it, and it was
-- freed as often as it was returned besides the slots reclaimed. The first two arguments are the slot at which the
-- retransmission began and the buffer; the third is what was reclaimed.
abbrev pub sent_pp :
    ℕ
    → ℕ
    → Option (List Release × Xctrl)
    → Option (Status × List Release × Xctrl)
    → Option (List Deed × Xctrl)
sent_pp sdp0 frame reclaimed none = none
sent_pp sdp0 frame none (some result) = none
sent_pp sdp0 frame (some (log0, ready)) (some (ret, log, after)) =
    let taken = if in_ring (is_frame_pp frame) sdp0 ret after then give_buff ∷ [] else [] in
    some (taken ++ returns free_buff frame (behind log0 log), after)

unfoldable pub nfb_xctrl_handle_pp :
    (sdp0 upper0 hdp' dma frame len : ℕ)
    → Option Verdict
    → Services
    → Xctrl
    → Option (List Deed × Xctrl)
nfb_xctrl_handle_pp sdp0 upper0 hdp' dma frame len act services tx = elim (verdict_of act) [
  | xdp_pass ↦ some ((if services.builds then give_buff ∷ [] else free_buff ∷ []), tx)
  | xdp_tx ↦
      sent_pp sdp0 frame (reclaim hdp' tx) (nfb_xctrl_rexmit_pp sdp0 upper0 hdp' dma frame len tx)
  | xdp_redirect ↦ elim services.redirected [
    | ok ↦ some (give_buff ∷ [], tx)
    | err e ↦ some (free_buff ∷ [], tx)
  ]
  | xdp_aborted ↦ some (free_buff ∷ [], tx)
  | xdp_drop ↦ some (free_buff ∷ [], tx)
  | xdp_unknown ↦ some (free_buff ∷ [], tx)
]

-- `nfb_xctrl_rexmit_xsk` converts the buffer first, and reclaims nothing if that fails. Otherwise the ring took the
-- frame if a slot holds it, and the frame was returned as often as it stands behind the slots reclaimed.
abbrev pub sent_xsk :
    Option Frame
    → Option (List Release × Xctrl)
    → Option (Status × List Release × Xctrl)
    → Option (List Deed × Xctrl)
sent_xsk converted reclaimed none = none
sent_xsk none reclaimed (some (ret, log, after)) = some (returns return_null 0 log, after)
sent_xsk (some frame) none (some result) = none
sent_xsk (some frame) (some (log0, ready)) (some (ret, log, after)) =
    let taken =
      if in_ring (is_redirected frame.address) ready.sdp ret after then give_frame ∷ [] else [] in
    some (convert ∷ (taken ++ returns give_back frame.address (behind log0 log)), after)

unfoldable pub nfb_xctrl_handle_xsk :
    (hdp' : ℕ) → Option ℕ → Frame → Option Verdict → Services → Xctrl → Option (List Deed × Xctrl)
nfb_xctrl_handle_xsk hdp' mapped frame act services tx = elim (verdict_of act) [
  | xdp_pass ↦ some (
    (if services.converts
        then (if services.builds then convert ∷ give_frame ∷ [] else convert ∷ free_buff ∷ [])
        else free_buff ∷ []),
    tx,
  )
  | xdp_tx ↦
      let converted = if services.converts then some frame else none in
      sent_xsk converted (reclaim hdp' tx) (nfb_xctrl_rexmit_xsk hdp' mapped converted tx)
  | xdp_redirect ↦ elim services.redirected [
    | ok ↦ some (give_buff ∷ [], tx)
    | err e ↦ some ([], tx)
  ]
  | xdp_aborted ↦ some (free_buff ∷ [], tx)
  | xdp_drop ↦ some (free_buff ∷ [], tx)
  | xdp_unknown ↦ some (free_buff ∷ [], tx)
]
