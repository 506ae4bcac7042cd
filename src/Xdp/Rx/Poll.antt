-- ===== src/Xdp/Rx/Poll.antt =====
-- The receive polls (`nfb_xctrl_napi_poll_pp` of ctrl_xdp_pp.c, `nfb_xctrl_napi_poll_rx_xsk` of
-- ctrl_xdp_xsk.c). Each refills the queue, takes what the card has filled
-- and handles each buffer by the verdict on it. What the card's pointers read, the verdicts and the results of the
-- kernel's calls are arguments.
pub mod Kept
pub mod Account
pub mod Xsk
use native.Mathlib.Nat.{add-mod_right, mod-eq_of_lt}
use ndk_sw_bachelor_thesis.Common.{
  ℕ, zero, suc, ◌+◌, ◌-◌, ◌%◌, ◌^◌, max, ◌<◌, ◌≤◌, ◌≡◌, refl, ap, sym, ◌∙◌, Bool, true, false,
  Bool-cases, inl, inr, Option, none, some, List, [], ◌∷◌, ◌++◌, ◌&&◌, ◌==◌, ltb, if◌then◌else◌,
  length, bit_and, Status, ok, err, ebusy, arith,
}
use ndk_sw_bachelor_thesis.Common.Bits.{low_mask}
use ndk_sw_bachelor_thesis.Xdp.Tx.{
  Frame, Xctrl, TxBuffer, Release, announce, emit, place, return_frame, frame_pp, min_len,
  free_slots, upper_addr,
}
use ndk_sw_bachelor_thesis.Xdp.Tx.Callers.{reclaim, sdp_flush, nfb_xctrl_rexmit_pp}
use ndk_sw_bachelor_thesis.Xdp.Tx.Reclaim.{Reclaimed, free_buffers-Reclaimed}
use ndk_sw_bachelor_thesis.Xdp.Rx.{
  RxCtrl, Filled, nfb_xctrl_rx_fill_pp, nfb_xctrl_rx_fill_xsk, refill, receive, take_ready,
  ready_count,
}
use ndk_sw_bachelor_thesis.Xdp.Rx.Verdict.{
  Verdict, xdp_pass, xdp_tx, xdp_redirect, xdp_aborted, xdp_drop, xdp_unknown, Deed, free_buff,
  give_buff, Services, verdict_of, nfb_xctrl_handle_pp, nfb_xctrl_handle_xsk, sent_pp,
}
use ndk_sw_bachelor_thesis.Xdp.Rx.Verdict.Ledger.{
  IsHandled, Reclaimable, is_clean, handle_pp-IsHandled,
}

-- What the handling of one buffer meets: the pointers read, the data after the program ran, and the verdict.
pub record Given : Type 0 where
  pub sdp0 : ℕ
  pub upper0 : ℕ
  pub hdp' : ℕ
  pub dma : ℕ
  pub len : ℕ
  pub act : Option Verdict
  pub services : Services

abbrev pub Handler : Type 0
Handler = ℕ → ℕ × ℕ → Xctrl → Option (List Deed × Xctrl)

abbrev pub handle_given : (ℕ → Given) → Handler
handle_given given j (buff, len) tx =
    let g = given j in
    nfb_xctrl_handle_pp g.sdp0 g.upper0 g.hdp' g.dma buff g.len g.act g.services tx

-- The loop over the received buffers; `j` counts them.
unfoldable pub handle_each : Handler → ℕ → List (ℕ × ℕ) → Xctrl → Option (List (List Deed) × Xctrl)
handle_each handle j [] tx = some ([], tx)
handle_each handle j (b ∷ bs) tx = elim (handle j b tx) [
  | none ↦ none
  | some (deeds, after) ↦ elim (handle_each handle (j + 1) bs after) [
    | none ↦ none
    | some (more, last) ↦ some (deeds ∷ more, last)
  ]
]

-- What is returned, whether `napi_complete_done` was called, what was done with each buffer, and both queues.
pub record Polled : Type 0 where
  pub received : ℕ
  pub is_complete : Bool
  pub deeds : List (List Deed)
  pub rx : RxCtrl
  pub tx : Xctrl

-- Behind the refill. The flush of `sdp` and `shp` writes what the queue says.
unfoldable pub handle_received : Handler → ℕ → ℕ → RxCtrl → Xctrl → Option Polled
handle_received handle hhp' budget filled tx =
    let (buffs, left) = receive budget hhp' filled in
    elim (handle_each handle 0 buffs tx) [
      | none ↦ none
      | some (deeds, sent) ↦ some (record {
        received = length buffs;
        is_complete = if length buffs == budget then false else true;
        deeds = deeds;
        rx = left;
        tx = sent;
      })
    ]

-- `weight` is the kernel's NAPI_POLL_WEIGHT. `none`: the kernel stops at `BUG`, or a loop has used up its fuel.
unfoldable pub nfb_xctrl_napi_poll_pp :
    (weight : ℕ) (dma : ℕ → ℕ) (frame_len : ℕ) (pages : ℕ → ℕ → Option ℕ) (hdps : ℕ → ℕ)
    (fuel hhp' : ℕ)
    → (ℕ → Given)
    → ℕ
    → RxCtrl
    → Xctrl
    → Option Polled
nfb_xctrl_napi_poll_pp weight dma frame_len pages hdps fuel hhp' given budget rx tx =
    if ltb weight budget
    then none
    else elim (refill (λ j. nfb_xctrl_rx_fill_pp dma frame_len (pages j) (hdps j)) fuel 0 rx) [
      | none ↦ none
      | some (freed, filled) ↦ handle_received (handle_given given) hhp' budget filled tx
    ]

-- The same in AF_XDP mode. `extent` is `data_end - data_hard_start` of the buffer.
pub record GivenXsk : Type 0 where
  pub extent : ℕ
  pub hdp' : ℕ
  pub mapped : Option ℕ
  pub frame : Frame
  pub act : Option Verdict
  pub services : Services

-- A packet that is larger than a page is freed before the program runs.
abbrev pub handle_given_xsk : ℕ → (ℕ → GivenXsk) → Handler
handle_given_xsk page_size given j b tx =
    let g = given j in
    let handled = nfb_xctrl_handle_xsk g.hdp' g.mapped g.frame g.act g.services tx in
    if ltb page_size g.extent then some (free_buff ∷ [], tx) else handled

unfoldable pub nfb_xctrl_napi_poll_rx_xsk :
    (weight page_size : ℕ) (dma : ℕ → ℕ) (frame_len : ℕ) (batches : ℕ → List ℕ) (hdps : ℕ → ℕ)
    (fuel hhp' : ℕ)
    → (ℕ → GivenXsk)
    → ℕ
    → RxCtrl
    → Xctrl
    → Option Polled
nfb_xctrl_napi_poll_rx_xsk weight page_size dma frame_len batches hdps fuel hhp' given budget rx
      tx =
    if ltb weight budget
    then none
    else elim (refill (λ j. nfb_xctrl_rx_fill_xsk dma frame_len (batches j) (hdps j)) fuel 0 rx) [
      | none ↦ none
      | some (freed, filled) ↦
          handle_received (handle_given_xsk page_size given) hhp' budget filled tx
    ]
