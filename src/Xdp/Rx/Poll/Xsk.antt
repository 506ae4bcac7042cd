-- ===== src/Xdp/Rx/Poll/Xsk.antt =====
-- The account of the buffers over a receive poll of AF_XDP mode (ctrl_xdp_xsk.c).
use ndk_sw_bachelor_thesis.Common.{
  ℕ, ◌^◌, ◌+◌, ◌-◌, ◌%◌, ◌<◌, ◌≤◌, max, ◌≡◌, refl, Bool, true, false, ◌&&◌, ◌||◌, not, Option, none,
  some, List, [], ◌∷◌, ◌++◌, ltb, if◌then◌else◌, length, Status, ok, err, enotsupp, enomem, arith,
}
use ndk_sw_bachelor_thesis.Xdp.Tx.{
  Xctrl, Frame, Release, place, redirected, unmap, return_frame as returned, min_len, free_slots,
  nfb_xctrl_tx_submit_frame_needs_lock,
}
use ndk_sw_bachelor_thesis.Xdp.Tx.Callers.{reclaim, sdp_flush, nfb_xctrl_rexmit_xsk}
use ndk_sw_bachelor_thesis.Xdp.Tx.Reclaim.{Reclaimed, free_buffers-Reclaimed}
use ndk_sw_bachelor_thesis.Xdp.Rx.{RxCtrl, batch_size, nfb_xctrl_rx_fill_xsk, refill}
use ndk_sw_bachelor_thesis.Xdp.Rx.Headers.{Taken}
use ndk_sw_bachelor_thesis.Xdp.Rx.Refill.{Ended, refill-Ended}
use ndk_sw_bachelor_thesis.Xdp.Rx.Verdict.{
  Verdict, xdp_pass, xdp_tx, xdp_redirect, xdp_aborted, xdp_drop, xdp_unknown, Deed, free_buff,
  give_buff, Services, verdict_of, nfb_xctrl_handle_xsk, sent_xsk,
}
use ndk_sw_bachelor_thesis.Xdp.Rx.Verdict.Ledger.{is_mishandled, handle_xsk-IsHandled}
use ndk_sw_bachelor_thesis.Xdp.Rx.Poll.{
  GivenXsk, handle_given_xsk, handle_received, nfb_xctrl_napi_poll_rx_xsk,
}
use ndk_sw_bachelor_thesis.Xdp.Rx.Poll.Kept.{
  Sized, Kept, emit_keeps, announce_keeps, reclaim_Sized, ahead, reclaimable,
}
use ndk_sw_bachelor_thesis.Xdp.Rx.Poll.Account.{
  Handled, IsHandled-Kept, IsPolled, received-IsPolled,
}

submit_keeps :
    (k : ℕ) (mapped : Option ℕ) (frame : Frame) (tx : Xctrl)
    → Sized k tx
    → Sized k (nfb_xctrl_tx_submit_frame_needs_lock mapped frame tx).2
unfolding nfb_xctrl_tx_submit_frame_needs_lock
submit_keeps k mapped frame tx s =
    either
      (ltb frame.len min_len && ltb ((frame.frame_sz + 2 ^ 32 - frame.headroom) % 2 ^ 32) min_len)
      (err enotsupp, [], tx) _ s (mapping mapped)
  where
    either :
        (small : Bool) (x y : Status × List Release × Xctrl)
        → Sized k x.2
        → Sized k y.2
        → Sized k (if small then x else y).2
    either true x y p q = p
    either false x y p q = q

    result :
        (dma len : ℕ) (placed : Status × Xctrl)
        → Sized k placed.1
        → Sized k
            (elim (placed.0) as (λ r. Status × List Release × Xctrl) [
              | ok ↦ (ok, [], placed.1)
              | err e ↦ (err e, unmap dma len ∷ [], placed.1)
            ]).2
    result dma len (ok, placed) p = p
    result dma len (err e, placed) p = p

    mapping :
        (m : Option ℕ)
        → Sized k
            (elim m as (λ r. Status × List Release × Xctrl) [
              | none ↦ (err enomem, [], tx)
              | some dma ↦
                  let len = max frame.len min_len in
                  let free = free_slots tx.mdp tx.hdp tx.sdp in
                  let (ret, placed) =
                    place
                      (redirected frame.address dma len)
                      dma
                      len
                      tx.sdp
                      tx.last_upper_addr
                      free
                      tx in
                  elim ret [ ok ↦ (ok, [], placed) | err e ↦ (err e, unmap dma len ∷ [], placed) ]
            ]).2
    mapping none = s
    mapping (some dma) =
        let len = max frame.len min_len in
        let free = free_slots tx.mdp tx.hdp tx.sdp in
        result dma len
          (place (redirected frame.address dma len) dma len tx.sdp tx.last_upper_addr free tx)
          (emit_keeps k (redirected frame.address dma len) dma len _ tx s
            (announce_keeps k dma tx.sdp tx.last_upper_addr free tx s))

sent_xsk-Kept :
    (k hdp' : ℕ) (mapped : Option ℕ) (frame : Frame) (converts : Bool) (tx : Xctrl)
    → Sized k tx
    → hdp' < 2 ^ k
    → ((expected : List Release) × Reclaimed expected (record tx { hdp = hdp' }) (reclaim hdp' tx))
    → let converted = if converts then some frame else none in
      Kept k (sent_xsk converted (reclaim hdp' tx) (nfb_xctrl_rexmit_xsk hdp' mapped converted tx))
unfolding nfb_xctrl_rexmit_xsk
sent_xsk-Kept k hdp' mapped frame false tx s hb reclaimed = s
sent_xsk-Kept k hdp' mapped frame true tx s hb (expected, r) = by_reclaim (reclaim hdp' tx) r
  where
    after :
        (log : List Release) (ready : Xctrl) (sent : Status × List Release × Xctrl)
        → Sized k sent.2
        → Kept k (
            sent_xsk (some frame) (some (log, ready)) (elim (sent.0) [
              | ok ↦ some (ok, log ++ sent.1, sdp_flush (sent.2))
              | err e ↦
                  some (err e, log ++ sent.1 ++ (returned frame.address ∷ []), sdp_flush (sent.2))
            ]))
    after log ready (ok, more, sent) p = p
    after log ready (err e, more, sent) p = p

    by_reclaim :
        (o : Option (List Release × Xctrl))
        → Reclaimed expected (record tx { hdp = hdp' }) o
        → Kept k (
            sent_xsk (some frame) o (elim o [
              | none ↦ none
              | some (log, ready) ↦
                  let (ret, more, sent) = nfb_xctrl_tx_submit_frame_needs_lock mapped frame ready in
                  elim ret [
                    | ok ↦ some (ok, log ++ more, sdp_flush sent)
                    | err e ↦
                        some (err e, log ++ more ++ (returned frame.address ∷ []), sdp_flush sent)
                  ]
            ]))
    by_reclaim none q = refl
    by_reclaim (some (log, ready)) q =
        after log ready (nfb_xctrl_tx_submit_frame_needs_lock mapped frame ready) (
          submit_keeps k mapped frame ready
            (reclaim_Sized k expected (record tx { hdp = hdp' }) log ready s hb q))

handle_xsk-Kept :
    (k hdp' : ℕ) (mapped : Option ℕ) (frame : Frame) (act : Option Verdict) (services : Services)
    (tx : Xctrl)
    → k ≤ 32
    → Sized k tx
    → hdp' < 2 ^ k
    → Kept k (nfb_xctrl_handle_xsk hdp' mapped frame act services tx)
unfolding nfb_xctrl_handle_xsk
handle_xsk-Kept k hdp' mapped frame act services tx fits s hb = by_verdict (verdict_of act)
  where
    redirection :
        (r : Status) → Kept k (elim r [ ok ↦ some (give_buff ∷ [], tx) | err e ↦ some ([], tx) ])
    redirection ok = s
    redirection (err e) = s

    by_verdict :
        (v : Verdict) → Kept k (nfb_xctrl_handle_xsk hdp' mapped frame (some v) services tx)
    by_verdict xdp_pass = s
    by_verdict xdp_tx =
        let (n, small, at) = ahead k tx.fdp hdp' s.1 hb in
        sent_xsk-Kept k hdp' mapped frame services.converts tx s hb
          (_, free_buffers-Reclaimed k fits n (record tx { hdp = hdp' }) s.0 s.1 small at)
    by_verdict xdp_redirect = redirection services.redirected
    by_verdict xdp_aborted = s
    by_verdict xdp_drop = s
    by_verdict xdp_unknown = s

-- Whether a buffer is disposed of once: it is larger than a page, or none of the failures of the verdicts occurs.
abbrev pub is_settled : ℕ → GivenXsk → Bool
is_settled page_size g = ltb page_size g.extent || not (is_mishandled (verdict_of g.act) g.services)

given_xsk-Handled :
    (k page_size : ℕ) (given : ℕ → GivenXsk) (j : ℕ) (b : ℕ × ℕ) (tx : Xctrl)
    → k ≤ 32
    → Sized k tx
    → (given j).hdp' < 2 ^ k
    → Handled k (is_settled page_size (given j)) (handle_given_xsk page_size given j b tx)
given_xsk-Handled k page_size given j b tx fits s hb =
    let g = given j in
    let (free, can) = reclaimable k g.hdp' tx s hb in
    large (ltb page_size g.extent) _ _ (
      IsHandled-Kept k (not (is_mishandled (verdict_of g.act) g.services))
        (nfb_xctrl_handle_xsk g.hdp' g.mapped g.frame g.act g.services tx)
        (handle_xsk-IsHandled k free g.hdp' g.mapped g.frame g.act g.services tx fits can)
        (handle_xsk-Kept k g.hdp' g.mapped g.frame g.act g.services tx fits s hb))
  where
    large :
        (test clean : Bool) (o : Option (List Deed × Xctrl))
        → Handled k clean o
        → Handled k (test || clean) (if test then some (free_buff ∷ [], tx) else o)
    large true clean o h = (refl, s)
    large false clean o h = h

-- In AF_XDP mode a poll ends, whatever the card's pointers and the pools answer: it handles the number of buffers
-- that it returns, at most its budget, and is reported complete exactly when it returns less than its budget; a
-- buffer is disposed of exactly once when it is larger than a page or when none of the failures that `is_mishandled`
-- lists occurs, and else not. The budget is NAPI_POLL_WEIGHT at most, a batch has 64 buffers at most, the header
-- ring has `2 ^ h` slots, of which `n` are taken, and the pointer reads of the transmit ring, of `2 ^ k` slots,
-- lie in it.
pub poll_xsk-IsPolled :
    (k h n weight page_size : ℕ) (dma : ℕ → ℕ) (frame_len : ℕ) (batches : ℕ → List ℕ) (hdps : ℕ → ℕ)
    (hhp' : ℕ) (given : ℕ → GivenXsk) (budget : ℕ) (rx : RxCtrl) (tx : Xctrl)
    → k ≤ 32
    → h ≤ 32
    → Taken h n rx
    → Sized k tx
    → ((j : ℕ) → (given j).hdp' < 2 ^ k)
    → ((j : ℕ) → length (batches j) ≤ batch_size)
    → budget ≤ weight
    → IsPolled k
        (λ j. is_settled page_size (given j))
        budget
        (nfb_xctrl_napi_poll_rx_xsk weight page_size dma frame_len batches hdps
          (2 ^ h)
          hhp'
          given
          budget
          rx
          tx)
unfolding nfb_xctrl_napi_poll_rx_xsk
poll_xsk-IsPolled k h n weight page_size dma frame_len batches hdps hhp' given budget rx tx fits
      fits' taken s in_ring small le =
    let no_bug : ltb weight budget ≡ false = ground (arith, le) in
    let (other, ended) =
      refill-Ended h fits' dma frame_len (λ j i. none) batches hdps n rx small taken in
    rw (no_bug, nfb_xctrl_napi_poll_rx_xsk)
      (filled (refill (λ j. nfb_xctrl_rx_fill_xsk dma frame_len (batches j) (hdps j)) (2 ^ h) 0 rx)
        ended)
  where
    filled :
        (o : Option (List ℕ × RxCtrl))
        → Ended h n o
        → IsPolled k
            (λ j. is_settled page_size (given j))
            budget
            (elim o [
              | none ↦ none
              | some (freed, queue) ↦
                  handle_received (handle_given_xsk page_size given) hhp' budget queue tx
            ])
    filled none e = absurd (ground (arith, e))
    filled (some (freed, queue)) e =
        received-IsPolled k (λ j. is_settled page_size (given j)) (handle_given_xsk page_size given)
          (λ j b ready sized. given_xsk-Handled k page_size given j b ready fits sized (in_ring j))
          hhp' budget queue tx s
