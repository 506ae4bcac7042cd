-- ===== src/Xdp/Rx/Verdict/Ledger.antt =====
-- Whether a handled buffer (ctrl_xdp_pp.c, ctrl_xdp_xsk.c) is disposed of once.
use ndk_sw_bachelor_thesis.Common.{
  ℕ, ◌+◌, ◌%◌, ◌^◌, ◌<◌, ◌≤◌, max, ◌≡◌, refl, Bool, true, false, ◌&&◌, ◌||◌, not, Option, none,
  some, List, [], ◌∷◌, ◌++◌, Status, ok, err, if◌then◌else◌, arith,
}
use ndk_sw_bachelor_thesis.Common.Bits.{low_mask}
use ndk_sw_bachelor_thesis.Xdp.Tx.{
  Xctrl, Frame, Release, return_frame as returned, place, frame_pp, min_len, free_slots,
  nfb_xctrl_tx_submit_frame_needs_lock,
}
use ndk_sw_bachelor_thesis.Xdp.Tx.Callers.{
  reclaim, sdp_flush, nfb_xctrl_rexmit_pp, nfb_xctrl_rexmit_xsk,
}
use ndk_sw_bachelor_thesis.Xdp.Tx.Reclaim.{Reclaimed, free_buffers-Reclaimed}
use ndk_sw_bachelor_thesis.Xdp.Rx.Verdict.{
  Verdict, xdp_pass, xdp_tx, xdp_redirect, xdp_aborted, xdp_drop, xdp_unknown, Deed, free_buff,
  give_buff, convert, give_frame, give_back, return_null, Services, verdict_of, nfb_xctrl_handle_pp,
  nfb_xctrl_handle_xsk, sent_pp, sent_xsk, is_frame_pp,
}
use ndk_sw_bachelor_thesis.Xdp.Rx.Verdict.Placed.{
  Placed, Submitted, behind-append, behind-append_more, behind_all, eq_refl, place_lem, submit_lem,
}

-- What is still with the driver: the buffer, a frame; and whether anything was used that was not.
pub record Account : Type 0 where
  pub buffer : Bool
  pub frame : Bool
  pub wrong : Bool

abbrev pub enter : Deed → Account → Account
enter free_buff a = record a { buffer = false; wrong = a.wrong || not a.buffer }
enter give_buff a = record a { buffer = false; wrong = a.wrong || not a.buffer }
enter convert a = record { buffer = false; frame = true; wrong = a.wrong || not a.buffer }
enter give_frame a = record a { frame = false; wrong = a.wrong || not a.frame }
enter give_back a = record a { frame = false; wrong = a.wrong || not a.frame }
enter return_null a = record a { wrong = true }

abbrev pub settle : List Deed → Account → Account
settle [] a = a
settle (d ∷ ds) a = settle ds (enter d a)

-- Everything was disposed of, once.
abbrev pub is_clean : List Deed → Bool
is_clean ds =
    let a = settle ds (record { buffer = true; frame = false; wrong = false }) in
    not a.buffer && not a.frame && not a.wrong

-- A result with this property; `none` has none.
abbrev pub IsHandled : Bool → Option (List Deed × Xctrl) → Type 0
IsHandled clean none = false ≡ true
IsHandled clean (some (deeds, tx)) = is_clean deeds ≡ clean

-- The transmit ring to which a retransmission goes: `n` slots lie between `fdp` and the pointer read.
abbrev pub Reclaimable : ℕ → ℕ → ℕ → Xctrl → Type 0
Reclaimable k n hdp' tx =
    (tx.mdp ≡ low_mask k) × (tx.fdp < 2 ^ k) × (n < 2 ^ k) × (hdp' ≡ (tx.fdp + n) % 2 ^ k)

reclaim_ends :
    (k n hdp' : ℕ) (tx : Xctrl)
    → k ≤ 32
    → Reclaimable k n hdp' tx
    → (result : List Release × Xctrl) × (reclaim hdp' tx ≡ some result)
reclaim_ends k n hdp' tx fits (mask, hf, hn, at) =
    found _ (record tx { hdp = hdp' }) (reclaim hdp' tx)
      (free_buffers-Reclaimed k fits n (record tx { hdp = hdp' }) mask hf hn at)
  where
    found :
        (expected : List Release) (before : Xctrl) (r : Option (List Release × Xctrl))
        → Reclaimed expected before r
        → (result : List Release × Xctrl) × (r ≡ some result)
    found expected before none e = absurd (ground (arith, e))
    found expected before (some result) e = (result, refl)

-- How a retransmission ends is one of its two results, and both keep to the account.
sent_pp-IsHandled :
    (sdp0 upper0 hdp' dma frame len : ℕ) (tx : Xctrl)
    → ((result : List Release × Xctrl) × (reclaim hdp' tx ≡ some result))
    → IsHandled true (
        sent_pp sdp0 frame
          (reclaim hdp' tx)
          (nfb_xctrl_rexmit_pp sdp0 upper0 hdp' dma frame len tx))
unfolding nfb_xctrl_rexmit_pp
sent_pp-IsHandled sdp0 upper0 hdp' dma frame len tx (result, e) =
    by_reclaim (reclaim hdp' tx) result e
  where
    either :
        (log : List Release) (ready : Xctrl) (placed : Status × Xctrl)
        → Placed (is_frame_pp frame) sdp0 placed
        → IsHandled true (
            sent_pp sdp0 frame (some (log, ready)) (elim (placed.0) [
              | ok ↦ some (ok, log, sdp_flush (placed.1))
              | err e ↦ some (err e, log ++ (returned frame ∷ []), sdp_flush (placed.1))
            ]))
    either log ready (ok, after) p = rw (p, behind_all log) refl
    either log ready (err e, after) p =
        rw (behind-append log (returned frame ∷ []), eq_refl frame) refl

    by_reclaim :
        (o : Option (List Release × Xctrl)) (result : List Release × Xctrl)
        → o ≡ some result
        → IsHandled true (
            sent_pp sdp0 frame o (elim o [
              | none ↦ none
              | some (log, ready) ↦
                  let free = free_slots ready.mdp ready.fdp sdp0 in
                  let (ret, placed) =
                    place (frame_pp frame) dma (max len min_len) sdp0 upper0 free ready in
                  elim ret [
                    | ok ↦ some (ok, log, sdp_flush placed)
                    | err e ↦ some (err e, log ++ (returned frame ∷ []), sdp_flush placed)
                  ]
            ]))
    by_reclaim none result none_is = absurd (ground (arith, none_is))
    by_reclaim (some (log, ready)) result same =
        let free = free_slots ready.mdp ready.fdp sdp0 in
        either log ready (place (frame_pp frame) dma (max len min_len) sdp0 upper0 free ready) (
          place_lem (is_frame_pp frame) (frame_pp frame) dma (max len min_len) sdp0 upper0 free
            ready (eq_refl frame))

-- Page pool mode disposes of every buffer once, whatever the verdict and whatever fails.
pub handle_pp-IsHandled :
    (k n sdp0 upper0 hdp' dma frame len : ℕ) (act : Option Verdict) (services : Services)
    (tx : Xctrl)
    → k ≤ 32
    → Reclaimable k n hdp' tx
    → IsHandled true (nfb_xctrl_handle_pp sdp0 upper0 hdp' dma frame len act services tx)
unfolding nfb_xctrl_handle_pp
handle_pp-IsHandled k n sdp0 upper0 hdp' dma frame len act services tx fits can =
    by_verdict (verdict_of act)
  where
    passed : (builds : Bool) → is_clean (if builds then give_buff ∷ [] else free_buff ∷ []) ≡ true
    passed true = refl
    passed false = refl

    redirected :
        (s : Status)
        → IsHandled true
            (elim s [ ok ↦ some (give_buff ∷ [], tx) | err e ↦ some (free_buff ∷ [], tx) ])
    redirected ok = refl
    redirected (err e) = refl

    by_verdict :
        (v : Verdict)
        → IsHandled true (nfb_xctrl_handle_pp sdp0 upper0 hdp' dma frame len (some v) services tx)
    by_verdict xdp_pass = passed services.builds
    by_verdict xdp_tx =
        sent_pp-IsHandled sdp0 upper0 hdp' dma frame len tx (reclaim_ends k n hdp' tx fits can)
    by_verdict xdp_redirect = redirected services.redirected
    by_verdict xdp_aborted = refl
    by_verdict xdp_drop = refl
    by_verdict xdp_unknown = refl

abbrev is_err : Status → Bool
is_err ok = false
is_err (err e) = true

-- In AF_XDP mode these buffers are not disposed of once: one whose redirection failed, one converted for
-- an `skb` that could not be built, and one to be retransmitted that could not be converted.
abbrev pub is_mishandled : Verdict → Services → Bool
is_mishandled xdp_pass services = services.converts && not services.builds
is_mishandled xdp_tx services = not services.converts
is_mishandled xdp_redirect services = is_err services.redirected
is_mishandled xdp_aborted services = false
is_mishandled xdp_drop services = false
is_mishandled xdp_unknown services = false

sent_xsk-IsHandled :
    (hdp' : ℕ) (mapped : Option ℕ) (frame : Frame) (converts : Bool) (tx : Xctrl)
    → ((result : List Release × Xctrl) × (reclaim hdp' tx ≡ some result))
    → let converted = if converts then some frame else none in
      IsHandled converts
        (sent_xsk converted (reclaim hdp' tx) (nfb_xctrl_rexmit_xsk hdp' mapped converted tx))
unfolding nfb_xctrl_rexmit_xsk
sent_xsk-IsHandled hdp' mapped frame false tx ended = refl
sent_xsk-IsHandled hdp' mapped frame true tx (result, e) = by_reclaim (reclaim hdp' tx) result e
  where
    either :
        (log : List Release) (ready : Xctrl) (sent : Status × List Release × Xctrl)
        → Submitted frame.address ready.sdp sent
        → IsHandled true (
            sent_xsk (some frame) (some (log, ready)) (elim (sent.0) [
              | ok ↦ some (ok, log ++ sent.1, sdp_flush (sent.2))
              | err e ↦
                  some (err e, log ++ sent.1 ++ (returned frame.address ∷ []), sdp_flush (sent.2))
            ]))
    either log ready (ok, more, after) (nothing, p) = rw (behind-append log more, nothing, p) refl
    either log ready (err e, more, after) p =
        rw
          (
            behind-append_more log more (returned frame.address ∷ []),
            p give_back (returned frame.address ∷ []),
            eq_refl frame.address,
          )
          refl

    by_reclaim :
        (o : Option (List Release × Xctrl)) (result : List Release × Xctrl)
        → o ≡ some result
        → IsHandled true (
            sent_xsk (some frame) o (elim o [
              | none ↦ none
              | some (log, ready) ↦
                  let (ret, more, sent) = nfb_xctrl_tx_submit_frame_needs_lock mapped frame ready in
                  elim ret [
                    | ok ↦ some (ok, log ++ more, sdp_flush sent)
                    | err e ↦
                        some (err e, log ++ more ++ (returned frame.address ∷ []), sdp_flush sent)
                  ]
            ]))
    by_reclaim none result none_is = absurd (ground (arith, none_is))
    by_reclaim (some (log, ready)) result same =
        either log ready (nfb_xctrl_tx_submit_frame_needs_lock mapped frame ready)
          (submit_lem mapped frame ready)

-- In AF_XDP mode a buffer is disposed of exactly once, except those that `is_mishandled` lists: a failed
-- redirection leaves its buffer with nobody, a failed `skb` leaves the frame and frees the buffer again,
-- a failed conversion hands the null pointer back and keeps the buffer.
pub handle_xsk-IsHandled :
    (k n hdp' : ℕ) (mapped : Option ℕ) (frame : Frame) (act : Option Verdict) (services : Services)
    (tx : Xctrl)
    → k ≤ 32
    → Reclaimable k n hdp' tx
    → IsHandled
        (not (is_mishandled (verdict_of act) services))
        (nfb_xctrl_handle_xsk hdp' mapped frame act services tx)
unfolding nfb_xctrl_handle_xsk
handle_xsk-IsHandled k n hdp' mapped frame act services tx fits can = by_verdict (verdict_of act)
  where
    passed :
        (converts builds : Bool)
        → is_clean (
            if converts
            then (if builds then convert ∷ give_frame ∷ [] else convert ∷ free_buff ∷ [])
            else free_buff ∷ [])
          ≡ not (converts && not builds)
    passed true true = refl
    passed true false = refl
    passed false builds = refl

    redirected :
        (s : Status)
        → IsHandled
            (not (is_err s))
            (elim s [ ok ↦ some (give_buff ∷ [], tx) | err e ↦ some ([], tx) ])
    redirected ok = refl
    redirected (err e) = refl

    sent :
        (converts : Bool)
        → let converted = if converts then some frame else none in
          IsHandled
            (not (not converts))
            (sent_xsk converted (reclaim hdp' tx) (nfb_xctrl_rexmit_xsk hdp' mapped converted tx))
    sent true = sent_xsk-IsHandled hdp' mapped frame true tx (reclaim_ends k n hdp' tx fits can)
    sent false = sent_xsk-IsHandled hdp' mapped frame false tx (reclaim_ends k n hdp' tx fits can)

    by_verdict :
        (v : Verdict)
        → IsHandled
            (not (is_mishandled v services))
            (nfb_xctrl_handle_xsk hdp' mapped frame (some v) services tx)
    by_verdict xdp_pass = passed services.converts services.builds
    by_verdict xdp_tx = sent services.converts
    by_verdict xdp_redirect = redirected services.redirected
    by_verdict xdp_aborted = refl
    by_verdict xdp_drop = refl
    by_verdict xdp_unknown = refl
