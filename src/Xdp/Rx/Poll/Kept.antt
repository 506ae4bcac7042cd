-- ===== src/Xdp/Rx/Poll/Kept.antt =====
-- What the handling of one received buffer (ctrl_xdp_pp.c) leaves of the transmit ring's mask and pointers.
use native.Mathlib.Nat.{add-mod_right, mod-eq_of_lt}
use ndk_sw_bachelor_thesis.Common.{
  ℕ, ◌+◌, ◌-◌, ◌%◌, ◌^◌, max, ◌<◌, ◌≤◌, ◌≡◌, refl, ap, sym, ◌∙◌, Bool, true, false, Bool-cases, inl,
  inr, Option, none, some, List, [], ◌∷◌, ◌++◌, ◌==◌, ltb, if◌then◌else◌, Status, ok, err, ebusy,
  arith,
}
use ndk_sw_bachelor_thesis.Common.Bits.{low_mask}
use ndk_sw_bachelor_thesis.Xdp.Tx.{
  Xctrl, TxBuffer, Release, announce, emit, place, return_frame, frame_pp, min_len, free_slots,
  upper_addr,
}
use ndk_sw_bachelor_thesis.Xdp.Tx.Callers.{reclaim, sdp_flush, nfb_xctrl_rexmit_pp}
use ndk_sw_bachelor_thesis.Xdp.Tx.Reclaim.{Reclaimed, free_buffers-Reclaimed}
use ndk_sw_bachelor_thesis.Xdp.Rx.Verdict.{
  Verdict, xdp_pass, xdp_tx, xdp_redirect, xdp_aborted, xdp_drop, xdp_unknown, Deed, free_buff,
  give_buff, Services, verdict_of, nfb_xctrl_handle_pp, sent_pp,
}
use ndk_sw_bachelor_thesis.Xdp.Rx.Verdict.Ledger.{Reclaimable}

-- The mask of the transmit ring and the pointer up to which its slots are reclaimed.
abbrev pub Sized : ℕ → Xctrl → Type 0
Sized k tx = (tx.mdp ≡ low_mask k) × (tx.fdp < 2 ^ k)

abbrev pub Announced : ℕ → Option (ℕ × ℕ × Xctrl) → Type 0
Announced k none = true ≡ true
Announced k (some (sdp, free, announced)) = Sized k announced

pub emit_keeps :
    (k : ℕ) (buffer : TxBuffer) (dma len : ℕ) (o : Option (ℕ × ℕ × Xctrl)) (tx : Xctrl)
    → Sized k tx
    → Announced k o
    → Sized k (emit buffer dma len o tx).1
unfolding emit
emit_keeps k buffer dma len none tx s a = s
emit_keeps k buffer dma len (some (sdp, free, announced)) tx s a =
    either (free == 0) (err ebusy, announced) _ a a
  where
    either :
        (full : Bool) (x y : Status × Xctrl)
        → Sized k x.1
        → Sized k y.1
        → Sized k (if full then x else y).1
    either true x y p q = p
    either false x y p q = q

pub announce_keeps :
    (k dma sdp upper free : ℕ) (tx : Xctrl)
    → Sized k tx
    → Announced k (announce dma sdp upper free tx)
unfolding announce
announce_keeps k dma sdp upper free tx s =
    either (upper_addr dma == upper) (ltb free 2) (some (sdp, free, tx)) none _ s refl s
  where
    either :
        (same short : Bool) (x y z : Option (ℕ × ℕ × Xctrl))
        → Announced k x
        → Announced k y
        → Announced k z
        → Announced k (if same then x else (if short then y else z))
    either true short x y z p q r = p
    either false true x y z p q r = q
    either false false x y z p q r = r

-- What a retransmission leaves of the ring.
abbrev pub Kept : ℕ → Option (List Deed × Xctrl) → Type 0
Kept k none = true ≡ true
Kept k (some (deeds, after)) = Sized k after

pub reclaim_Sized :
    (k : ℕ) (expected : List Release) (before : Xctrl) (log : List Release) (ready : Xctrl)
    → Sized k before
    → before.hdp < 2 ^ k
    → Reclaimed expected before (some (log, ready))
    → Sized k ready
reclaim_Sized k expected before log ready s hb r = (r.4 ∙ s.0, rw (r.1) hb)

sent_pp-Kept :
    (k sdp0 upper0 hdp' dma frame len : ℕ) (tx : Xctrl)
    → Sized k tx
    → hdp' < 2 ^ k
    → ((expected : List Release) × Reclaimed expected (record tx { hdp = hdp' }) (reclaim hdp' tx))
    → Kept k (
        sent_pp sdp0 frame
          (reclaim hdp' tx)
          (nfb_xctrl_rexmit_pp sdp0 upper0 hdp' dma frame len tx))
unfolding nfb_xctrl_rexmit_pp
sent_pp-Kept k sdp0 upper0 hdp' dma frame len tx s hb (expected, r) = by_reclaim (reclaim hdp' tx) r
  where
    after :
        (log : List Release) (ready : Xctrl) (placed : Status × Xctrl)
        → Sized k (placed.1)
        → Kept k (
            sent_pp sdp0 frame (some (log, ready)) (elim (placed.0) [
              | ok ↦ some (ok, log, sdp_flush (placed.1))
              | err e ↦ some (err e, log ++ (return_frame frame ∷ []), sdp_flush (placed.1))
            ]))
    after log ready (ok, placed) p = p
    after log ready (err e, placed) p = p

    by_reclaim :
        (o : Option (List Release × Xctrl))
        → Reclaimed expected (record tx { hdp = hdp' }) o
        → Kept k (
            sent_pp sdp0 frame o (elim o [
              | none ↦ none
              | some (log, ready) ↦
                  let free = free_slots ready.mdp ready.fdp sdp0 in
                  let (ret, placed) =
                    place (frame_pp frame) dma (max len min_len) sdp0 upper0 free ready in
                  elim ret [
                    | ok ↦ some (ok, log, sdp_flush placed)
                    | err e ↦ some (err e, log ++ (return_frame frame ∷ []), sdp_flush placed)
                  ]
            ]))
    by_reclaim none q = refl
    by_reclaim (some (log, ready)) q =
        let sized = reclaim_Sized k expected (record tx { hdp = hdp' }) log ready s hb q in
        after log ready
          (place (frame_pp frame) dma (max len min_len) sdp0 upper0
            (free_slots ready.mdp ready.fdp sdp0) ready)
          (emit_keeps k (frame_pp frame) dma (max len min_len) _ ready sized
            (announce_keeps k dma sdp0 upper0 (free_slots ready.mdp ready.fdp sdp0) ready sized))

-- Any pointer in the ring is some number of slots ahead of `fdp`.
pub ahead :
    (k from to : ℕ) → from < 2 ^ k → to < 2 ^ k → (n : ℕ) × (n < 2 ^ k) × (to ≡ (from + n) % 2 ^ k)
ahead k from to hf ht = elim (Bool-cases (ltb to from)) [
  | inr e ↦
      let le : from ≤ to = ground (arith, e) in
      (
        to - from,
        omega (arith, le),
        sym (
            ap (λ x. x % 2 ^ k) {x = from + (to - from)} {y = to} (omega (arith, le))
            ∙ mod-eq_of_lt {n = to} {m = 2 ^ k} ht),
      )
  | inl e ↦
      let lt : to < from = ground (arith, e) in
      (
        to + 2 ^ k - from,
        omega (arith, lt),
        sym (
            ap (λ x. x % 2 ^ k) {x = from + (to + 2 ^ k - from)} {y = to + 2 ^ k}
              (omega (arith, lt))
            ∙ add-mod_right to (2 ^ k)
            ∙ mod-eq_of_lt {n = to} {m = 2 ^ k} ht),
      )
]

pub reclaimable :
    (k hdp' : ℕ) (tx : Xctrl) → Sized k tx → hdp' < 2 ^ k → (n : ℕ) × Reclaimable k n hdp' tx
reclaimable k hdp' tx s hb =
    let (n, small, at) = ahead k tx.fdp hdp' s.1 hb in (n, (s.0, s.1, small, at))

pub handle_pp-Kept :
    (k sdp0 upper0 hdp' dma frame len : ℕ) (act : Option Verdict) (services : Services) (tx : Xctrl)
    → k ≤ 32
    → Sized k tx
    → hdp' < 2 ^ k
    → Kept k (nfb_xctrl_handle_pp sdp0 upper0 hdp' dma frame len act services tx)
unfolding nfb_xctrl_handle_pp
handle_pp-Kept k sdp0 upper0 hdp' dma frame len act services tx fits s hb =
    by_verdict (verdict_of act)
  where
    redirected :
        (r : Status)
        → Kept k (elim r [ ok ↦ some (give_buff ∷ [], tx) | err e ↦ some (free_buff ∷ [], tx) ])
    redirected ok = s
    redirected (err e) = s

    by_verdict :
        (v : Verdict)
        → Kept k (nfb_xctrl_handle_pp sdp0 upper0 hdp' dma frame len (some v) services tx)
    by_verdict xdp_pass = s
    by_verdict xdp_tx =
        let (n, small, at) = ahead k tx.fdp hdp' s.1 hb in
        sent_pp-Kept k sdp0 upper0 hdp' dma frame len tx s hb
          (_, free_buffers-Reclaimed k fits n (record tx { hdp = hdp' }) s.0 s.1 small at)
    by_verdict xdp_redirect = redirected services.redirected
    by_verdict xdp_aborted = s
    by_verdict xdp_drop = s
    by_verdict xdp_unknown = s
