-- ===== src/Xdp/Tx/Submit.antt =====
-- Handing frames to the transmit ring (ctrl_xdp_common.h, ctrl_xdp_common.c), against the hardware's queue.
use ndk_sw_bachelor_thesis.Common.{
  ℕ, zero, suc, ◌+◌, ◌-◌, ◌%◌, ◌^◌, ◌<◌, ◌≤◌, ◌≡◌, refl, ap, max, true, Option, none, some, List,
  [], ◌∷◌, ◌++◌, Status, ok, err, ebusy, ltb, ◌&&◌, arith, ◌⊎◌, inl, inr, Bool-cases,
}
use ndk_sw_bachelor_thesis.Xdp.Tx.{
  redirected, Xctrl, min_len, Frame, nfb_xctrl_tx_submit_frame_needs_lock, Release, unmap,
}
use ndk_sw_bachelor_thesis.Xdp.Tx.Callers.{submit_all}
use ndk_sw_bachelor_thesis.Xdp.Tx.Decode.{needed}
use ndk_sw_bachelor_thesis.Xdp.Tx.Pending.{Pending, place-Pending}

-- Where the packet of a frame is, and its length with the padding; 0 where the mapping failed.
abbrev pub packet : Option ℕ × Frame → ℕ × ℕ
packet (none, frame) = (0, max frame.len min_len)
packet (some dma, frame) = (dma, max frame.len min_len)

-- A mapped address has 64 bits, a length 16.
abbrev pub IsSane : Option ℕ × Frame → Type 0
IsSane (none, frame) = frame.len < 2 ^ 16
IsSane (some dma, frame) = (dma < 2 ^ 64) × (frame.len < 2 ^ 16)

abbrev pub AllSane : List (Option ℕ × Frame) → Type 0
AllSane [] = true ≡ true
AllSane (f ∷ frames) = IsSane f × AllSane frames

-- The packets of the first frames.
abbrev pub first_packets : ℕ → List (Option ℕ × Frame) → List (ℕ × ℕ)
first_packets zero frames = []
first_packets (suc n) [] = []
first_packets (suc n) (f ∷ frames) = packet f ∷ first_packets n frames

-- The frame was accepted and is the last one of the hardware's queue, or it was refused and the
-- controller is as it was.
abbrev pub Queued :
    ℕ → ℕ → List (ℕ × ℕ) → Option ℕ × Frame → Xctrl → Status × List Release × Xctrl → Type 0
Queued k upper packets f before (ok, log, after) =
    (log ≡ []) × ((m : ℕ) × Pending k m upper (packets ++ (packet f ∷ [])) after)
Queued k upper packets f before (err e, log, after) = after ≡ before

queued :
    (k n m upper dma : ℕ) (packets : List (ℕ × ℕ)) (frame : Frame) (before : Xctrl)
    (placed : Status × Xctrl)
    → ((2 ^ k ≤ n + m) × (placed.0 ≡ err ebusy) × (placed.1 ≡ before))
      ⊎ ((n + m < 2 ^ k)
          × (placed.0 ≡ ok)
          × Pending k (n + m) upper (packets ++ ((dma, max frame.len min_len) ∷ [])) placed.1)
    → Queued k upper packets
        (some dma, frame)
        before
        (elim placed.0 [
          | ok ↦ (ok, [], placed.1)
          | err e ↦ (err e, unmap dma (max frame.len min_len) ∷ [], placed.1)
        ])
queued k n m upper dma packets frame before (ok, after) (inl (full, e, same)) =
    absurd (ground arith)
queued k n m upper dma packets frame before (ok, after) (inr (room, e, pending)) =
    (refl, (n + m, pending))
queued k n m upper dma packets frame before (err x, after) (inl (full, e, same)) = same
queued k n m upper dma packets frame before (err x, after) (inr (room, e, pending)) =
    absurd (ground arith)

-- Submitting a frame (mapped to 64 bits, a length of 16 bits) while the ring is the hardware's queue of
-- `packets`: success makes the frame's packet, padded to 60 bytes, its new last one; on an error the
-- controller is as it was.
pub submit-Queued :
    (k : ℕ)
    → k ≤ 32
    → (n upper : ℕ) (packets : List (ℕ × ℕ)) (mapped : Option ℕ) (frame : Frame) (ctrl : Xctrl)
    → Pending k n upper packets ctrl
    → IsSane (mapped, frame)
    → Queued k upper packets
        (mapped, frame)
        ctrl
        (nfb_xctrl_tx_submit_frame_needs_lock mapped frame ctrl)
unfolding nfb_xctrl_tx_submit_frame_needs_lock
submit-Queued k fits n upper packets none frame ctrl pending sane = ground arith
submit-Queued k fits n upper packets (some dma) frame ctrl pending (hd, hl) =
    elim (Bool-cases (
      ltb frame.len min_len && ltb ((frame.frame_sz + 2 ^ 32 - frame.headroom) % 2 ^ 32) min_len)) [
        | inl small ↦ rw small refl
        | inr fine ↦ rw fine (
            queued k n (needed ctrl.last_upper_addr dma) upper dma packets frame ctrl _ (
              place-Pending k fits n upper packets
                (redirected frame.address dma (max frame.len min_len)) dma (max frame.len min_len)
                ctrl pending hd (omega arith)))
      ]

append_assoc : (a b c : List (ℕ × ℕ)) → (a ++ b) ++ c ≡ a ++ (b ++ c)
append_assoc [] b c = refl
append_assoc (x ∷ a) b c = ap (λ l. x ∷ l) (append_assoc a b c)

append_nil : (a : List (ℕ × ℕ)) → a ++ [] ≡ a
append_nil [] = refl
append_nil (x ∷ a) = ap (λ l. x ∷ l) (append_nil a)

-- What `submit_all` leaves: the hardware's queue with the packets of the first frames behind it.
abbrev pub AllQueued :
    ℕ → ℕ → List (ℕ × ℕ) → List (Option ℕ × Frame) → ℕ × List Release × Xctrl → Type 0
AllQueued k upper packets frames (cnt, log, after) =
    (m : ℕ) × Pending k m upper (packets ++ first_packets cnt frames) after

-- The loop of `nfb_xctrl_xdp_xmit`, for frames mapped to 64 bits with lengths of 16 bits, on a ring that is
-- the hardware's queue of `packets`: that queue grows by the packets of exactly the frames that
-- the returned number counts, in their order.
pub submit_all-AllQueued :
    (k : ℕ)
    → k ≤ 32
    → (n upper : ℕ) (packets : List (ℕ × ℕ)) (frames : List (Option ℕ × Frame)) (ctrl : Xctrl)
    → Pending k n upper packets ctrl
    → AllSane frames
    → AllQueued k upper packets frames (submit_all frames ctrl)
unfolding submit_all
submit_all-AllQueued k fits n upper packets [] ctrl pending sane =
    (n, rw (append_nil packets) pending)
submit_all-AllQueued k fits n upper packets ((mapped, frame) ∷ frames) ctrl pending (sane, all) =
    next (nfb_xctrl_tx_submit_frame_needs_lock mapped frame ctrl)
      (submit-Queued k fits n upper packets mapped frame ctrl pending sane)
      (λ m packets' after more. submit_all-AllQueued k fits m upper packets' frames after more all)
  where
    next :
        (result : Status × List Release × Xctrl)
        → Queued k upper packets (mapped, frame) ctrl result
        → ((m : ℕ) (packets' : List (ℕ × ℕ)) (after : Xctrl)
            → Pending k m upper packets' after
            → AllQueued k upper packets' frames (submit_all frames after))
        → AllQueued k upper packets ((mapped, frame) ∷ frames) (
            let (cnt, log', after) = submit_all frames result.2 in
            elim result.0 [
              | ok ↦ (cnt + 1, result.1 ++ log', after)
              | err e ↦ (0, result.1, result.2)
            ])
    next (ok, log, after) (empty, (m, more)) continue =
        let (m', rest) = continue m (packets ++ (packet (mapped, frame) ∷ [])) after more in
        let count : (submit_all frames after).0 + 1 ≡ suc (submit_all frames after).0 =
          omega arith in
        let order =
          append_assoc packets (packet (mapped, frame) ∷ [])
            (first_packets (submit_all frames after).0 frames) in
        (m', rw (count, ← order) rest)
    next (err e, log, after) same continue = (n, rw (append_nil packets, same) pending)
