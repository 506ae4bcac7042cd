-- ===== src/Xdp/Rx/Verdict/Placed.antt =====
-- What a retransmission (ctrl_xdp_pp.c, ctrl_xdp_xsk.c) leaves of its frame: in a slot of the ring, or released.
use ndk_sw_bachelor_thesis.Common.{
  ℕ, ◌+◌, ◌-◌, ◌==◌, ltb, inl, inr, Bool-cases, enomem, enotsupp, ◌%◌, ◌^◌, max, ◌≡◌, refl, Bool,
  true, false, ◌&&◌, ◌||◌, Option, none, some, List, [], ◌∷◌, ◌++◌, Status, ok, err, if◌then◌else◌,
  arith,
}
use ndk_sw_bachelor_thesis.Xdp.Tx.{
  Xctrl, TxBuffer, desc_type0, redirected, unmap, Frame, Release, put, next_slot, upper_addr,
  announce, emit, place, min_len, free_slots, nfb_xctrl_tx_submit_frame_needs_lock,
}
use ndk_sw_bachelor_thesis.Xdp.Rx.Verdict.{Deed, behind, is_redirected, in_ring, returns}

pub behind-append : (xs ys : List Release) → behind xs (xs ++ ys) ≡ ys
behind-append [] ys = refl
behind-append (x ∷ xs) ys = behind-append xs ys

pub behind-append_more : (xs ys zs : List Release) → behind xs (xs ++ ys ++ zs) ≡ ys ++ zs
behind-append_more [] ys zs = refl
behind-append_more (x ∷ xs) ys zs = behind-append_more xs ys zs

pub behind_all : (xs : List Release) → behind xs xs ≡ []
behind_all [] = refl
behind_all (x ∷ xs) = behind_all xs

pub eq_refl : (n : ℕ) → n == n ≡ true
eq_refl n = ground arith

-- If a buffer was placed, a slot holds it.
abbrev pub Placed : (TxBuffer → Bool) → ℕ → Status × Xctrl → Type 0
Placed test sdp (ok, after) = in_ring test sdp ok after ≡ true
Placed test sdp (err e, after) = true ≡ true

pub place_lem :
    (test : TxBuffer → Bool) (buffer : TxBuffer) (dma len sdp upper free : ℕ) (ctrl : Xctrl)
    → test buffer ≡ true
    → Placed test sdp (place buffer dma len sdp upper free ctrl)
unfolding announce emit
place_lem test buffer dma len sdp upper free ctrl is = elim (Bool-cases (upper_addr dma == upper)) [
  | inl same ↦ elim (Bool-cases (free == 0)) [
    | inl full ↦ rw (same, full) refl
    | inr room ↦ rw (same, room) (rw (put_here sdp buffer ctrl.buffers, is) refl)
  ]
  | inr new ↦ elim (Bool-cases (ltb free 2)) [
    | inl full ↦ rw (new, full) refl
    | inr two ↦
        let next = next_slot ctrl.mdp sdp in
        let room : free - 1 == 0 ≡ false = ground (arith, two) in
        rw (new, two, room)
          (rw (put_here next buffer (put sdp desc_type0 ctrl.buffers), is)
            (or_true (test (put next buffer (put sdp desc_type0 ctrl.buffers) sdp))))
  ]
]
  where
    put_here : (slot : ℕ) (b : TxBuffer) (f : ℕ → TxBuffer) → put slot b f slot ≡ b
    put_here slot b f = ground arith

    or_true : (b : Bool) → (b || true) ≡ true
    or_true true = refl
    or_true false = refl

-- What one frame's submission leaves: nothing but the unmapping of a frame that a full ring refused.
abbrev pub Submitted : ℕ → ℕ → Status × List Release × Xctrl → Type 0
Submitted frame sdp (ok, log, after) =
    (log ≡ []) × (in_ring (is_redirected frame) sdp ok after ≡ true)
Submitted frame sdp (err e, log, after) =
    (deed : Deed) (rest : List Release) → returns deed frame (log ++ rest) ≡ returns deed frame rest

pub submit_lem :
    (mapped : Option ℕ) (frame : Frame) (ready : Xctrl)
    → Submitted frame.address ready.sdp (nfb_xctrl_tx_submit_frame_needs_lock mapped frame ready)
unfolding nfb_xctrl_tx_submit_frame_needs_lock
submit_lem mapped frame ready =
    small
      (ltb frame.len min_len && ltb ((frame.frame_sz + 2 ^ 32 - frame.headroom) % 2 ^ 32) min_len) _
      (by_mapping mapped)
  where
    result :
        (dma : ℕ) (placed : Status × Xctrl)
        → Placed (is_redirected frame.address) ready.sdp placed
        → Submitted frame.address ready.sdp
            (elim (placed.0) as (λ r. Status × List Release × Xctrl) [
              | ok ↦ (ok, [], placed.1)
              | err e ↦ (err e, unmap dma (max frame.len min_len) ∷ [], placed.1)
            ])
    result dma (ok, placed) p = (refl, p)
    result dma (err e, placed) p = λ deed rest. refl

    by_mapping :
        (m : Option ℕ)
        → Submitted frame.address ready.sdp (elim m as (λ r. Status × List Release × Xctrl) [
          | none ↦ (err enomem, [], ready)
          | some dma ↦
              let len = max frame.len min_len in
              let free = free_slots ready.mdp ready.hdp ready.sdp in
              let (ret, placed) =
                place
                  (redirected frame.address dma len)
                  dma
                  len
                  ready.sdp
                  ready.last_upper_addr
                  free
                  ready in
              elim ret [ ok ↦ (ok, [], placed) | err e ↦ (err e, unmap dma len ∷ [], placed) ]
        ])
    by_mapping none = λ deed rest. refl
    by_mapping (some dma) =
        let buffer = redirected frame.address dma (max frame.len min_len) in
        let free = free_slots ready.mdp ready.hdp ready.sdp in
        result dma
          (place buffer dma (max frame.len min_len) ready.sdp ready.last_upper_addr free ready)
          (place_lem (is_redirected frame.address) buffer dma (max frame.len min_len) ready.sdp
            ready.last_upper_addr free ready (eq_refl frame.address))

    small :
        (test : Bool) (x : Status × List Release × Xctrl)
        → Submitted frame.address ready.sdp x
        → Submitted frame.address ready.sdp (if test then (err enotsupp, [], ready) else x)
    small true x p = λ deed rest. refl
    small false x p = p
