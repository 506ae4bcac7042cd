-- ===== src/Xdp/Tx/Poll/Owed.antt =====
-- What the driver owes an AF_XDP socket (ctrl_xdp_xsk.c): the completions of the descriptors that it took.
use ndk_sw_bachelor_thesis.Common.{
  ℕ, zero, suc, ◌+◌, ◌-◌, ◌%◌, ◌^◌, ◌<◌, ◌≤◌, ◌≡◌, refl, ap, ◌∙◌, inl, inr, false, List, [], ◌∷◌,
  Status, ok, err, length, ◌==◌, ltb, arith, Bool-cases, if◌then◌else◌,
}
use ndk_sw_bachelor_thesis.Common.Bits.{low_mask}
use ndk_sw_bachelor_thesis.Xdp.Tx.{
  Xctrl, TxBuffer, desc_type0, xsk, completions, upper_addr, announce, emit, place, put, next_slot,
}
use ndk_sw_bachelor_thesis.Xdp.Tx.Pending.{apart, next_slot_lem}
use ndk_sw_bachelor_thesis.Xdp.Tx.Poll.{padded, send_ready}

-- The completions behind `n` slots from slot `p` on.
abbrev pub owed : ℕ → (ℕ → TxBuffer) → ℕ → ℕ → ℕ
owed k buffers zero p = 0
owed k buffers (suc n) p = owed k buffers n p + completions (buffers ((p + n) % 2 ^ k))

pub owed_same :
    (k n p : ℕ) (f g : ℕ → TxBuffer)
    → ((i : ℕ) → i < n → g ((p + i) % 2 ^ k) ≡ f ((p + i) % 2 ^ k))
    → owed k g n p ≡ owed k f n p
owed_same k zero p f g same = refl
owed_same k (suc n) p f g same =
    rw (owed_same k n p f g (λ i h. same i (omega arith)), same n (omega arith)) refl

owed-put :
    (k n p : ℕ) (b : TxBuffer) (f : ℕ → TxBuffer)
    → p < 2 ^ k
    → n < 2 ^ k
    → owed k (put ((p + n) % 2 ^ k) b f) (suc n) p ≡ owed k f n p + completions b
owed-put k n p b f hp hn =
    let slot = (p + n) % 2 ^ k in
    let others = owed_same k n p f (put slot b f) (λ i l. ground (arith, apart k p i n hp l hn)) in
    let here : put slot b f slot ≡ b = ground arith in rw (others, here) refl

module _ (k : ℕ) (fits : k ≤ 32) (p : ℕ) (hp : p < 2 ^ k) where
  -- What placing one buffer does to the slots in use.
  abbrev Kept : ℕ → ℕ → ℕ → ℕ → Xctrl → Status × Xctrl → Type 0
  Kept n free used count before (ok, after) =
      (after.mdp ≡ low_mask k)
      × (after.sdp ≡ (p + (n + used)) % 2 ^ k)
      × (owed k after.buffers (n + used) p ≡ owed k before.buffers n p + count)
      × (free - used + (n + used) + 1 ≡ 2 ^ k)
  Kept n free used count before (err e, after) = after ≡ before

  still_free : (free : ℕ) → ltb free 2 ≡ false → free - 1 == 0 ≡ false
  still_free free h = ground arith

  place-Kept :
      (n free upper count dma len : ℕ) (sdp : ℕ) (ctrl : Xctrl)
      → ctrl.mdp ≡ low_mask k
      → sdp ≡ (p + n) % 2 ^ k
      → free + n + 1 ≡ 2 ^ k
      → Kept n free
          (if upper_addr dma == upper then 1 else 2)
          count
          ctrl
          (place (xsk count) dma len sdp upper free ctrl)
  unfolding announce emit
  place-Kept n free upper count dma len sdp ctrl mask at room =
      let next : next_slot ctrl.mdp sdp ≡ (p + suc n) % 2 ^ k =
        rw (mask, at) (next_slot_lem k fits p n) in
      let after_next : next_slot ctrl.mdp ((p + suc n) % 2 ^ k) ≡ (p + suc (suc n)) % 2 ^ k =
        rw mask (next_slot_lem k fits p (suc n)) in
      elim (Bool-cases (upper_addr dma == upper)) [
        | inl same ↦ elim (Bool-cases (free == 0)) [
          | inl full ↦ rw (same, full) refl
          | inr some_free ↦
              rw (same, some_free)
                (
                  mask,
                  next ∙ ap (λ x. (p + x) % 2 ^ k) {x = suc n} {y = n + 1} (omega arith),
                  ap (λ m. owed k (put sdp (xsk count) ctrl.buffers) m p) {x = n + 1} {y = suc n}
                        (omega arith)
                      ∙ ap (λ s. owed k (put s (xsk count) ctrl.buffers) (suc n) p) at
                      ∙ owed-put k n p (xsk count) ctrl.buffers hp (omega (arith, room)),
                  ground (arith, room),
                )
        ]
        | inr new ↦ elim (Bool-cases (ltb free 2)) [
          | inl full ↦ rw (new, full) refl
          | inr two_free ↦
              rw (new, two_free, still_free free two_free)
                (
                  mask,
                  ap (next_slot ctrl.mdp) next
                      ∙ after_next
                      ∙ ap (λ x. (p + x) % 2 ^ k) {x = suc (suc n)} {y = n + 2} (omega arith),
                  ap
                        (λ m.
                          owed k
                            (put (next_slot ctrl.mdp sdp) (xsk count)
                              (put sdp desc_type0 ctrl.buffers))
                            m p)
                        {x = n + 2} {y = suc (suc n)} (omega arith)
                      ∙ ap
                          (λ s.
                            owed k (put s (xsk count) (put sdp desc_type0 ctrl.buffers))
                              (suc (suc n)) p)
                          next
                      ∙ owed-put k (suc n) p (xsk count) (put sdp desc_type0 ctrl.buffers) hp
                          (ground (arith, room))
                      ∙ ap (λ x. x + count)
                          (ap (λ s. owed k (put s desc_type0 ctrl.buffers) (suc n) p) at
                            ∙ owed-put k n p desc_type0 ctrl.buffers hp (omega (arith, room))
                            ∙ omega arith),
                  ground (arith, room),
                )
        ]
      ]

  -- The slots in use from `p` on after the loop, and the account: what the slots owe and what is dropped
  -- and not reported is what they owed, what was dropped before, and all that was ready.
  abbrev pub Accounted : ℕ → ℕ → ℕ → (ℕ → TxBuffer) → ℕ × ℕ × Xctrl → Type 0
  Accounted n drops ready before result =
      (m : ℕ) × (m < 2 ^ k)
      × (result.2.sdp ≡ (p + m) % 2 ^ k)
      × (result.0 ≤ ready)
      × (owed k result.2.buffers m p + (result.1 + (ready - result.0))
          ≡ owed k before n p + (drops + ready))

  go_on :
      (n free used drops ready : ℕ) (ctrl : Xctrl) (sdp : ℕ) (placed : Status × Xctrl)
      (rest : ℕ × ℕ × Xctrl)
      → n < 2 ^ k
      → sdp ≡ (p + n) % 2 ^ k
      → drops + suc ready < 2 ^ 32
      → Kept n free used ((1 + drops) % 2 ^ 32) ctrl placed
      → (placed.1.mdp ≡ low_mask k
          → placed.1.sdp ≡ (p + (n + used)) % 2 ^ k
          → free - used + (n + used) + 1 ≡ 2 ^ k
          → Accounted (n + used) 0 ready placed.1.buffers rest)
      → Accounted n drops (suc ready) ctrl.buffers (elim (placed.0) [
        | ok ↦ (rest.0 + 1, rest.1, rest.2)
        | err e ↦ (0, drops, record (placed.1) { sdp = sdp })
      ])
  go_on n free used drops ready ctrl sdp (ok, after) rest hn at small (mask, moved, more, room)
        later =
      let (m, hm, sdp_is, le, account) = later mask moved room in
      (m, hm, sdp_is, omega arith, omega (arith, account, more))
  go_on n free used drops ready ctrl sdp (err e, after) rest hn at small same later =
      (n, hn, at, omega arith, omega (arith, ap (λ c. owed k c.buffers n p) same))

  -- The loop of `nfb_xctrl_napi_poll_tx_xsk`, run with the controller's own pointers: every descriptor that
  -- the socket had ready is owed to it exactly once afterwards, as a completion behind a slot in use or among
  -- the drops, whether it was sent or not. `n` slots are in use from `p` on, the ring is masked, and the
  -- numbers fit 32 bits.
  pub send_ready-Accounted :
      (buffs : List (ℕ × ℕ)) (n sdp upper free drops : ℕ) (ctrl : Xctrl)
      → ctrl.mdp ≡ low_mask k
      → sdp ≡ (p + n) % 2 ^ k
      → free + n + 1 ≡ 2 ^ k
      → drops + length buffs < 2 ^ 32
      → Accounted n drops (length buffs) ctrl.buffers (send_ready buffs sdp upper free drops ctrl)
  unfolding send_ready
  send_ready-Accounted [] n sdp upper free drops ctrl mask at room small =
      (n, omega (arith, room), at, omega arith, omega arith)
  send_ready-Accounted (b ∷ buffs) n sdp upper free drops ctrl mask at room small =
      let count = (1 + drops) % 2 ^ 32 in
      let placed = place (xsk count) b.0 (padded b.1) sdp upper free ctrl in
      let used : ℕ = if upper_addr b.0 == upper then 1 else 2 in
      let kept = place-Kept n free upper count b.0 (padded b.1) sdp ctrl mask at room in
      go_on n free used drops (length buffs) ctrl sdp placed
        (send_ready buffs placed.1.sdp (upper_addr b.0) (free - used) 0 placed.1)
        (omega (arith, room)) at small kept
        (λ mask' moved room'.
          send_ready-Accounted buffs (n + used) placed.1.sdp (upper_addr b.0) (free - used) 0
            placed.1 mask' moved room' (omega arith))
