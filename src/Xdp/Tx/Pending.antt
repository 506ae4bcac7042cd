-- ===== src/Xdp/Tx/Pending.antt =====
-- The transmit ring as the queue of packets that the hardware has still to send (ctrl_xdp_common.h): what
-- lies between the hardware's pointer and `sdp`.
use native.Mathlib.Nat.{mod-add-mod, mod-lt, mod-eq_of_lt, pow-le-pow_right, one-le-pow}
use ndk_sw_bachelor_thesis.Common.{
  ℕ, zero, suc, ◌+◌, ◌-◌, ◌%◌, ◌^◌, ◌<◌, ◌≤◌, ◌≡◌, ◌≢◌, refl, ap, sym, ◌∙◌, false, List, [], ◌∷◌,
  ◌++◌, ok, err, ebusy, ◌==◌, ltb, arith, ◌⊎◌, inl, inr, Bool-cases,
}
use ndk_sw_bachelor_thesis.Common.Bits.{low_mask}
use ndk_sw_bachelor_thesis.Common.Rings.{masked_word, free-add-used, advance}
use ndk_sw_bachelor_thesis.Xdp.Tx.{
  Desc, nc_ndp_tx_desc0, nc_ndp_tx_desc2, upper_addr, TxBuffer, Xctrl, put, next_slot, free_slots,
  announce, emit, place,
}
use ndk_sw_bachelor_thesis.Xdp.Tx.Decode.{decode_one, needed, upper_round, upper_split}

-- The first `n` descriptors from slot `p` on, in a ring of `2 ^ k` slots: the upper bits behind them, and
-- the packets that they send.
abbrev pub sent : ℕ → (ℕ → Desc) → ℕ → ℕ → ℕ → ℕ × List (ℕ × ℕ)
sent k descs zero p upper = (upper, [])
sent k descs (suc n) p upper =
    let (upper', before) = sent k descs n p upper in
    let (upper'', last) = decode_one (descs ((p + n) % 2 ^ k)) upper' in (upper'', before ++ last)

-- `n` slots from the hardware's pointer to `sdp`, whose descriptors send `packets` when the hardware
-- stands at the upper bits `upper`, and leave it at `last_upper_addr`.
abbrev pub Pending : ℕ → ℕ → ℕ → List (ℕ × ℕ) → Xctrl → Type 0
Pending k n upper packets ctrl =
    (ctrl.mdp ≡ low_mask k)
    × (n < 2 ^ k)
    × (ctrl.hdp < 2 ^ k)
    × (ctrl.sdp ≡ (ctrl.hdp + n) % 2 ^ k)
    × (sent k ctrl.descs n ctrl.hdp upper ≡ (ctrl.last_upper_addr, packets))

sent_same :
    (k n p upper : ℕ) (descs descs' : ℕ → Desc)
    → ((i : ℕ) → i < n → descs' ((p + i) % 2 ^ k) ≡ descs ((p + i) % 2 ^ k))
    → sent k descs' n p upper ≡ sent k descs n p upper
sent_same k zero p upper descs descs' same = refl
sent_same k (suc n) p upper descs descs' same =
    let before = sent_same k n p upper descs descs' (λ i h. same i (omega arith)) in
    rw (before, same n (omega arith)) refl

-- Two slots less than a round apart are different.
pub apart : (k p i n : ℕ) → p < 2 ^ k → i < n → n < 2 ^ k → (p + i) % 2 ^ k ≢ (p + n) % 2 ^ k
apart k p i n hp hi hn e =
    let moved : ((p + i) % 2 ^ k + 2 ^ k - p) % 2 ^ k ≡ i =
      advance k k (omega arith) p i hp (omega arith) in
    let further : ((p + n) % 2 ^ k + 2 ^ k - p) % 2 ^ k ≡ n = advance k k (omega arith) p n hp hn in
    let equal : i ≡ n = sym moved ∙ ap (λ s. (s + 2 ^ k - p) % 2 ^ k) e ∙ further in
    omega (arith, equal)

-- One more descriptor in the slot behind the last one.
pub sent_one_more :
    (k n p upper last : ℕ) (packets : List (ℕ × ℕ)) (desc : Desc) (descs : ℕ → Desc)
    → p < 2 ^ k
    → n < 2 ^ k
    → sent k descs n p upper ≡ (last, packets)
    → let (last', more) = decode_one desc last in
      sent k (put ((p + n) % 2 ^ k) desc descs) (suc n) p upper ≡ (last', packets ++ more)
sent_one_more k n p upper last packets desc descs hp hn e =
    let slot = (p + n) % 2 ^ k in
    let others : sent k (put slot desc descs) n p upper ≡ (last, packets) =
      sent_same k n p upper descs (put slot desc descs) (λ i h. elsewhere i h) ∙ e in
    let here : put slot desc descs slot ≡ desc = ground arith in rw (others, here) refl
  where
    elsewhere :
        (i : ℕ)
        → i < n
        → put ((p + n) % 2 ^ k) desc descs ((p + i) % 2 ^ k) ≡ descs ((p + i) % 2 ^ k)
    elsewhere i h = ground (arith, apart k p i n hp h hn)

pub append_nil : (l : List (ℕ × ℕ)) → l ++ [] ≡ l
append_nil [] = refl
append_nil (x ∷ l) = ap (λ r. x ∷ r) (append_nil l)

module _ (k : ℕ) (fits : k ≤ 32) where
  pub next_slot_lem : (p n : ℕ) → next_slot (low_mask k) ((p + n) % 2 ^ k) ≡ (p + suc n) % 2 ^ k
  next_slot_lem p n =
      masked_word k 32 fits ((p + n) % 2 ^ k + 1)
      ∙ mod-add-mod (p + n) (2 ^ k) 1
      ∙ ap (λ x. x % 2 ^ k) {x = p + n + 1} {y = p + suc n} (omega arith)

  slots : 0 < 2 ^ k
  slots = one-le-pow k 2 (omega arith)

  small : 2 ^ k ≤ 2 ^ 32
  small = pow-le-pow_right {n = 2} (omega arith) fits

  -- The free slots and the used ones are all but one.
  pub free_slots_lem :
      (h n : ℕ)
      → h < 2 ^ k
      → n < 2 ^ k
      → free_slots (low_mask k) h ((h + n) % 2 ^ k) + n + 1 ≡ 2 ^ k
  free_slots_lem h n hh hn =
      let sdp = (h + n) % 2 ^ k in
      let below : sdp < 2 ^ k = mod-lt (h + n) {m = 2 ^ k} slots in
      omega (
        arith,
        masked_word k 32 fits (h + 2 ^ 32 - sdp + 2 ^ 32 - 1),
        free-add-used k 32 fits h sdp (omega (arith, small)) (omega (arith, small, below)),
        advance k 32 fits h n (omega (arith, small)) hn,
      )

  -- The packet in the slot behind the last one, when the hardware already stands at its upper bits.
  pub one_written :
      (n h upper : ℕ) (packets : List (ℕ × ℕ)) (descs : ℕ → Desc) (dma len : ℕ)
      → h < 2 ^ k
      → n < 2 ^ k
      → len < 2 ^ 16
      → sent k descs n h upper ≡ (upper_addr dma, packets)
      → sent k (put ((h + n) % 2 ^ k) (nc_ndp_tx_desc2 dma len 0 0) descs) (suc n) h upper
        ≡ (upper_addr dma, packets ++ ((dma, len) ∷ []))
  one_written n h upper packets descs dma len hh hn hl e =
      sent_one_more k n h upper (upper_addr dma) packets (nc_ndp_tx_desc2 dma len 0 0) descs hh hn e
      ∙ rw (upper_split dma, mod-eq_of_lt {n = len} {m = 2 ^ 16} hl) refl

  -- The upper bits in one slot and the packet in the next.
  two_written :
      (n h upper last : ℕ) (packets : List (ℕ × ℕ)) (descs : ℕ → Desc) (dma len : ℕ)
      → h < 2 ^ k
      → suc n < 2 ^ k
      → dma < 2 ^ 64
      → len < 2 ^ 16
      → sent k descs n h upper ≡ (last, packets)
      → sent k
          (put
            ((h + suc n) % 2 ^ k)
            (nc_ndp_tx_desc2 dma len 0 0)
            (put ((h + n) % 2 ^ k) (nc_ndp_tx_desc0 dma) descs))
          (suc (suc n))
          h
          upper
        ≡ (upper_addr dma, packets ++ ((dma, len) ∷ []))
  two_written n h upper last packets descs dma len hh hn hd hl e =
      one_written (suc n) h upper packets (put ((h + n) % 2 ^ k) (nc_ndp_tx_desc0 dma) descs) dma
        len hh hn hl
        (sent_one_more k n h upper last packets (nc_ndp_tx_desc0 dma) descs hh (omega arith) e
          ∙ rw (upper_round dma hd, append_nil packets) refl)

  -- In a ring that is the hardware's queue of `packets`, placing one more (64-bit address, 16-bit
  -- length) with the controller's own pointers, as the transmit functions do under `tx_lock`: it is
  -- refused exactly when the free slots do not suffice, and then nothing changes; otherwise the
  -- hardware's queue has this packet as its new last one, and the packets before it are still there.
  pub place-Pending :
      (n upper : ℕ) (packets : List (ℕ × ℕ)) (buffer : TxBuffer) (dma len : ℕ) (ctrl : Xctrl)
      → Pending k n upper packets ctrl
      → dma < 2 ^ 64
      → len < 2 ^ 16
      → let (ret, after) =
          place buffer dma len ctrl.sdp ctrl.last_upper_addr
            (free_slots ctrl.mdp ctrl.hdp ctrl.sdp)
            ctrl in
        let m = needed ctrl.last_upper_addr dma in
        ((2 ^ k ≤ n + m) × (ret ≡ err ebusy) × (after ≡ ctrl))
        ⊎ ((n + m < 2 ^ k)
            × (ret ≡ ok)
            × Pending k (n + m) upper (packets ++ ((dma, len) ∷ [])) after)
  unfolding announce emit
  place-Pending n upper packets buffer dma len ctrl (mask, hn, hh, at, e) hd hl =
      let free : free_slots ctrl.mdp ctrl.hdp ctrl.sdp + n + 1 ≡ 2 ^ k =
        rw (mask, at) (free_slots_lem ctrl.hdp n hh hn) in
      let next : next_slot ctrl.mdp ctrl.sdp ≡ (ctrl.hdp + suc n) % 2 ^ k =
        rw (mask, at) (next_slot_lem ctrl.hdp n) in
      let after_next : next_slot ctrl.mdp ((ctrl.hdp + suc n) % 2 ^ k)
          ≡ (ctrl.hdp + suc (suc n)) % 2 ^ k =
        rw mask (next_slot_lem ctrl.hdp (suc n)) in
      elim (Bool-cases (upper_addr dma == ctrl.last_upper_addr)) [
        | inl same ↦ elim (Bool-cases (free_slots ctrl.mdp ctrl.hdp ctrl.sdp == 0)) [
          | inl full ↦ rw (same, full) (inl (ground arith, refl, refl))
          | inr room ↦
              let eq : upper_addr dma ≡ ctrl.last_upper_addr = ground arith in
              let one =
                one_written n ctrl.hdp upper packets ctrl.descs dma len hh hn hl
                  (e ∙ ap (λ u. (u, packets)) (sym eq))
                ∙ ap (λ u. (u, packets ++ ((dma, len) ∷ []))) eq in
              let count : n + 1 ≡ suc n = omega arith in
              let one_at : sent k (put ctrl.sdp (nc_ndp_tx_desc2 dma len 0 0) ctrl.descs) (suc n)
                    ctrl.hdp upper
                  ≡ (ctrl.last_upper_addr, packets ++ ((dma, len) ∷ [])) =
                ap
                  (λ s.
                    sent k (put s (nc_ndp_tx_desc2 dma len 0 0) ctrl.descs) (suc n) ctrl.hdp upper)
                  at
                ∙ one in
              rw (same, room, count)
                (inr (ground arith, refl, (mask, ground arith, hh, next, one_at)))
        ]
        | inr new ↦ elim (Bool-cases (ltb (free_slots ctrl.mdp ctrl.hdp ctrl.sdp) 2)) [
          | inl full ↦ rw (new, full) (inl (ground arith, refl, refl))
          | inr room ↦
              let more : free_slots ctrl.mdp ctrl.hdp ctrl.sdp - 1 == 0 ≡ false = ground arith in
              let two =
                two_written n ctrl.hdp upper ctrl.last_upper_addr packets ctrl.descs dma len hh
                  (ground arith) hd hl e in
              let count : n + 2 ≡ suc (suc n) = omega arith in
              let two_at : sent k
                    (put (next_slot ctrl.mdp ctrl.sdp) (nc_ndp_tx_desc2 dma len 0 0)
                      (put ctrl.sdp (nc_ndp_tx_desc0 dma) ctrl.descs))
                    (suc (suc n)) ctrl.hdp upper
                  ≡ (upper_addr dma, packets ++ ((dma, len) ∷ [])) =
                ap
                  (λ s.
                    sent k
                      (put s (nc_ndp_tx_desc2 dma len 0 0)
                        (put ctrl.sdp (nc_ndp_tx_desc0 dma) ctrl.descs))
                      (suc (suc n)) ctrl.hdp upper)
                  next
                ∙ ap
                    (λ s.
                      sent k
                        (put ((ctrl.hdp + suc n) % 2 ^ k) (nc_ndp_tx_desc2 dma len 0 0)
                          (put s (nc_ndp_tx_desc0 dma) ctrl.descs))
                        (suc (suc n)) ctrl.hdp upper)
                    at
                ∙ two in
              rw (new, room, more, count)
                (inr (
                  ground arith,
                  refl,
                  (mask, ground arith, hh, ap (next_slot ctrl.mdp) next ∙ after_next, two_at),
                ))
        ]
      ]
