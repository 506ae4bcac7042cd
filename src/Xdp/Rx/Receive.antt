-- ===== src/Xdp/Rx/Receive.antt =====
-- Taking filled buffers from a receive queue (ctrl_xdp_pp.c, ctrl_xdp_xsk.c), in the order in which the card
-- got them.
use native.Mathlib.Nat.{mod-add-mod, mod-lt, mod-eq_of_lt, pow-le-pow_right}
use ndk_sw_bachelor_thesis.Common.{
  ℕ, zero, suc, ◌+◌, ◌-◌, ◌%◌, ◌^◌, min, bit_and, ◌<◌, ◌≤◌, ◌≡◌, refl, ap, sym, ◌∙◌, subst, List,
  [], ◌∷◌, ◌++◌, length, length-append, arith,
}
use ndk_sw_bachelor_thesis.Common.Bits.{low_mask}
use ndk_sw_bachelor_thesis.Common.Rings.{masked_word, advance}
use ndk_sw_bachelor_thesis.Xdp.Tx.{next_slot}
use ndk_sw_bachelor_thesis.Xdp.Tx.Pending.{next_slot_lem}
use ndk_sw_bachelor_thesis.Xdp.Rx.{RxCtrl, take_ready, ready_count, receive}
use ndk_sw_bachelor_thesis.Xdp.Rx.Headers.{waiting}
use ndk_sw_bachelor_thesis.Xdp.Rx.Posted.{Posted}

-- The first buffer in front of the others.
waiting_front :
    (h m p : ℕ) (ring : ℕ → ℕ)
    → p < 2 ^ h
    → waiting h ring (suc m) p ≡ ring p ∷ waiting h ring m ((p + 1) % 2 ^ h)
waiting_front h zero p ring hp =
    ap (λ q. ring q ∷ []) (mod-eq_of_lt {n = p + 0} {m = 2 ^ h} (omega arith) ∙ omega arith)
waiting_front h (suc m) p ring hp =
    let last : (p + suc m) % 2 ^ h ≡ ((p + 1) % 2 ^ h + m) % 2 ^ h =
      ap (λ x. x % 2 ^ h) {x = p + suc m} {y = p + 1 + m} (omega arith)
      ∙ sym (mod-add-mod (p + 1) (2 ^ h) m) in
    rw (waiting_front h m p ring hp, last) refl

length-waiting : (h m p : ℕ) (ring : ℕ → ℕ) → length (waiting h ring m p) ≡ m
length-waiting h zero p ring = refl
length-waiting h (suc m) p ring =
    length-append (waiting h ring m p) (ring ((p + m) % 2 ^ h) ∷ [])
    ∙ omega (arith, length-waiting h m p ring)

-- Buffers from slot `p` on, each with the length in its slot's header.
abbrev pub labelled : ℕ → (ℕ → ℕ) → List ℕ → ℕ → List (ℕ × ℕ)
labelled h lens [] p = []
labelled h lens (b ∷ bs) p = (b, lens p) ∷ labelled h lens bs ((p + 1) % 2 ^ h)

heads : (a b : ℕ) (l r : List ℕ) → a ∷ l ≡ b ∷ r → (a ≡ b) × (l ≡ r)
heads a b l r e = ground (arith, e)

module _ (k h : ℕ) (dma : ℕ → ℕ) (frame_len : ℕ) (fits' : h ≤ 32) where
  -- These buffers were delivered, and the queue goes on with the rest.
  abbrev pub Delivered :
      ℕ → ℕ → ℕ → List ℕ → List ℕ → List ℕ → RxCtrl → List (ℕ × ℕ) × RxCtrl → Type 0
  Delivered n m upper got rest fresh before result =
      (result.0 ≡ labelled h before.frame_lens got before.shp)
      × ((m' : ℕ) × (m' + length got ≡ m)
          × Posted k h dma frame_len n m' upper rest fresh (result.1))

  one_taken :
      (n m upper b : ℕ) (filled fresh : List ℕ) (ctrl : RxCtrl)
      → Posted k h dma frame_len n (suc m) upper (b ∷ filled) fresh ctrl
      → (b ≡ ctrl.xdp_ring ctrl.shp)
        × (next_slot ctrl.mhp ctrl.shp ≡ (ctrl.shp + 1) % 2 ^ h)
        × Posted k h dma frame_len n m upper filled fresh
            (record ctrl { shp = next_slot ctrl.mhp ctrl.shp })
  one_taken n m upper b filled fresh ctrl p =
      let start : (ctrl.shp + 0) % 2 ^ h ≡ ctrl.shp =
        mod-eq_of_lt {n = ctrl.shp + 0} {m = 2 ^ h} (omega (arith, p.headers.2)) ∙ omega arith in
      let next : next_slot ctrl.mhp ctrl.shp ≡ (ctrl.shp + 1) % 2 ^ h =
        rw p.headers.0
          (ap (next_slot (low_mask h)) (sym start) ∙ next_slot_lem h fits' ctrl.shp 0) in
      let (first, others) =
        heads b (ctrl.xdp_ring ctrl.shp) (filled ++ fresh)
          (waiting h ctrl.xdp_ring m ((ctrl.shp + 1) % 2 ^ h))
          (sym p.held ∙ waiting_front h m ctrl.shp ctrl.xdp_ring p.headers.2) in
      let last : (ctrl.shp + suc m) % 2 ^ h ≡ ((ctrl.shp + 1) % 2 ^ h + m) % 2 ^ h =
        ap (λ x. x % 2 ^ h) {x = ctrl.shp + suc m} {y = ctrl.shp + 1 + m} (omega arith)
        ∙ sym (mod-add-mod (ctrl.shp + 1) (2 ^ h) m) in
      (
        first,
        next,
        record {
          headers = (
            p.headers.0,
            omega (arith, p.headers.1),
            rw next (mod-lt (ctrl.shp + 1) {m = 2 ^ h} (omega (arith, p.headers.2))),
            p.headers.3 ∙ last ∙ ap (λ s. (s + m) % 2 ^ h) (sym next),
          );
          mask = p.mask;
          some_free = p.some_free;
          in_ring = p.in_ring;
          ahead = p.ahead;
          named = p.named;
          held = ap (waiting h ctrl.xdp_ring m) next ∙ sym others;
        },
      )

  take_ready-Delivered :
      (got rest fresh : List ℕ) (n m upper : ℕ) (ctrl : RxCtrl)
      → Posted k h dma frame_len n m upper (got ++ rest) fresh ctrl
      → Delivered n m upper got rest fresh ctrl (take_ready (length got) ctrl)
  unfolding take_ready
  take_ready-Delivered [] rest fresh n m upper ctrl p = (refl, (m, omega arith, p))
  take_ready-Delivered (b ∷ got) rest fresh n zero upper ctrl p = absurd (ground (arith, p.held))
  take_ready-Delivered (b ∷ got) rest fresh n (suc m) upper ctrl p =
      let (first, next, q) = one_taken n m upper b (got ++ rest) fresh ctrl p in
      let (list, (m', count, left)) = take_ready-Delivered got rest fresh n m upper _ q in
      (
        rw (← first) (
            ap (λ l. (b, ctrl.frame_lens ctrl.shp) ∷ l)
              (list ∙ ap (labelled h ctrl.frame_lens got) next)),
        (m', omega (arith, count), left),
      )

  -- A poll with the budget `nb_pkts` on a header ring of `2 ^ 16` slots at most: when the card has filled the
  -- first `r` of the buffers that it had read, it delivers the first `min nb_pkts r` of them, in the order in
  -- which they were posted, each with the length in its own header, and the queue keeps the others.
  pub receive-Delivered :
      (got rest fresh : List ℕ) (nb_pkts r n m upper : ℕ) (ctrl : RxCtrl)
      → h ≤ 16
      → Posted k h dma frame_len n m upper (got ++ rest) fresh ctrl
      → r < 2 ^ h
      → length got ≡ min nb_pkts r
      → Delivered n m upper got rest fresh ctrl (receive nb_pkts ((ctrl.shp + r) % 2 ^ h) ctrl)
  unfolding receive
  receive-Delivered got rest fresh nb_pkts r n m upper ctrl short p hr count =
      let updated : RxCtrl = record ctrl { hhp = (ctrl.shp + r) % 2 ^ h } in
      let small : 2 ^ h ≤ 2 ^ 16 = pow-le-pow_right {n = 2} (omega arith) short in
      let ready : bit_and (((ctrl.shp + r) % 2 ^ h + 2 ^ 32 - ctrl.shp) % 2 ^ 32) ctrl.mhp ≡ r =
        rw p.headers.0 (
          masked_word h 32 fits' ((ctrl.shp + r) % 2 ^ h + 2 ^ 32 - ctrl.shp)
          ∙ advance h 32 fits' ctrl.shp r (omega (arith, small, p.headers.2)) hr) in
      let same : ready_count nb_pkts updated ≡ length got =
        rw ready (ground (arith, small, count)) in
      let q : Posted k h dma frame_len n m upper (got ++ rest) fresh updated = record {
        headers = p.headers;
        mask = p.mask;
        some_free = p.some_free;
        in_ring = p.in_ring;
        ahead = p.ahead;
        named = p.named;
        held = p.held;
      } in
      subst (λ c. Delivered n m upper got rest fresh ctrl (take_ready c updated)) (sym same)
        (take_ready-Delivered got rest fresh n m upper updated q)
