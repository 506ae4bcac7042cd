-- ===== src/Xdp/Rx/Headers.antt =====
-- The header ring of a receive queue (ctrl_xdp_pp.c, ctrl_xdp_xsk.c): the buffers that wait in the slots
-- between `shp` and `php`.
use ndk_sw_bachelor_thesis.Common.{
  ℕ, zero, suc, ◌+◌, ◌%◌, ◌^◌, ◌<◌, ◌≤◌, ◌≡◌, refl, List, [], ◌∷◌, ◌++◌, if◌then◌else◌, arith,
}
use ndk_sw_bachelor_thesis.Common.Bits.{low_mask}
use ndk_sw_bachelor_thesis.Xdp.Tx.{put, next_slot}
use ndk_sw_bachelor_thesis.Xdp.Tx.Pending.{apart, next_slot_lem}
use ndk_sw_bachelor_thesis.Xdp.Rx.{RxCtrl, set_upper, post_rest, post}

-- The buffers of `n` slots from slot `p` on, in a ring of `2 ^ h` slots.
abbrev pub waiting : ℕ → (ℕ → ℕ) → ℕ → ℕ → List ℕ
waiting h ring zero p = []
waiting h ring (suc n) p = waiting h ring n p ++ (ring ((p + n) % 2 ^ h) ∷ [])

-- `n` slots are taken, from `shp` to `php`.
abbrev pub Taken : ℕ → ℕ → RxCtrl → Type 0
Taken h n ctrl =
    (ctrl.mhp ≡ low_mask h) × (n < 2 ^ h) × (ctrl.shp < 2 ^ h) × (ctrl.php ≡ (ctrl.shp + n) % 2 ^ h)

waiting_same :
    (h n p : ℕ) (ring ring' : ℕ → ℕ)
    → ((i : ℕ) → i < n → ring' ((p + i) % 2 ^ h) ≡ ring ((p + i) % 2 ^ h))
    → waiting h ring' n p ≡ waiting h ring n p
waiting_same h zero p ring ring' same = refl
waiting_same h (suc n) p ring ring' same =
    let before = waiting_same h n p ring ring' (λ i l. same i (omega arith)) in
    rw (before, same n (omega arith)) refl

-- One more buffer in the slot behind the last one.
pub waiting_one_more :
    (h n p buffer : ℕ) (ring : ℕ → ℕ)
    → p < 2 ^ h
    → n < 2 ^ h
    → waiting h (put ((p + n) % 2 ^ h) buffer ring) (suc n) p ≡ waiting h ring n p ++ (buffer ∷ [])
waiting_one_more h n p buffer ring hp hn =
    let slot = (p + n) % 2 ^ h in
    let others =
      waiting_same h n p ring (put slot buffer ring)
        (λ i l. ground (arith, apart h p i n hp l hn)) in
    let here : put slot buffer ring slot ≡ buffer = ground arith in rw (others, here) refl

-- One round of a fill loop takes one slot, or none when it breaks off.
pub post-Taken :
    (h n dma frame_len buffer free : ℕ) (ctrl : RxCtrl)
    → h ≤ 32
    → Taken h n ctrl
    → n + 1 < 2 ^ h
    → let (posted, free', ctrl') = post dma frame_len buffer free ctrl in
      Taken h (if posted then suc n else n) ctrl'
unfolding set_upper post_rest
post-Taken h n dma frame_len buffer free ctrl fits (mask, hn, hs, at) room =
    let next : next_slot ctrl.mhp ctrl.php ≡ (ctrl.shp + suc n) % 2 ^ h =
      rw (mask, at) (next_slot_lem h fits ctrl.shp n) in
    ground (arith, mask, hn, hs, at, next)
