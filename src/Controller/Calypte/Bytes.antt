-- ===== src/Controller/Calypte/Bytes.antt =====
-- The account of the bytes of a Calypte transmit queue (ndp/ctrl_ndp.c).
use native.Mathlib.Nat.{mod-add-mod, mod-lt, pow-le-pow_right, one-le-pow}
use ndk_sw_bachelor_thesis.Common.{
  ℕ, zero, suc, ◌+◌, ◌-◌, ◌*◌, ◌/◌, ◌%◌, ◌^◌, ◌<◌, ◌≤◌, ◌≡◌, refl, ap, sym, subst, ◌∙◌, bit_and,
  arith,
}
use ndk_sw_bachelor_thesis.Common.Bits.{low_mask, and-low_mask}
use ndk_sw_bachelor_thesis.Common.Rings.{masked_word, advance, cut_word}
use ndk_sw_bachelor_thesis.Controller.User.{gap, forward}
use ndk_sw_bachelor_thesis.Controller.Calypte.{
  TxCalypte, ceil_block, take_bytes, take_rounds, ndp_ctrl_calypte_tx_get_hwptr,
  ndp_ctrl_calypte_tx_set_swptr,
}

module _ (k : ℕ) (some_block : 5 ≤ k) (fits : k ≤ 31) where
  -- `n` bytes in flight up to the function's copy of `sdp`, whole blocks of 32; with the free ones they are all but one.
  abbrev pub Bytes : ℕ → ℕ → TxCalypte → Type 0
  Bytes n sdp ctrl =
      (ctrl.mdp ≡ low_mask k)
      × (ctrl.hdp < 2 ^ k)
      × (sdp ≡ (ctrl.hdp + n) % 2 ^ k)
      × (ctrl.free_bytes + n + 1 ≡ 2 ^ k)
      × (sdp % 32 ≡ 0)

  small : 2 ^ k ≤ 2 ^ 31
  small = pow-le-pow_right {n = 2} (omega arith) fits

  slots : 0 < 2 ^ k
  slots = one-le-pow k 2 (omega arith)

  module _ (frame_len : ℕ → ℕ) (short : (slot : ℕ) → frame_len slot < 2 ^ 16) where
    -- The bytes that the packets of `rounds` headers take, in whole blocks.
    abbrev pub bytes_of : ℕ → ℕ → ℕ → ℕ → ℕ
    bytes_of mhp shp zero i = 0
    bytes_of mhp shp (suc rounds) i =
        (frame_len (forward mhp shp i) + 31) / 32 * 32 + bytes_of mhp shp rounds (i + 1)

    take_bytes-Bytes :
        (n sdp slot : ℕ) (ctrl : TxCalypte)
        → (frame_len slot + 31) / 32 * 32 ≤ ctrl.free_bytes
        → Bytes n sdp ctrl
        → Bytes
            (n + (frame_len slot + 31) / 32 * 32)
            (take_bytes frame_len slot sdp ctrl).0
            (take_bytes frame_len slot sdp ctrl).1
    take_bytes-Bytes n sdp slot ctrl room (mask, in_ring, ahead, free, aligned) =
        let len = short slot in
        let taken = (frame_len slot + 31) / 32 * 32 in
        let low : sdp < 2 ^ k = omega (arith, ahead, mod-lt (ctrl.hdp + n) {m = 2 ^ k} slots) in
        let whole : ceil_block (sdp + frame_len slot) ≡ sdp + taken =
          omega (arith, aligned, low, small, len) in
        let next : bit_and (ceil_block (sdp + frame_len slot)) ctrl.mdp ≡ (sdp + taken) % 2 ^ k =
          ap (λ m. bit_and (ceil_block (sdp + frame_len slot)) m) mask
          ∙ and-low_mask (ceil_block (sdp + frame_len slot)) k
          ∙ ap (λ x. x % 2 ^ k) whole in
        (
          mask,
          in_ring,
          next
              ∙ ap (λ q. (q + taken) % 2 ^ k) ahead
              ∙ mod-add-mod (ctrl.hdp + n) (2 ^ k) taken
              ∙ ap (λ x. x % 2 ^ k) {x = ctrl.hdp + n + taken} {y = ctrl.hdp + (n + taken)}
                  (omega arith),
          omega (arith, room, free, small, len),
          ap (λ x. x % 32) next ∙ cut_word 5 k some_block (sdp + taken) ∙ omega (arith, aligned),
        )

    take_rounds-Bytes :
        (rounds n i sdp : ℕ) (ctrl : TxCalypte)
        → bytes_of ctrl.mhp ctrl.shp rounds i ≤ ctrl.free_bytes
        → Bytes n sdp ctrl
        → Bytes
            (n + bytes_of ctrl.mhp ctrl.shp rounds i)
            (take_rounds frame_len rounds i sdp ctrl).0
            (take_rounds frame_len rounds i sdp ctrl).1
    unfolding take_rounds
    take_rounds-Bytes zero n i sdp ctrl room b =
        let same : n ≡ n + 0 = omega arith in subst (λ t. Bytes t sdp ctrl) same b
    take_rounds-Bytes (suc rounds) n i sdp ctrl room b =
        let slot = forward ctrl.mhp ctrl.shp i in
        let taken = (frame_len slot + 31) / 32 * 32 in
        let first = take_bytes-Bytes n sdp slot ctrl (omega (arith, room)) b in
        let next = take_bytes frame_len slot sdp ctrl in
        let more : n + taken + bytes_of ctrl.mhp ctrl.shp rounds (i + 1)
            ≡ n + bytes_of ctrl.mhp ctrl.shp (suc rounds) i =
          omega arith in
        subst
          (λ t.
            Bytes t (take_rounds frame_len rounds (i + 1) next.0 next.1).0
              (take_rounds frame_len rounds (i + 1) next.0 next.1).1)
          more
          (take_rounds-Bytes rounds (n + taken) (i + 1) next.0 next.1
            (omega (arith, room, first.3, b.3)) first)

    take_rounds_hdp :
        (rounds i sdp : ℕ) (ctrl : TxCalypte)
        → (take_rounds frame_len rounds i sdp ctrl).1.hdp ≡ ctrl.hdp
    unfolding take_rounds
    take_rounds_hdp zero i sdp ctrl = refl
    take_rounds_hdp (suc rounds) i sdp ctrl =
        let next = take_bytes frame_len (forward ctrl.mhp ctrl.shp i) sdp ctrl in
        take_rounds_hdp rounds (i + 1) next.0 next.1

    get_hwptr-Bytes :
        (n d read_hdp read_hhp : ℕ) (ctrl : TxCalypte)
        → d ≤ n
        → read_hdp % 2 ^ k ≡ (ctrl.hdp + d) % 2 ^ k
        → Bytes n ctrl.sdp ctrl
        → Bytes (n - d) ctrl.sdp (ndp_ctrl_calypte_tx_get_hwptr read_hdp read_hhp ctrl)
    unfolding ndp_ctrl_calypte_tx_get_hwptr
    get_hwptr-Bytes n d read_hdp read_hhp ctrl le at (mask, in_ring, ahead, free, aligned) =
        let less : d < 2 ^ k = omega (arith, free) in
        let hdp : bit_and read_hdp ctrl.mdp ≡ (ctrl.hdp + d) % 2 ^ k =
          ap (λ m. bit_and read_hdp m) mask ∙ and-low_mask read_hdp k ∙ at in
        let moved : gap ctrl.mdp (bit_and read_hdp ctrl.mdp) ctrl.hdp ≡ d =
          ap (λ q. gap ctrl.mdp q ctrl.hdp) hdp
          ∙ ap (λ m. gap m ((ctrl.hdp + d) % 2 ^ k) ctrl.hdp) mask
          ∙ masked_word k 32 (omega arith) ((ctrl.hdp + d) % 2 ^ k + 2 ^ 32 - ctrl.hdp)
          ∙ advance k 32 (omega arith) ctrl.hdp d (omega (arith, small)) less in
        (
          mask,
          omega (arith, hdp, mod-lt (ctrl.hdp + d) {m = 2 ^ k} slots),
          ahead
              ∙ ap (λ x. x % 2 ^ k) {x = ctrl.hdp + n} {y = ctrl.hdp + d + (n - d)} (omega arith)
              ∙ sym (mod-add-mod (ctrl.hdp + d) (2 ^ k) (n - d))
              ∙ ap (λ q. (q + (n - d)) % 2 ^ k) (sym hdp),
          omega (arith, moved, free, small),
          aligned,
        )

    -- Let the bytes in flight and the free ones of a queue be all but one, in whole blocks of 32, and let the packets of
    -- the headers up to `ptr` take no more than the free bytes. After their pointer was taken and the card's data pointer
    -- then read `d` bytes on, up to what is in flight, the bytes in flight are more by those of the packets and less by
    -- `d`, and with the free ones they are again all but one; the card was told of both pointers.
    pub exchange-Bytes :
        (n d ptr read_hdp read_hhp : ℕ) (ctrl : TxCalypte)
        → Bytes n ctrl.sdp ctrl
        → bytes_of ctrl.mhp ctrl.shp (gap ctrl.mhp (ptr % 2 ^ 32) ctrl.shp) 0 ≤ ctrl.free_bytes
        → d ≤ n + bytes_of ctrl.mhp ctrl.shp (gap ctrl.mhp (ptr % 2 ^ 32) ctrl.shp) 0
        → read_hdp % 2 ^ k ≡ (ctrl.hdp + d) % 2 ^ k
        → let sent = ndp_ctrl_calypte_tx_set_swptr frame_len ptr ctrl in
          let after = ndp_ctrl_calypte_tx_get_hwptr read_hdp read_hhp sent in
          Bytes
            (n + bytes_of ctrl.mhp ctrl.shp (gap ctrl.mhp (ptr % 2 ^ 32) ctrl.shp) 0 - d)
            after.sdp
            after
          × (after.sp_register ≡ (after.sdp, ptr % 2 ^ 32))
    unfolding ndp_ctrl_calypte_tx_set_swptr ndp_ctrl_calypte_tx_get_hwptr
    exchange-Bytes n d ptr read_hdp read_hhp ctrl b room le at =
        let count = gap ctrl.mhp (ptr % 2 ^ 32) ctrl.shp in
        (
          get_hwptr-Bytes (n + bytes_of ctrl.mhp ctrl.shp count 0) d read_hdp read_hhp
              (ndp_ctrl_calypte_tx_set_swptr frame_len ptr ctrl) le
              (at ∙ ap (λ q. (q + d) % 2 ^ k) (sym (take_rounds_hdp count 0 ctrl.sdp ctrl)))
              (take_rounds-Bytes count n 0 ctrl.sdp ctrl room b),
          refl,
        )
