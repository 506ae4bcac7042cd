-- ===== src/Xdp/Rx.antt =====
-- Reception of the XDP driver, ctrl_xdp_pp.c and ctrl_xdp_xsk.c: handing empty buffers to the card and
-- taking filled ones. A buffer is an address; `dma` says where the card finds it, `frame_len` is how
-- much it may write. What the hardware's pointers read, and whether a buffer can be had, are arguments.
pub mod Headers
pub mod Refill
pub mod Posted
pub mod Fill
pub mod Receive
pub mod Verdict
pub mod Batch
pub mod Poll
mod Tests
use ndk_sw_bachelor_thesis.Common.{
  ℕ, zero, suc, ◌+◌, ◌-◌, ◌%◌, ◌^◌, min, bit_and, Bool, true, false, ◌||◌, ◌&&◌, not, Option, none,
  some, List, [], ◌∷◌, ◌++◌, ◌==◌, ltb, if◌then◌else◌, length,
}
use ndk_sw_bachelor_thesis.Xdp.Tx.{
  Desc, type2, nc_ndp_tx_desc0, upper_addr, put, next_slot, free_slots,
}

-- `struct xctrl` of a receive queue. `xdp_ring` holds a buffer for each slot of the header ring, `frame_lens`
-- the lengths in the card's headers.
pub record RxCtrl : Type 0 where
  pub last_upper_addr : ℕ
  pub mdp : ℕ
  pub sdp : ℕ
  pub hdp : ℕ
  pub mhp : ℕ
  pub shp : ℕ
  pub hhp : ℕ
  pub php : ℕ
  pub descs : ℕ → Desc
  pub xdp_ring : ℕ → ℕ
  pub frame_lens : ℕ → ℕ

abbrev pub nc_ndp_rx_desc0 : ℕ → Desc
nc_ndp_rx_desc0 phys = nc_ndp_tx_desc0 phys

abbrev pub nc_ndp_rx_desc2 : ℕ → ℕ → ℕ → Desc
nc_ndp_rx_desc2 phys len next = type2 (phys % 2 ^ 30) (len % 2 ^ 16) 0 next

-- `NFB_XDP_CTRL_PACKET_BURST`
abbrev pub batch_size : ℕ
batch_size = 64

-- The upper address bits, where they change: the free descriptors and the controller afterwards, `none`
-- for the first `break`. `sdp` and `php` of the record are the functions' local copies of them, which
-- every way out of the loop writes back.
unfoldable pub set_upper : ℕ → ℕ → RxCtrl → Option (ℕ × RxCtrl)
set_upper dma free ctrl =
    if upper_addr dma == ctrl.last_upper_addr
    then some (free, ctrl)
    else (if free == 0
        then none
        else some (
          free - 1,
          record ctrl {
            last_upper_addr = upper_addr dma;
            descs = put ctrl.sdp (nc_ndp_rx_desc0 dma) ctrl.descs;
            sdp = next_slot ctrl.mdp ctrl.sdp;
          },
        ))

-- The rest of one round: `false` is a `break`, before which the upper bits may have been written.
unfoldable pub post_rest : ℕ → ℕ → ℕ → RxCtrl → Option (ℕ × RxCtrl) → Bool × ℕ × RxCtrl
post_rest dma frame_len buffer ctrl none = (false, 0, ctrl)
post_rest dma frame_len buffer ctrl (some (free, ready)) =
    if free == 0 then (false, 0, ready) else (
      true,
      free - 1,
      record ready {
        xdp_ring = put ready.php buffer ready.xdp_ring;
        descs = put ready.sdp (nc_ndp_rx_desc2 dma frame_len 0) ready.descs;
        sdp = next_slot ready.mdp ready.sdp;
        php = next_slot ready.mhp ready.php;
      },
    )

abbrev pub post : ℕ → ℕ → ℕ → ℕ → RxCtrl → Bool × ℕ × RxCtrl
post dma frame_len buffer free ctrl = post_rest dma frame_len buffer ctrl (set_upper dma free ctrl)

-- How many buffers a call handed over, which it gave back, and the controller.
abbrev pub Filled : Type 0
Filled = ℕ × List ℕ × RxCtrl

module _ (dma : ℕ → ℕ) (frame_len : ℕ) where
  -- `for (i = …; i < batch_size; i++)` of `nfb_xctrl_rx_fill_pp` with `rounds` to go; `pages i` is what the
  -- page pool answers to the i-th request.
  unfoldable pub fill_pages : (ℕ → Option ℕ) → ℕ → ℕ → ℕ → RxCtrl → Filled
  unfolding set_upper post_rest
  fill_pages pages zero i free ctrl = (i, [], ctrl)
  fill_pages pages (suc rounds) i free ctrl = elim (pages i) [
    | none ↦ (i, [], ctrl)
    | some page ↦
        let (posted, free', ctrl') = post (dma page) frame_len page free ctrl in
        let rest = fill_pages pages rounds (i + 1) free' ctrl' in
        if posted then rest else (i, page ∷ [], ctrl')
  ]

  -- The argument in front of the controller is what `nc_ndp_ctrl_hdp_update` reads.
  unfoldable pub nfb_xctrl_rx_fill_pp : (ℕ → Option ℕ) → ℕ → RxCtrl → Filled
  nfb_xctrl_rx_fill_pp pages hdp' ctrl =
      let updated = record ctrl { hdp = hdp' } in
      let free_hdrs = free_slots ctrl.mhp ctrl.shp ctrl.php in
      let free_desc = free_slots ctrl.mdp hdp' ctrl.sdp in
      if ltb free_hdrs batch_size || ltb free_desc batch_size
      then (0, [], updated)
      else fill_pages pages batch_size 0 free_desc updated

  -- Both loops of `nfb_xctrl_rx_fill_xsk` over the buffers of one batch. The second one counts `i` up to
  -- the end, so that the number of all buffers is returned.
  unfoldable pub fill_batch : List ℕ → ℕ → RxCtrl → Filled
  unfolding set_upper post_rest
  fill_batch [] free ctrl = (0, [], ctrl)
  fill_batch (b ∷ bs) free ctrl =
      let (posted, free', ctrl') = post (dma b) frame_len b free ctrl in
      let (count, freed, after) = fill_batch bs free' ctrl' in
      if posted then (count + 1, freed, after) else (length bs + 1, b ∷ bs, ctrl')

  -- `batch` is what `xsk_buff_alloc_batch` delivers.
  unfoldable pub nfb_xctrl_rx_fill_xsk : List ℕ → ℕ → RxCtrl → Filled
  nfb_xctrl_rx_fill_xsk batch hdp' ctrl =
      let updated = record ctrl { hdp = hdp' } in
      let free_hdrs = free_slots ctrl.mhp ctrl.shp ctrl.php in
      let free_desc = free_slots ctrl.mdp hdp' ctrl.sdp in
      if ltb free_hdrs batch_size || ltb free_desc batch_size
      then (0, [], updated)
      else fill_batch batch free_desc updated

-- `while (fill(ctrl)) ;` on fuel, over any of the two fill functions; `j` counts the calls. The buffers
-- given back by all calls, and the controller; `none`: the fuel is used up.
unfoldable pub refill : (ℕ → RxCtrl → Filled) → ℕ → ℕ → RxCtrl → Option (List ℕ × RxCtrl)
refill fill zero j ctrl = none
refill fill (suc fuel) j ctrl =
    let (count, freed, after) = fill j ctrl in
    let rest = refill fill fuel (j + 1) after in
    if count == 0
    then some (freed, after)
    else elim rest [ none ↦ none | some (later, last) ↦ some (freed ++ later, last) ]

-- The loop over the ready headers: each buffer with the length from its header.
unfoldable pub take_ready : ℕ → RxCtrl → List (ℕ × ℕ) × RxCtrl
take_ready zero ctrl = ([], ctrl)
take_ready (suc n) ctrl =
    let (later, after) = take_ready n (record ctrl { shp = next_slot ctrl.mhp ctrl.shp }) in
    ((ctrl.xdp_ring ctrl.shp, ctrl.frame_lens ctrl.shp) ∷ later, after)

-- `nb_rx`, kept in 16 bits
abbrev pub ready_count : ℕ → RxCtrl → ℕ
ready_count nb_pkts ctrl =
    let ready = bit_and ((ctrl.hhp + 2 ^ 32 - ctrl.shp) % 2 ^ 32) ctrl.mhp % 2 ^ 16 in
    if ltb nb_pkts ready then nb_pkts else ready

-- The part of `nfb_xctrl_rx_pp` and `nfb_xctrl_rx_xsk` behind the refill; `hhp'` is what
-- `nc_ndp_ctrl_hhp_update` reads.
unfoldable pub receive : ℕ → ℕ → RxCtrl → List (ℕ × ℕ) × RxCtrl
unfolding take_ready
receive nb_pkts hhp' ctrl =
    let updated = record ctrl { hhp = hhp' } in take_ready (ready_count nb_pkts updated) updated
