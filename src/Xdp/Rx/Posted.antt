-- ===== src/Xdp/Rx/Posted.antt =====
-- Empty buffers on their way through a receive queue (ctrl_xdp_pp.c, ctrl_xdp_xsk.c): the descriptors that
-- the card has still to read name exactly the buffers in the last slots of the header ring.
use ndk_sw_bachelor_thesis.Common.{
  append_assoc, ℕ, suc, ◌+◌, ◌-◌, ◌%◌, ◌^◌, ◌<◌, ◌≤◌, ◌≡◌, ◌≢◌, refl, ap, sym, ◌∙◌, Bool, true,
  false, Option, none, some, List, [], ◌∷◌, ◌++◌, ◌==◌, arith, inl, inr, Bool-cases,
}
use ndk_sw_bachelor_thesis.Common.Bits.{low_mask}
use ndk_sw_bachelor_thesis.Xdp.Tx.{put, next_slot, upper_addr}
use ndk_sw_bachelor_thesis.Xdp.Tx.Decode.{upper_round}
use ndk_sw_bachelor_thesis.Xdp.Tx.Pending.{
  sent, sent_one_more, one_written, append_nil, next_slot_lem,
}
use ndk_sw_bachelor_thesis.Xdp.Rx.{
  RxCtrl, nc_ndp_rx_desc0, nc_ndp_rx_desc2, set_upper, post_rest, post,
}
use ndk_sw_bachelor_thesis.Xdp.Rx.Headers.{Taken, waiting, waiting_one_more}

module _ (k h : ℕ) (dma : ℕ → ℕ) (frame_len : ℕ) where
  -- What the descriptors of these buffers tell the card.
  abbrev pub targets : List ℕ → List (ℕ × ℕ)
  targets [] = []
  targets (b ∷ bs) = (dma b, frame_len) ∷ targets bs

  -- `n` descriptors, which the card reads with the upper bits `upper`, name the buffers `fresh`; the `m`
  -- slots of the header ring hold the buffers `filled`, which the card has read, and then these.
  pub record Posted (n m upper : ℕ) (filled fresh : List ℕ) (ctrl : RxCtrl) : Type 0 where
    pub headers : Taken h m ctrl
    pub mask : ctrl.mdp ≡ low_mask k
    pub some_free : n < 2 ^ k
    pub in_ring : ctrl.hdp < 2 ^ k
    pub ahead : ctrl.sdp ≡ (ctrl.hdp + n) % 2 ^ k
    pub named : sent k ctrl.descs n ctrl.hdp upper ≡ (ctrl.last_upper_addr, targets fresh)
    pub held : waiting h ctrl.xdp_ring m ctrl.shp ≡ filled ++ fresh

  targets-append :
      (bs : List ℕ) (b : ℕ) → targets bs ++ ((dma b, frame_len) ∷ []) ≡ targets (bs ++ (b ∷ []))
  targets-append [] b = refl
  targets-append (x ∷ bs) b = ap (λ l. (dma x, frame_len) ∷ l) (targets-append bs b)

  module _ (fits : k ≤ 32) (fits' : h ≤ 32) where
    -- The upper bits are the buffer's, with this many descriptors left.
    abbrev Ready : ℕ → ℕ → ℕ → ℕ → List ℕ → List ℕ → RxCtrl → Option (ℕ × RxCtrl) → Type 0
    Ready at free m upper filled fresh before none = free ≡ 0
    Ready at free m upper filled fresh before (some (free', ready)) =
        (ready.last_upper_addr ≡ at)
        × ((n : ℕ) × (free' + n + 1 ≡ 2 ^ k) × Posted n m upper filled fresh ready)

    set_upper-Ready :
        (n m upper a free : ℕ) (filled fresh : List ℕ) (ctrl : RxCtrl)
        → a < 2 ^ 64
        → free + n + 1 ≡ 2 ^ k
        → Posted n m upper filled fresh ctrl
        → Ready (upper_addr a) free m upper filled fresh ctrl (set_upper a free ctrl)
    unfolding set_upper
    set_upper-Ready n m upper a free filled fresh ctrl ha count p =
        elim (Bool-cases (upper_addr a == ctrl.last_upper_addr)) [
          | inl same ↦ rw (same, set_upper) (ground arith, (n, count, p))
          | inr new ↦ elim (Bool-cases (free == 0)) [
            | inl full ↦ rw (new, full, set_upper) (ground arith)
            | inr room ↦
                let written =
                  sent_one_more k n ctrl.hdp upper ctrl.last_upper_addr (targets fresh)
                    (nc_ndp_rx_desc0 a) ctrl.descs p.in_ring p.some_free p.named in
                rw (new, room, set_upper)
                  (
                    refl,
                    (
                      suc n,
                      ground (arith, count),
                      record {
                        headers = p.headers;
                        mask = p.mask;
                        some_free = ground (arith, count);
                        in_ring = p.in_ring;
                        ahead = rw (p.mask, p.ahead) (next_slot_lem k fits ctrl.hdp n);
                        named =
                            ap
                              (λ s.
                                sent k (put s (nc_ndp_rx_desc0 a) ctrl.descs) (suc n) ctrl.hdp
                                  upper)
                              p.ahead
                            ∙ written
                            ∙ rw (upper_round a ha, append_nil (targets fresh)) refl;
                        held = p.held;
                      },
                    ),
                  )
          ]
        ]

    -- One round handed the buffer over as the last one, or broke off with it in hand.
    abbrev pub Round : ℕ → ℕ → ℕ → List ℕ → List ℕ → Bool × ℕ × RxCtrl → Type 0
    Round buffer m upper filled fresh (true, free', after) =
        (n : ℕ) × (free' + n + 1 ≡ 2 ^ k)
        × Posted n (suc m) upper filled (fresh ++ (buffer ∷ [])) after
    Round buffer m upper filled fresh (false, free', after) =
        (n : ℕ) × Posted n m upper filled fresh after

    written :
        (n m upper free buffer : ℕ) (filled fresh : List ℕ) (ctrl : RxCtrl)
        → dma buffer < 2 ^ 64
        → frame_len < 2 ^ 16
        → m + 1 < 2 ^ h
        → ctrl.last_upper_addr ≡ upper_addr (dma buffer)
        → free ≢ 0
        → free + n + 1 ≡ 2 ^ k
        → Posted n m upper filled fresh ctrl
        → Posted (suc n) (suc m) upper filled (fresh ++ (buffer ∷ [])) (record ctrl {
          xdp_ring = put ctrl.php buffer ctrl.xdp_ring;
          descs = put ctrl.sdp (nc_ndp_rx_desc2 (dma buffer) frame_len 0) ctrl.descs;
          sdp = next_slot ctrl.mdp ctrl.sdp;
          php = next_slot ctrl.mhp ctrl.php;
        })
    written n m upper free buffer filled fresh ctrl ha hl room at ne count p = record {
      headers = (
        p.headers.0,
        omega arith,
        p.headers.2,
        rw (p.headers.0, p.headers.3) (next_slot_lem h fits' ctrl.shp m),
      );
      mask = p.mask;
      some_free = omega (arith, count, ne);
      in_ring = p.in_ring;
      ahead = rw (p.mask, p.ahead) (next_slot_lem k fits ctrl.hdp n);
      named =
          ap
            (λ s.
              sent k (put s (nc_ndp_rx_desc2 (dma buffer) frame_len 0) ctrl.descs) (suc n) ctrl.hdp
                upper)
            p.ahead
          ∙ one_written k fits n ctrl.hdp upper (targets fresh) ctrl.descs (dma buffer) frame_len
              p.in_ring p.some_free hl (p.named ∙ ap (λ u. (u, targets fresh)) at)
          ∙ ap (λ u. (u, targets fresh ++ ((dma buffer, frame_len) ∷ []))) (sym at)
          ∙ ap (λ l. (ctrl.last_upper_addr, l)) (targets-append fresh buffer);
      held =
          ap (λ s. waiting h (put s buffer ctrl.xdp_ring) (suc m) ctrl.shp) p.headers.3
          ∙ waiting_one_more h m ctrl.shp buffer ctrl.xdp_ring p.headers.2 p.headers.1
          ∙ ap (λ l. l ++ (buffer ∷ [])) p.held
          ∙ append_assoc filled fresh (buffer ∷ []);
    }

    post_rest-Round :
        (n m upper free buffer : ℕ) (filled fresh : List ℕ) (ctrl : RxCtrl)
        (set : Option (ℕ × RxCtrl))
        → dma buffer < 2 ^ 64
        → frame_len < 2 ^ 16
        → m + 1 < 2 ^ h
        → Posted n m upper filled fresh ctrl
        → Ready (upper_addr (dma buffer)) free m upper filled fresh ctrl set
        → Round buffer m upper filled fresh (post_rest (dma buffer) frame_len buffer ctrl set)
    unfolding post_rest
    post_rest-Round n m upper free buffer filled fresh ctrl none ha hl room p none_free = (n, p)
    post_rest-Round n m upper free buffer filled fresh ctrl (some (free', ready)) ha hl room p
          (at, (n', count, q)) =
        elim (Bool-cases (free' == 0)) [
          | inl full ↦ rw (full, post_rest) (n', q)
          | inr left ↦
              let next : free' - 1 + suc n' + 1 ≡ 2 ^ k = ground (arith, count) in
              rw (left, post_rest)
                (
                  suc n',
                  next,
                  written n' m upper free' buffer filled fresh ready ha hl room at (ground arith)
                      count q,
                )
        ]

    pub post-Round :
        (n m upper free buffer : ℕ) (filled fresh : List ℕ) (ctrl : RxCtrl)
        → dma buffer < 2 ^ 64
        → frame_len < 2 ^ 16
        → m + 1 < 2 ^ h
        → free + n + 1 ≡ 2 ^ k
        → Posted n m upper filled fresh ctrl
        → Round buffer m upper filled fresh (post (dma buffer) frame_len buffer free ctrl)
    post-Round n m upper free buffer filled fresh ctrl ha hl room count p =
        post_rest-Round n m upper free buffer filled fresh ctrl (set_upper (dma buffer) free ctrl)
          ha hl room p (set_upper-Ready n m upper (dma buffer) free filled fresh ctrl ha count p)
