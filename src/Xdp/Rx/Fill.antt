-- ===== src/Xdp/Rx/Fill.antt =====
-- The fill functions of both modes (ctrl_xdp_pp.c, ctrl_xdp_xsk.c): every buffer that a call gets is handed
-- to the card, in order, or given back.
use ndk_sw_bachelor_thesis.Common.{
  append_assoc, ℕ, zero, suc, ◌+◌, ◌^◌, ◌<◌, ◌≤◌, ◌≡◌, refl, ap, subst, Bool, true, false, ◌||◌,
  Option, some, List, [], ◌∷◌, ◌++◌, ltb, if◌then◌else◌, length, arith, ◌⊎◌, inl, inr, Bool-cases,
  Option-cases,
}
use ndk_sw_bachelor_thesis.Xdp.Tx.{free_slots}
use ndk_sw_bachelor_thesis.Xdp.Tx.Pending.{free_slots_lem}
use ndk_sw_bachelor_thesis.Xdp.Rx.{
  RxCtrl, batch_size, post, Filled, fill_pages, fill_batch, nfb_xctrl_rx_fill_pp,
  nfb_xctrl_rx_fill_xsk,
}
use ndk_sw_bachelor_thesis.Xdp.Rx.Posted.{Posted, Round, post-Round}

snoc_nil : (l : List ℕ) → l ++ [] ≡ l
snoc_nil [] = refl
snoc_nil (x ∷ l) = ap (λ r. x ∷ r) (snoc_nil l)

-- Addresses of 64 bits.
abbrev pub Mapped : (ℕ → ℕ) → List ℕ → Type 0
Mapped dma [] = Unit {0}
Mapped dma (b ∷ bs) = (dma b < 2 ^ 64) × Mapped dma bs

-- The page pool's answers from the `i`-th one on are these pages.
abbrev pub Answers : (ℕ → Option ℕ) → ℕ → List ℕ → Type 0
Answers pages i [] = Unit {0}
Answers pages i (b ∷ bs) = (pages i ≡ some b) × Answers pages (i + 1) bs

module _ (k h : ℕ) (dma : ℕ → ℕ) (frame_len : ℕ) where
  -- The buffers `added` follow those that the card had already.
  abbrev pub Extended : ℕ → ℕ → List ℕ → List ℕ → List ℕ → RxCtrl → Type 0
  Extended m upper filled fresh added after =
      (n : ℕ) × Posted k h dma frame_len n (m + length added) upper filled (fresh ++ added) after

  Extended-nil :
      (n m upper : ℕ) (filled fresh : List ℕ) (ctrl : RxCtrl)
      → Posted k h dma frame_len n m upper filled fresh ctrl
      → Extended m upper filled fresh [] ctrl
  Extended-nil n m upper filled fresh ctrl p =
      let same : m ≡ m + 0 = omega arith in
      (
        n,
        rw (snoc_nil fresh)
            (subst (λ x. Posted k h dma frame_len n x upper filled fresh ctrl) same p),
      )

  Extended-cons :
      (m upper buffer : ℕ) (filled fresh added : List ℕ) (ctrl : RxCtrl)
      → Extended (suc m) upper filled (fresh ++ (buffer ∷ [])) added ctrl
      → Extended m upper filled fresh (buffer ∷ added) ctrl
  Extended-cons m upper buffer filled fresh added ctrl (n, p) =
      let count : suc m + length added ≡ m + suc (length added) = omega arith in
      let order = append_assoc fresh (buffer ∷ []) added in
      (
        n,
        subst (λ l. Posted k h dma frame_len n (m + suc (length added)) upper filled l ctrl) order
            (subst
              (λ x.
                Posted k h dma frame_len n x upper filled ((fresh ++ (buffer ∷ [])) ++ added) ctrl)
              count p),
      )

  -- All that a batch delivers: first what is handed over, then what is given back.
  abbrev pub Split : ℕ → ℕ → List ℕ → List ℕ → List ℕ → Filled → Type 0
  Split m upper filled fresh batch result =
      (added : List ℕ) × (added ++ result.1 ≡ batch)
      × Extended m upper filled fresh added (result.2)

  module _ (fits : k ≤ 32) (fits' : h ≤ 32) (short : frame_len < 2 ^ 16) where
    fill_batch-Split :
        (batch : List ℕ) (n m upper free : ℕ) (filled fresh : List ℕ) (ctrl : RxCtrl)
        → Mapped dma batch
        → m + length batch < 2 ^ h
        → free + n + 1 ≡ 2 ^ k
        → Posted k h dma frame_len n m upper filled fresh ctrl
        → Split m upper filled fresh batch (fill_batch dma frame_len batch free ctrl)
    unfolding fill_batch
    fill_batch-Split [] n m upper free filled fresh ctrl mapped room count p =
        ([], refl, Extended-nil n m upper filled fresh ctrl p)
    fill_batch-Split (b ∷ bs) n m upper free filled fresh ctrl (at, mapped) room count p =
        step (post (dma b) frame_len b free ctrl)
          (post-Round k h dma frame_len fits fits' n m upper free b filled fresh ctrl at short
            (omega arith) count p)
          (λ n' more count'.
            fill_batch-Split bs n' (suc m) upper (post (dma b) frame_len b free ctrl).1 filled
              (fresh ++ (b ∷ [])) (post (dma b) frame_len b free ctrl).2 mapped (omega arith) count'
              more)
      where
        step :
            (posted : Bool × ℕ × RxCtrl)
            → Round k h dma frame_len fits fits' b m upper filled fresh posted
            → ((n' : ℕ)
                → Posted k h dma frame_len n' (suc m) upper filled (fresh ++ (b ∷ [])) posted.2
                → posted.1 + n' + 1 ≡ 2 ^ k
                → Split
                    (suc m)
                    upper
                    filled
                    (fresh ++ (b ∷ []))
                    bs
                    (fill_batch dma frame_len bs posted.1 posted.2))
            → Split m upper filled fresh (b ∷ bs) (
                let (count, freed, after) = fill_batch dma frame_len bs posted.1 posted.2 in
                if posted.0 then (count + 1, freed, after) else (length bs + 1, b ∷ bs, posted.2))
        step (true, free', after) (n', count', more) later =
            let (added, parts, extended) = later n' more count' in
            (
              b ∷ added,
              ap (λ l. b ∷ l) parts,
              Extended-cons m upper b filled fresh added _ extended,
            )
        step (false, free', after) (n', q) later =
            ([], refl, Extended-nil n' m upper filled fresh after q)

    abbrev few : ℕ → RxCtrl → Bool
    few hdp' ctrl =
        ltb (free_slots ctrl.mhp ctrl.shp ctrl.php) batch_size
        || ltb (free_slots ctrl.mdp hdp' ctrl.sdp) batch_size

    -- What the test at the head of both functions leaves room for.
    room_left :
        (hdp' n m upper : ℕ) (filled fresh : List ℕ) (ctrl : RxCtrl)
        → few hdp' ctrl ≡ false
        → Posted k h dma frame_len n m upper filled fresh (record ctrl { hdp = hdp' })
        → (m + batch_size < 2 ^ h) × (free_slots ctrl.mdp hdp' ctrl.sdp + n + 1 ≡ 2 ^ k)
    room_left hdp' n m upper filled fresh ctrl enough p =
        let headers : free_slots ctrl.mhp ctrl.shp ctrl.php + m + 1 ≡ 2 ^ h =
          rw (p.headers.0, p.headers.3)
            (free_slots_lem h fits' ctrl.shp m p.headers.2 p.headers.1) in
        let descs : free_slots ctrl.mdp hdp' ctrl.sdp + n + 1 ≡ 2 ^ k =
          rw (p.mask, p.ahead) (free_slots_lem k fits hdp' n p.in_ring p.some_free) in
        (ground (arith, headers), descs)

    -- `nfb_xctrl_rx_fill_xsk` for a batch of 64 buffers at most, mapped to 64 bits: each buffer of the batch is
    -- handed to the card behind those that it had, in the batch's order, or given back, and the descriptors
    -- that the card has still to read go on naming the buffers in the header ring.
    pub fill_xsk-Split :
        (batch : List ℕ) (hdp' n m upper : ℕ) (filled fresh : List ℕ) (ctrl : RxCtrl)
        → Mapped dma batch
        → length batch ≤ batch_size
        → Posted k h dma frame_len n m upper filled fresh (record ctrl { hdp = hdp' })
        → let result = nfb_xctrl_rx_fill_xsk dma frame_len batch hdp' ctrl in
          Split m upper filled fresh batch result
          ⊎ ((result.0 ≡ 0) × (result.2 ≡ record ctrl { hdp = hdp' }))
    unfolding nfb_xctrl_rx_fill_xsk
    fill_xsk-Split batch hdp' n m upper filled fresh ctrl mapped small p =
        elim (Bool-cases (few hdp' ctrl)) [
          | inl less ↦ rw (less, nfb_xctrl_rx_fill_xsk) (inr (refl, refl))
          | inr enough ↦
              let room = room_left hdp' n m upper filled fresh ctrl enough p in
              rw (enough, nfb_xctrl_rx_fill_xsk)
                (inl (
                  fill_batch-Split batch n m upper (free_slots ctrl.mdp hdp' ctrl.sdp) filled fresh
                    (record ctrl { hdp = hdp' }) mapped (omega (arith, room.0)) room.1 p))
        ]

    -- What the page pool delivered to a call: first what is handed over, then what is given back.
    abbrev pub Drawn : ℕ → ℕ → List ℕ → List ℕ → (ℕ → Option ℕ) → ℕ → Filled → Type 0
    Drawn m upper filled fresh pages i result =
        (added : List ℕ) × (result.0 ≡ i + length added)
        × Answers pages i (added ++ result.1)
        × Extended m upper filled fresh added (result.2)

    fill_pages-Drawn :
        (pages : ℕ → Option ℕ) (rounds i n m upper free : ℕ) (filled fresh : List ℕ) (ctrl : RxCtrl)
        → ((j page : ℕ) → pages j ≡ some page → dma page < 2 ^ 64)
        → m + rounds < 2 ^ h
        → free + n + 1 ≡ 2 ^ k
        → Posted k h dma frame_len n m upper filled fresh ctrl
        → Drawn m upper filled fresh pages i (fill_pages dma frame_len pages rounds i free ctrl)
    unfolding fill_pages
    fill_pages-Drawn pages zero i n m upper free filled fresh ctrl mapped room count p =
        ([], omega arith, tt, Extended-nil n m upper filled fresh ctrl p)
    fill_pages-Drawn pages (suc rounds) i n m upper free filled fresh ctrl mapped room count p =
        elim (Option-cases (pages i)) [
          | inl e ↦
              rw (e, fill_pages) ([], omega arith, tt, Extended-nil n m upper filled fresh ctrl p)
          | inr (page, e) ↦
              let posted = post (dma page) frame_len page free ctrl in
              rw (e, fill_pages)
                (step page e posted
                  (post-Round k h dma frame_len fits fits' n m upper free page filled fresh ctrl
                    (mapped i page e) short (omega arith) count p)
                  (λ n' more count'.
                    fill_pages-Drawn pages rounds (i + 1) n' (suc m) upper posted.1 filled
                      (fresh ++ (page ∷ [])) posted.2 mapped (omega arith) count' more))
        ]
      where
        step :
            (page : ℕ) (e : pages i ≡ some page) (posted : Bool × ℕ × RxCtrl)
            → Round k h dma frame_len fits fits' page m upper filled fresh posted
            → ((n' : ℕ)
                → Posted k h dma frame_len n' (suc m) upper filled (fresh ++ (page ∷ [])) posted.2
                → posted.1 + n' + 1 ≡ 2 ^ k
                → Drawn
                    (suc m)
                    upper
                    filled
                    (fresh ++ (page ∷ []))
                    pages
                    (i + 1)
                    (fill_pages dma frame_len pages rounds (i + 1) posted.1 posted.2))
            → Drawn m upper filled fresh pages i (
                if posted.0
                then fill_pages dma frame_len pages rounds (i + 1) posted.1 posted.2
                else (i, page ∷ [], posted.2))
        step page e (true, free', after) (n', count', more) later =
            let (added, counted, answers, extended) = later n' more count' in
            (
              page ∷ added,
              omega (arith, counted),
              (e, answers),
              Extended-cons m upper page filled fresh added _ extended,
            )
        step page e (false, free', after) (n', q) later =
            ([], omega arith, (e, tt), Extended-nil n' m upper filled fresh after q)

    -- `nfb_xctrl_rx_fill_pp` for pages mapped to 64 bits: the pages that the pool delivers are handed to the card
    -- behind the buffers that it had, in order, as many as the returned number says, the next one may be
    -- given back, and the descriptors go on naming the buffers in the header ring.
    pub fill_pp-Drawn :
        (pages : ℕ → Option ℕ) (hdp' n m upper : ℕ) (filled fresh : List ℕ) (ctrl : RxCtrl)
        → ((j page : ℕ) → pages j ≡ some page → dma page < 2 ^ 64)
        → Posted k h dma frame_len n m upper filled fresh (record ctrl { hdp = hdp' })
        → Drawn m upper filled fresh pages 0 (nfb_xctrl_rx_fill_pp dma frame_len pages hdp' ctrl)
    unfolding nfb_xctrl_rx_fill_pp
    fill_pp-Drawn pages hdp' n m upper filled fresh ctrl mapped p =
        elim (Bool-cases (few hdp' ctrl)) [
          | inl less ↦
              rw (less, nfb_xctrl_rx_fill_pp)
                ([], refl, tt, Extended-nil n m upper filled fresh _ p)
          | inr enough ↦
              let room = room_left hdp' n m upper filled fresh ctrl enough p in
              rw (enough, nfb_xctrl_rx_fill_pp)
                (fill_pages-Drawn pages batch_size 0 n m upper (free_slots ctrl.mdp hdp' ctrl.sdp)
                  filled fresh (record ctrl { hdp = hdp' }) mapped room.0 room.1 p)
        ]
