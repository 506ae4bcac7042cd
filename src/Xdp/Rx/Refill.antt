-- ===== src/Xdp/Rx/Refill.antt =====
-- The refill loops of the XDP driver's receive queues (ctrl_xdp_pp.c, ctrl_xdp_xsk.c) end.
use ndk_sw_bachelor_thesis.Common.{
  ℕ, zero, suc, ◌+◌, ◌^◌, ◌<◌, ◌≤◌, ◌≡◌, ◌≢◌, refl, ap, ◌∙◌, Bool, true, false, ◌||◌, Option, none,
  some, List, [], ◌∷◌, ◌++◌, ◌==◌, ltb, if◌then◌else◌, length, arith, inl, inr, Bool-cases,
  Option-cases,
}
use ndk_sw_bachelor_thesis.Xdp.Tx.{free_slots}
use ndk_sw_bachelor_thesis.Xdp.Tx.Pending.{free_slots_lem}
use ndk_sw_bachelor_thesis.Xdp.Rx.{
  RxCtrl, batch_size, set_upper, post_rest, post, Filled, fill_pages, fill_batch,
  nfb_xctrl_rx_fill_pp, nfb_xctrl_rx_fill_xsk, refill,
}
use ndk_sw_bachelor_thesis.Xdp.Rx.Headers.{Taken, post-Taken}

-- A call took `m - n` header slots, and at least one if the number that it returns is not 0.
abbrev pub Grown : ℕ → ℕ → Filled → Type 0
Grown h n (count, freed, after) = (m : ℕ) × Taken h m after × (n ≤ m) × (count ≢ 0 → n < m)

-- The loop came to its end, with no fewer slots taken than before.
abbrev pub Ended : ℕ → ℕ → Option (List ℕ × RxCtrl) → Type 0
Ended h n none = false ≡ true
Ended h n (some (freed, after)) = (m : ℕ) × Taken h m after × (n ≤ m)

Ended-later :
    (h n m : ℕ) (freed : List ℕ) (rest : Option (List ℕ × RxCtrl))
    → n ≤ m
    → Ended h m rest
    → Ended h n (elim rest [ none ↦ none | some (later, last) ↦ some (freed ++ later, last) ])
Ended-later h n m freed none le e = e
Ended-later h n m freed (some (later, last)) le (x, taken, le') = (x, taken, omega arith)

-- With two free descriptors a round does not break off.
post_fits :
    (dma frame_len buffer free : ℕ) (ctrl : RxCtrl)
    → 2 ≤ free
    → (post dma frame_len buffer free ctrl).0 ≡ true
unfolding set_upper post_rest
post_fits dma frame_len buffer free ctrl enough = ground arith

module _ (h : ℕ) (fits : h ≤ 32) (dma : ℕ → ℕ) (frame_len : ℕ) where
  -- What one more round adds to a call.
  one_round :
      (n : ℕ) (posted : Bool) (freed : List ℕ) (ctrl : RxCtrl) (i : ℕ) (rest : Filled)
      → Taken h (if posted then suc n else n) ctrl
      → (Taken h (suc n) ctrl → (c : ℕ) × (rest.0 ≡ i + 1 + c) × Taken h (suc n + c) rest.2)
      → let result = if posted then rest else (i, freed, ctrl) in
        (c : ℕ) × (result.0 ≡ i + c) × Taken h (n + c) result.2
  one_round n true freed ctrl i rest taken later =
      let (c, count, more) = later taken in
      let e : suc n + c ≡ n + suc c = omega arith in (suc c, omega (arith, count), rw (← e) more)
  one_round n false freed ctrl i rest taken later =
      let e : n ≡ n + 0 = omega arith in (0, omega arith, rw (← e) taken)

  fill_pages-Taken :
      (pages : ℕ → Option ℕ) (rounds i free n : ℕ) (ctrl : RxCtrl)
      → Taken h n ctrl
      → n + rounds < 2 ^ h
      → let result = fill_pages dma frame_len pages rounds i free ctrl in
        (c : ℕ) × (result.0 ≡ i + c) × Taken h (n + c) result.2
  unfolding fill_pages
  fill_pages-Taken pages zero i free n ctrl taken room =
      let e : n ≡ n + 0 = omega arith in (0, omega arith, rw (← e) taken)
  fill_pages-Taken pages (suc rounds) i free n ctrl taken room = elim (Option-cases (pages i)) [
    | inl e ↦ let z : n ≡ n + 0 = omega arith in rw (e, fill_pages) (0, omega arith, rw (← z) taken)
    | inr (page, e) ↦
        rw (e, fill_pages)
          (one_round n (post (dma page) frame_len page free ctrl).0 (page ∷ [])
            (post (dma page) frame_len page free ctrl).2 i _
            (post-Taken h n (dma page) frame_len page free ctrl fits taken (omega arith))
            (λ more.
              fill_pages-Taken pages rounds (i + 1) (post (dma page) frame_len page free ctrl).1
                (suc n) (post (dma page) frame_len page free ctrl).2 more (omega arith)))
  ]

  -- The batch of AF_XDP buffers: all are counted, and `c` of them are handed over.
  abbrev Batched : ℕ → List ℕ → ℕ → Filled → Type 0
  Batched n batch free result =
      (result.0 ≡ length batch)
      × ((c : ℕ) × Taken h (n + c) result.2 × (2 ≤ free → batch ≢ [] → 0 < c))

  fill_batch-Batched :
      (batch : List ℕ) (free n : ℕ) (ctrl : RxCtrl)
      → Taken h n ctrl
      → n + length batch < 2 ^ h
      → Batched n batch free (fill_batch dma frame_len batch free ctrl)
  unfolding fill_batch
  fill_batch-Batched [] free n ctrl taken room =
      let e : n ≡ n + 0 = omega arith in (refl, (0, rw (← e) taken, λ f ne. absurd (ne refl)))
  fill_batch-Batched (b ∷ bs) free n ctrl taken room =
      step (post (dma b) frame_len b free ctrl)
        (post-Taken h n (dma b) frame_len b free ctrl fits taken (omega arith))
        (post_fits (dma b) frame_len b free ctrl)
        (λ more.
          fill_batch-Batched bs (post (dma b) frame_len b free ctrl).1 (suc n)
            (post (dma b) frame_len b free ctrl).2 more (omega arith))
    where
      step :
          (posted : Bool × ℕ × RxCtrl)
          → Taken h (if posted.0 then suc n else n) posted.2
          → (2 ≤ free → posted.0 ≡ true)
          → (Taken h (suc n) posted.2
              → Batched (suc n) bs posted.1 (fill_batch dma frame_len bs posted.1 posted.2))
          → Batched n (b ∷ bs) free (
              let (count, freed, after) = fill_batch dma frame_len bs posted.1 posted.2 in
              if posted.0 then (count + 1, freed, after) else (length bs + 1, b ∷ bs, posted.2))
      step (true, free', after) taken' fits' later =
          let (count, (c, more, first)) = later taken' in
          let e : suc n + c ≡ n + suc c = omega arith in
          (omega (arith, count), (suc c, rw (← e) more, λ f ne. omega arith))
      step (false, free', after) taken' fits' later =
          let e : n ≡ n + 0 = omega arith in
          (omega arith, (0, rw (← e) taken', λ f ne. absurd (ground (arith, fits' f))))

  abbrev few_headers : ℕ → RxCtrl → Bool
  few_headers hdp' ctrl =
      ltb (free_slots ctrl.mhp ctrl.shp ctrl.php) batch_size
      || ltb (free_slots ctrl.mdp hdp' ctrl.sdp) batch_size

  -- What the test at the head of both functions leaves room for.
  room_left :
      (hdp' n : ℕ) (ctrl : RxCtrl)
      → Taken h n ctrl
      → few_headers hdp' ctrl ≡ false
      → (n + batch_size < 2 ^ h) × (2 ≤ free_slots ctrl.mdp hdp' ctrl.sdp)
  room_left hdp' n ctrl (mask, hn, hs, at) enough =
      let free : free_slots ctrl.mhp ctrl.shp ctrl.php + n + 1 ≡ 2 ^ h =
        rw (mask, at) (free_slots_lem h fits ctrl.shp n hs hn) in
      ground (arith, free)

  -- `nfb_xctrl_rx_fill_pp` on a ring of which `n` slots are taken.
  fill_pp-Grown :
      (pages : ℕ → Option ℕ) (hdp' n : ℕ) (ctrl : RxCtrl)
      → Taken h n ctrl
      → Grown h n (nfb_xctrl_rx_fill_pp dma frame_len pages hdp' ctrl)
  unfolding nfb_xctrl_rx_fill_pp
  fill_pp-Grown pages hdp' n ctrl taken = elim (Bool-cases (few_headers hdp' ctrl)) [
    | inl few ↦ rw (few, nfb_xctrl_rx_fill_pp) (n, taken, omega arith, λ ne. absurd (ne refl))
    | inr enough ↦
        let room = room_left hdp' n ctrl taken enough in
        let (c, count, more) =
          fill_pages-Taken pages batch_size 0 (free_slots ctrl.mdp hdp' ctrl.sdp) n
            (record ctrl { hdp = hdp' }) taken room.0 in
        rw (enough, nfb_xctrl_rx_fill_pp) (n + c, more, omega arith, λ ne. omega (arith, count))
  ]

  fill_xsk-Grown :
      (batch : List ℕ) (hdp' n : ℕ) (ctrl : RxCtrl)
      → length batch ≤ batch_size
      → Taken h n ctrl
      → Grown h n (nfb_xctrl_rx_fill_xsk dma frame_len batch hdp' ctrl)
  unfolding nfb_xctrl_rx_fill_xsk
  fill_xsk-Grown batch hdp' n ctrl small taken = elim (Bool-cases (few_headers hdp' ctrl)) [
    | inl few ↦ rw (few, nfb_xctrl_rx_fill_xsk) (n, taken, omega arith, λ ne. absurd (ne refl))
    | inr enough ↦
        let room = room_left hdp' n ctrl taken enough in
        let (count, (c, more, first)) =
          fill_batch-Batched batch (free_slots ctrl.mdp hdp' ctrl.sdp) n
            (record ctrl { hdp = hdp' }) taken (omega (arith, room.0)) in
        rw (enough, nfb_xctrl_rx_fill_xsk)
          (
            n + c,
            more,
            omega arith,
            λ ne. omega (arith, first room.1 (λ e. ne (count ∙ ap length e))),
          )
  ]

  -- A loop over calls that each take as many slots as they say ends.
  refill-Some :
      (fill : ℕ → RxCtrl → Filled)
      → ((j n : ℕ) (ctrl : RxCtrl) → Taken h n ctrl → Grown h n (fill j ctrl))
      → (fuel j n : ℕ) (ctrl : RxCtrl) → Taken h n ctrl
      → 2 ^ h ≤ fuel + n
      → Ended h n (refill fill fuel j ctrl)
  unfolding refill
  refill-Some fill grows zero j n ctrl taken enough = absurd (omega (arith, taken.1))
  refill-Some fill grows (suc fuel) j n ctrl taken enough =
      let (m, more, le, lt) = grows j n ctrl taken in
      elim (Bool-cases ((fill j ctrl).0 == 0)) [
        | inl done ↦ rw (done, refill) (m, more, le)
        | inr on ↦
            let bigger : n < m = lt (ground arith) in
            rw (on, refill)
              (Ended-later h n m (fill j ctrl).1 _ le
                (refill-Some fill grows fuel (j + 1) m (fill j ctrl).2 more (omega arith)))
      ]

  -- On a ring whose header slots number `2 ^ h`, with any of them taken, both loops
  -- `while (fill(ctrl)) ;` end within `2 ^ h` calls, whatever the card's pointer reads and the pools answer
  -- at each call, a batch being of 64 buffers at most; no slot that was taken is given up.
  pub refill-Ended :
      (pages : ℕ → ℕ → Option ℕ) (batches : ℕ → List ℕ) (hdps : ℕ → ℕ) (n : ℕ) (ctrl : RxCtrl)
      → ((j : ℕ) → length (batches j) ≤ batch_size)
      → Taken h n ctrl
      → Ended h n
          (refill (λ j. nfb_xctrl_rx_fill_pp dma frame_len (pages j) (hdps j)) (2 ^ h) 0 ctrl)
        × Ended h n
            (refill (λ j. nfb_xctrl_rx_fill_xsk dma frame_len (batches j) (hdps j)) (2 ^ h) 0 ctrl)
  refill-Ended pages batches hdps n ctrl small taken = (
    refill-Some _ (λ j m c t. fill_pp-Grown (pages j) (hdps j) m c t) (2 ^ h) 0 n ctrl taken
        (omega arith),
    refill-Some _ (λ j m c t. fill_xsk-Grown (batches j) (hdps j) m c (small j) t) (2 ^ h) 0 n ctrl
        taken (omega arith),
  )
