-- ===== src/Xdp/Rx/Poll/Account.antt =====
-- The account of the buffers over a whole receive poll (ctrl_xdp_pp.c).
use ndk_sw_bachelor_thesis.Common.{
  ℕ, zero, suc, ◌+◌, ◌-◌, ◌%◌, ◌^◌, ◌<◌, ◌≤◌, ◌≡◌, refl, ap, Bool, true, false, Option, none, some,
  List, [], ◌∷◌, ◌==◌, ltb, if◌then◌else◌, length, bit_and, arith,
}
use ndk_sw_bachelor_thesis.Xdp.Tx.{Xctrl}
use ndk_sw_bachelor_thesis.Xdp.Rx.{
  RxCtrl, nfb_xctrl_rx_fill_pp, refill, receive, take_ready, ready_count,
}
use ndk_sw_bachelor_thesis.Xdp.Rx.Verdict.{Deed, nfb_xctrl_handle_pp}
use ndk_sw_bachelor_thesis.Xdp.Rx.Verdict.Ledger.{IsHandled, is_clean, handle_pp-IsHandled}
use ndk_sw_bachelor_thesis.Xdp.Rx.Headers.{Taken}
use ndk_sw_bachelor_thesis.Xdp.Rx.Refill.{Ended, refill-Ended}
use ndk_sw_bachelor_thesis.Xdp.Rx.Poll.{
  Given, Handler, Polled, handle_given, handle_each, handle_received, nfb_xctrl_napi_poll_pp,
}
use ndk_sw_bachelor_thesis.Xdp.Rx.Poll.Kept.{Sized, Kept, handle_pp-Kept, reclaimable}

-- One buffer was handled, disposed of once or not as the flag tells, and the ring is fit for the next one.
abbrev pub Handled : ℕ → Bool → Option (List Deed × Xctrl) → Type 0
Handled k clean none = false ≡ true
Handled k clean (some (deeds, after)) = (is_clean deeds ≡ clean) × Sized k after

pub IsHandled-Kept :
    (k : ℕ) (clean : Bool) (o : Option (List Deed × Xctrl))
    → IsHandled clean o
    → Kept k o
    → Handled k clean o
IsHandled-Kept k clean none c s = absurd (ground (arith, c))
IsHandled-Kept k clean (some (deeds, after)) c s = (c, s)

-- The buffers from number `j` on were disposed of once or not, each as its flag tells.
abbrev pub Disposed : (ℕ → Bool) → ℕ → List (List Deed) → Type 0
Disposed clean j [] = true ≡ true
Disposed clean j (d ∷ ds) = (is_clean d ≡ clean j) × Disposed clean (j + 1) ds

abbrev AllHandled : ℕ → (ℕ → Bool) → ℕ → ℕ → Option (List (List Deed) × Xctrl) → Type 0
AllHandled k clean j count none = false ≡ true
AllHandled k clean j count (some (deeds, after)) =
    (length deeds ≡ count) × Disposed clean j deeds × Sized k after

module _ (k : ℕ) (clean : ℕ → Bool) (handle : Handler)
    (safe : (j : ℕ) (b : ℕ × ℕ) (tx : Xctrl)
      → Sized k tx
      → Handled k (clean j) (handle j b tx)) where
  one_more :
      (deeds : List Deed) (j count : ℕ) (o : Option (List (List Deed) × Xctrl))
      → is_clean deeds ≡ clean j
      → AllHandled k clean (j + 1) count o
      → AllHandled k clean j
          (suc count)
          (elim o [ none ↦ none | some (more, last) ↦ some (deeds ∷ more, last) ])
  one_more deeds j count none c a = a
  one_more deeds j count (some (more, last)) c (n, all, s) = (omega (arith, n), (c, all), s)

  each-AllHandled :
      (bs : List (ℕ × ℕ)) (j : ℕ) (tx : Xctrl)
      → Sized k tx
      → AllHandled k clean j (length bs) (handle_each handle j bs tx)
  unfolding handle_each
  each-AllHandled [] j tx s = (refl, refl, s)
  each-AllHandled (b ∷ bs) j tx s =
      front (handle j b tx) (λ after p. each-AllHandled bs (j + 1) after p) (safe j b tx s)
    where
      front :
          (o : Option (List Deed × Xctrl))
          → ((after : Xctrl)
              → Sized k after
              → AllHandled k clean (j + 1) (length bs) (handle_each handle (j + 1) bs after))
          → Handled k (clean j) o
          → AllHandled k clean j (suc (length bs)) (elim o [
            | none ↦ none
            | some (deeds, after) ↦ elim (handle_each handle (j + 1) bs after) [
              | none ↦ none
              | some (more, last) ↦ some (deeds ∷ more, last)
            ]
          ])
      front none later h = absurd (ground (arith, h))
      front (some (deeds, after)) later h =
          one_more deeds j (length bs) (handle_each handle (j + 1) bs after) (h.0)
            (later after (h.1))

length-take_ready : (n : ℕ) (ctrl : RxCtrl) → length (take_ready n ctrl).0 ≡ n
unfolding take_ready
length-take_ready zero ctrl = refl
length-take_ready (suc n) ctrl = ap suc (length-take_ready n _)

length-receive : (budget hhp' : ℕ) (ctrl : RxCtrl) → length (receive budget hhp' ctrl).0 ≤ budget
unfolding receive
length-receive budget hhp' ctrl =
    let updated = record ctrl { hhp = hhp' } in
    let n : length (take_ready (ready_count budget updated) updated).0
        ≡ ready_count budget updated =
      length-take_ready (ready_count budget updated) updated in
    rw n (capped (bit_and ((hhp' + 2 ^ 32 - ctrl.shp) % 2 ^ 32) ctrl.mhp % 2 ^ 16))
  where
    capped : (ready : ℕ) → (if ltb budget ready then budget else ready) ≤ budget
    capped ready = ground arith

-- Every buffer that was received, at most `budget` of them, was disposed of once or not as its flag tells; the poll is reported complete
-- exactly when it did not use its budget up, and the transmit ring stays fit for the next poll.
abbrev pub IsPolled : ℕ → (ℕ → Bool) → ℕ → Option Polled → Type 0
IsPolled k clean budget none = false ≡ true
IsPolled k clean budget (some p) =
    (p.received ≤ budget)
    × (length p.deeds ≡ p.received)
    × Disposed clean 0 p.deeds
    × (p.is_complete ≡ ltb p.received budget)
    × Sized k p.tx

pub received-IsPolled :
    (k : ℕ) (clean : ℕ → Bool) (handle : Handler)
    → ((j : ℕ) (b : ℕ × ℕ) (tx : Xctrl) → Sized k tx → Handled k (clean j) (handle j b tx))
    → (hhp' budget : ℕ) (filled : RxCtrl) (tx : Xctrl) → Sized k tx
    → IsPolled k clean budget (handle_received handle hhp' budget filled tx)
unfolding handle_received
received-IsPolled k clean handle safe hhp' budget filled tx s =
    let buffs = (receive budget hhp' filled).0 in
    whole (handle_each handle 0 buffs tx) (each-AllHandled k clean handle safe buffs 0 tx s)
  where
    complete : (n : ℕ) → n ≤ budget → (if n == budget then false else true) ≡ ltb n budget
    complete n le = ground (arith, le)

    whole :
        (o : Option (List (List Deed) × Xctrl))
        → AllHandled k clean 0 (length (receive budget hhp' filled).0) o
        → IsPolled k clean budget (elim o [
          | none ↦ none
          | some (deeds, sent) ↦ some (record {
            received = length (receive budget hhp' filled).0;
            is_complete = if length (receive budget hhp' filled).0 == budget then false else true;
            deeds = deeds;
            rx = (receive budget hhp' filled).1;
            tx = sent;
          })
        ])
    whole none a = a
    whole (some (deeds, sent)) (n, all, sized) =
        let le = length-receive budget hhp' filled in
        (le, n, all, complete (length (receive budget hhp' filled).0) le, sized)

-- In page pool mode a poll ends, whatever the card's pointers and the pools answer: it handles the number of buffers
-- that it returns, at most its budget, each is disposed of once whatever its verdict and whatever fails, and it is
-- reported complete exactly when it returns less than its budget. The budget is NAPI_POLL_WEIGHT at most, the header ring has
-- `2 ^ h` slots, of which `n` are taken, and the pointer reads of the transmit ring, of `2 ^ k` slots, lie in it.
pub poll_pp-IsPolled :
    (k h n weight : ℕ) (dma : ℕ → ℕ) (frame_len : ℕ) (pages : ℕ → ℕ → Option ℕ) (hdps : ℕ → ℕ)
    (hhp' : ℕ) (given : ℕ → Given) (budget : ℕ) (rx : RxCtrl) (tx : Xctrl)
    → k ≤ 32
    → h ≤ 32
    → Taken h n rx
    → Sized k tx
    → ((j : ℕ) → (given j).hdp' < 2 ^ k)
    → budget ≤ weight
    → IsPolled k
        (λ j. true)
        budget
        (nfb_xctrl_napi_poll_pp weight dma frame_len pages hdps (2 ^ h) hhp' given budget rx tx)
unfolding nfb_xctrl_napi_poll_pp
poll_pp-IsPolled k h n weight dma frame_len pages hdps hhp' given budget rx tx fits fits' taken s
      in_ring le =
    let no_bug : ltb weight budget ≡ false = ground (arith, le) in
    let (ended, other) =
      refill-Ended h fits' dma frame_len pages (λ j. []) hdps n rx (λ j. omega arith) taken in
    rw (no_bug, nfb_xctrl_napi_poll_pp)
      (filled (refill (λ j. nfb_xctrl_rx_fill_pp dma frame_len (pages j) (hdps j)) (2 ^ h) 0 rx)
        ended)
  where
    safe :
        (j : ℕ) (b : ℕ × ℕ) (ready : Xctrl)
        → Sized k ready
        → Handled k true (handle_given given j b ready)
    safe j (buff, len) ready sized =
        let g = given j in
        let (free, can) = reclaimable k g.hdp' ready sized (in_ring j) in
        IsHandled-Kept k true
          (nfb_xctrl_handle_pp g.sdp0 g.upper0 g.hdp' g.dma buff g.len g.act g.services ready)
          (handle_pp-IsHandled k free g.sdp0 g.upper0 g.hdp' g.dma buff g.len g.act g.services ready
            fits can)
          (handle_pp-Kept k g.sdp0 g.upper0 g.hdp' g.dma buff g.len g.act g.services ready fits
            sized (in_ring j))

    filled :
        (o : Option (List ℕ × RxCtrl))
        → Ended h n o
        → IsPolled k
            (λ j. true)
            budget
            (elim o [
              | none ↦ none
              | some (freed, queue) ↦ handle_received (handle_given given) hhp' budget queue tx
            ])
    filled none e = absurd (ground (arith, e))
    filled (some (freed, queue)) e =
        received-IsPolled k (λ j. true) (handle_given given) safe hhp' budget queue tx s
