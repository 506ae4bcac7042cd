-- ===== src/Xdp/Rx/Tests.antt =====
-- The theorems on reception at concrete inputs: rings of 128 slots, one buffer that the card has filled.
use ndk_sw_bachelor_thesis.Common.{
  ℕ, zero, suc, ◌*◌, ◌^◌, ◌%◌, ◌≡◌, ◌⊎◌, refl, true, false, Option, none, some, [], ◌∷◌, err,
  enomem, arith,
}
use ndk_sw_bachelor_thesis.Xdp.Tx.{
  Xctrl, Frame, type0, desc_type0, nfb_xctrl_tx_free_buffers, free_loop,
}
use ndk_sw_bachelor_thesis.Xdp.Tx.Callers.{nfb_xctrl_rexmit_pp}
use ndk_sw_bachelor_thesis.Xdp.Rx.{
  RxCtrl, nfb_xctrl_rx_fill_pp, nfb_xctrl_rx_fill_xsk, refill, receive, take_ready, fill_pages,
}
use ndk_sw_bachelor_thesis.Xdp.Rx.Posted.{Posted}
use ndk_sw_bachelor_thesis.Xdp.Rx.Fill.{Split, Drawn, fill_xsk-Split, fill_pp-Drawn}
use ndk_sw_bachelor_thesis.Xdp.Rx.Refill.{Ended, refill-Ended}
use ndk_sw_bachelor_thesis.Xdp.Rx.Receive.{Delivered, receive-Delivered}
use ndk_sw_bachelor_thesis.Xdp.Rx.Verdict.{
  Services, xdp_redirect, xdp_tx, nfb_xctrl_handle_pp, nfb_xctrl_handle_xsk,
}
use ndk_sw_bachelor_thesis.Xdp.Rx.Verdict.Ledger.{IsHandled, handle_xsk-IsHandled}
use ndk_sw_bachelor_thesis.Xdp.Rx.Poll.{
  GivenXsk, nfb_xctrl_napi_poll_rx_xsk, Given, Polled, nfb_xctrl_napi_poll_pp, handle_received,
  handle_each,
}
use ndk_sw_bachelor_thesis.Xdp.Rx.Poll.Account.{IsPolled, poll_pp-IsPolled}
use ndk_sw_bachelor_thesis.Xdp.Rx.Poll.Xsk.{is_settled, poll_xsk-IsPolled}

abbrev page_address : ℕ → ℕ
page_address buffer = buffer % 16 * 4096

abbrev empty_queue : RxCtrl
empty_queue = record {
  last_upper_addr = 0;
  mdp = 127;
  sdp = 0;
  hdp = 0;
  mhp = 127;
  shp = 0;
  hhp = 0;
  php = 0;
  descs = λ i. type0 0 0;
  xdp_ring = λ i. 0;
  frame_lens = λ i. 60;
}

-- The card has read the descriptor of buffer 5.
abbrev one_read : RxCtrl
one_read = record empty_queue { php = 1; xdp_ring = λ i. 5 }

empty_queue-Posted : Posted 7 7 page_address 2048 0 0 0 [] [] empty_queue
empty_queue-Posted = record {
  headers = (refl, omega arith, omega arith, refl);
  mask = refl;
  some_free = omega arith;
  in_ring = omega arith;
  ahead = refl;
  named = refl;
  held = refl;
}

one_read-Posted : Posted 7 7 page_address 2048 0 1 0 (5 ∷ []) [] one_read
one_read-Posted = record {
  headers = (refl, omega arith, omega arith, refl);
  mask = refl;
  some_free = omega arith;
  in_ring = omega arith;
  ahead = refl;
  named = refl;
  held = refl;
}

fill_xsk-Split_example :
    let result = nfb_xctrl_rx_fill_xsk page_address 2048 (1 ∷ 2 ∷ []) 0 empty_queue in
    Split 7 7 page_address 2048 0 0 [] [] (1 ∷ 2 ∷ []) result
    ⊎ ((result.0 ≡ 0) × (result.2 ≡ empty_queue))
fill_xsk-Split_example =
    fill_xsk-Split 7 7 page_address 2048 (omega arith) (omega arith) (omega arith) (1 ∷ 2 ∷ []) 0 0
      0 0 [] [] empty_queue (omega arith, (omega arith, tt)) (omega arith) empty_queue-Posted

fill_pp-Drawn_example :
    Drawn 7 7 page_address 2048
      (omega arith)
      (omega arith)
      (omega arith)
      0
      0
      []
      []
      (λ i. some i)
      0
      (nfb_xctrl_rx_fill_pp page_address 2048 (λ i. some i) 0 empty_queue)
fill_pp-Drawn_example =
    fill_pp-Drawn 7 7 page_address 2048 (omega arith) (omega arith) (omega arith) (λ i. some i) 0 0
      0 0 [] [] empty_queue (λ j page e. omega arith) empty_queue-Posted

refill-Ended_example :
    Ended 7 0
      (refill (λ j. nfb_xctrl_rx_fill_pp page_address 2048 (λ i. some i) 0) (2 ^ 7) 0 empty_queue)
    × Ended 7 0
        (refill (λ j. nfb_xctrl_rx_fill_xsk page_address 2048 (j ∷ []) 0) (2 ^ 7) 0 empty_queue)
refill-Ended_example =
    refill-Ended 7 (omega arith) page_address 2048 (λ j i. some i) (λ j. j ∷ []) (λ j. 0) 0
      empty_queue (λ j. omega arith) (refl, omega arith, omega arith, refl)

receive-Delivered_example :
    Delivered 7 7 page_address 2048
      (omega arith)
      0
      1
      0
      (5 ∷ [])
      []
      []
      one_read
      (receive 64 1 one_read)
receive-Delivered_example =
    receive-Delivered 7 7 page_address 2048 (omega arith) (5 ∷ []) [] [] 64 1 0 1 0 one_read
      (omega arith) one_read-Posted (omega arith) refl

abbrev tx_ring : Xctrl
tx_ring = record {
  last_upper_addr = 0;
  mdp = 7;
  sdp = 3;
  hdp = 0;
  fdp = 1;
  descs = λ i. type0 0 0;
  buffers = λ i. desc_type0;
  completed_xsk_tx = 0;
  sdp_register = 3;
}

abbrev failing : Services
failing = record { converts = true; builds = false; redirected = err enomem }

abbrev small_frame : Frame
small_frame = record { address = 9; len = 60; frame_sz = 2048; headroom = 256 }

-- A failed redirection is one of the exceptions.
handle_xsk-IsHandled_example :
    IsHandled false
      (nfb_xctrl_handle_xsk 3 (some 4096) small_frame (some xdp_redirect) failing tx_ring)
handle_xsk-IsHandled_example =
    handle_xsk-IsHandled 3 2 3 (some 4096) small_frame (some xdp_redirect) failing tx_ring
      (omega arith) (refl, omega arith, omega arith, refl)

abbrev two_buffers : ℕ → Option ℕ
two_buffers zero = some 8
two_buffers (suc zero) = some 9
two_buffers (suc (suc n)) = none

-- Every buffer is sent back, and the card has sent the two packets of the transmit ring.
abbrev all_back : ℕ → Given
all_back j = record {
  sdp0 = 3;
  upper0 = 0;
  hdp' = 3;
  dma = 4096;
  len = 60;
  act = some xdp_tx;
  services = failing;
}

-- The card has filled the only buffer that it has, number 5.
poll_pp-IsPolled_example :
    IsPolled 3
      (λ j. true)
      64
      (nfb_xctrl_napi_poll_pp 64 page_address 2048
        (λ j i. none)
        (λ j. 0)
        (2 ^ 7)
        1
        all_back
        64
        one_read
        tx_ring)
poll_pp-IsPolled_example =
    poll_pp-IsPolled 3 7 1 64 page_address 2048 (λ j i. none) (λ j. 0) 1 all_back 64 one_read
      tx_ring (omega arith) (omega arith) (refl, omega arith, omega arith, refl) (refl, omega arith)
      (λ j. omega arith) (omega arith)

abbrev received_by : Option Polled → ℕ
received_by none = 0
received_by (some p) = p.received

poll_receives :
    received_by (
      nfb_xctrl_napi_poll_pp 64 page_address 2048
        (λ j i. none)
        (λ j. 0)
        (2 ^ 7)
        1
        all_back
        64
        one_read
        tx_ring)
    ≡ 1
unfolding nfb_xctrl_napi_poll_pp handle_received handle_each receive take_ready refill
    nfb_xctrl_rx_fill_pp fill_pages nfb_xctrl_handle_pp nfb_xctrl_rexmit_pp
    nfb_xctrl_tx_free_buffers free_loop
poll_receives = refl

-- Every buffer is redirected, which fails: one of the exceptions.
abbrev none_redirected : ℕ → GivenXsk
none_redirected j = record {
  extent = 320;
  hdp' = 3;
  mapped = some 4096;
  frame = small_frame;
  act = some xdp_redirect;
  services = failing;
}

poll_xsk-IsPolled_example :
    IsPolled 3
      (λ j. is_settled 4096 (none_redirected j))
      64
      (nfb_xctrl_napi_poll_rx_xsk 64 4096 page_address 2048
        (λ j. [])
        (λ j. 0)
        (2 ^ 7)
        1
        none_redirected
        64
        one_read
        tx_ring)
poll_xsk-IsPolled_example =
    poll_xsk-IsPolled 3 7 1 64 4096 page_address 2048 (λ j. []) (λ j. 0) 1 none_redirected 64
      one_read tx_ring (omega arith) (omega arith) (refl, omega arith, omega arith, refl)
      (refl, omega arith) (λ j. omega arith) (λ j. omega arith) (omega arith)
