-- ===== src/Controller/Tests.antt =====
-- The theorems on the controllers behind the NDP channels at concrete inputs.
use ndk_sw_bachelor_thesis.Common.{
  ℕ, Option, ◌*◌, ◌≡◌, refl, Bool, true, false, none, some, [], ◌∷◌, Status, ok, if◌then◌else◌,
  ◌||◌, arith,
}
use ndk_sw_bachelor_thesis.Xdp.Tx.{nc_ndp_tx_desc2}
use ndk_sw_bachelor_thesis.Xdp.Rx.{nc_ndp_rx_desc2}
use ndk_sw_bachelor_thesis.Controller.Layout.{
  Cfg, walk, write_offsets, ndp_ctrl_medusa_mps_inc, ndp_ctrl_medusa_req_block_update,
  ndp_ctrl_set_ring_size,
}
use ndk_sw_bachelor_thesis.Controller.Layout.Virtual.{Fits}
use ndk_sw_bachelor_thesis.Controller.Layout.Measured.{Laid, at_first, update-Laid}
use ndk_sw_bachelor_thesis.Controller.Layout.Sizes.{Resized, set_ring_size-Resized}
use ndk_sw_bachelor_thesis.Controller.Attach.{
  Resource, hdr_map, off_mmap, ndp_ctrl_medusa_attach_ring, ndp_ctrl_medusa_detach_ring,
}
use ndk_sw_bachelor_thesis.Controller.Attach.Balance.{
  left, is_ok, is_headerless, medusa_attach-Balanced,
}
use ndk_sw_bachelor_thesis.Controller.User.{UserCtrl, ndp_ctrl_user_fill_rx_descs, user_rounds}
use ndk_sw_bachelor_thesis.Controller.Receive.{RxMedusa}
use ndk_sw_bachelor_thesis.Controller.Send.{
  TxMedusa, ndp_ctrl_medusa_tx_set_swptr, send_rounds, ndp_ctrl_medusa_tx_wait_for_free_desc,
  ndp_ctrl_medusa_tx_get_hwptr, send_one,
}
use ndk_sw_bachelor_thesis.Controller.Send.Consumed.{Packets, Account}
use ndk_sw_bachelor_thesis.Controller.Send.Sent.{Queued, set_swptr-Queued}
use ndk_sw_bachelor_thesis.Controller.Calypte.{
  TxCalypte, ndp_ctrl_calypte_tx_set_swptr, ndp_ctrl_calypte_tx_get_hwptr, take_rounds,
}
use ndk_sw_bachelor_thesis.Controller.Calypte.Bytes.{Bytes, exchange-Bytes}
use ndk_sw_bachelor_thesis.Controller.Begin.Begun.{Begun}

-- Pages of 16 bytes, blocks of 32, buffers of 8 of which the first lies 8 bytes behind the beginning.
small_Fits : Fits 16 8 8 32
small_Fits = record {
  some_size = omega arith;
  some_page = omega arith;
  first = omega arith;
  others = omega arith;
  word = omega arith;
}

-- Eight buffers take two blocks, the last one in front of the first.
abbrev eight : Cfg
eight = record {
  buffer_count = 8;
  buffer_size = 8;
  block_count = 2;
  block_size = 32;
  initial_offset = 8;
}

eight_asked : ndp_ctrl_medusa_req_block_update 16 9 32 8 8 8 ≡ some (ok, some eight)
unfolding ndp_ctrl_medusa_req_block_update walk ndp_ctrl_medusa_mps_inc
eight_asked = refl

eight_offsets :
    write_offsets 16 8 (at_first eight)
    ≡ some (8 ∷ 16 ∷ 24 ∷ 32 ∷ 40 ∷ 48 ∷ 56 ∷ 0 ∷ [], at_first eight)
unfolding write_offsets ndp_ctrl_medusa_mps_inc
eight_offsets = refl

update-Laid_example : Laid 16 eight
update-Laid_example =
    update-Laid 16 8 8 32 8 eight small_Fits (omega arith) (omega arith) (omega arith) eight_asked
      (omega arith)

abbrev pages_of_4096 : Cfg
pages_of_4096 = record {
  buffer_count = 1024;
  buffer_size = 4096;
  block_count = 1;
  block_size = 4194304;
  initial_offset = 64;
}

set_ring_size-Resized_example :
    Resized 4096
      (λ blocks. ok)
      4096
      16777216
      (ndp_ctrl_set_ring_size 4096 5000 64 (λ blocks. ok) 4194304 pages_of_4096 16777216)
set_ring_size-Resized_example =
    set_ring_size-Resized 4096 5000 (λ blocks. ok) 4194304 pages_of_4096 16777216 (omega arith)
      (omega arith) (omega arith) (omega arith) (omega arith)

-- A kernel that cannot map the headers.
abbrev no_headers : Resource → Bool
no_headers hdr_map = false
no_headers r = true

abbrev granted : Resource → Bool
granted r = true

abbrev registered : Resource → Status
registered r = ok

answered_0 : (ndp_ctrl_medusa_attach_ring no_headers registered 4096 ok).ret ≡ ok
unfolding ndp_ctrl_medusa_attach_ring
answered_0 = refl

medusa_attach-Balanced_example :
    let attached = ndp_ctrl_medusa_attach_ring no_headers registered 4096 ok in
    (left attached ndp_ctrl_medusa_detach_ring
      ≡ some (if attached.is_set then off_mmap ∷ [] else []))
    × (is_ok attached.ret ≡ (attached.is_set || is_headerless no_headers registered 4096 ok))
medusa_attach-Balanced_example = medusa_attach-Balanced no_headers registered 4096 ok

-- A queue to which the user gave three buffers.
abbrev given_three : UserCtrl
given_three = record {
  last_upper_addr = 0;
  mdp = 127;
  sdp = 0;
  hdp = 0;
  mhp = 127;
  shp = 3;
  php = 0;
  free_desc = 0;
  next_sdp = 62;
  next_sdp_age = 0;
  descs = λ n. nc_ndp_rx_desc2 0 0 0;
  sdp_register = 0;
}

-- Three descriptors more complete a burst of 64, which the card is told, and one waits.
told_64 : (ndp_ctrl_user_fill_rx_descs (λ n. 4096 * n) (λ n. 1500) given_three).sdp_register ≡ 64
unfolding ndp_ctrl_user_fill_rx_descs user_rounds
told_64 = refl

-- A receive queue of 128 slots whose card has nothing left and whose 60 descriptors are free, in a ring of 128 buffers
-- of 2048 bytes.
abbrev empty_queue : RxMedusa
empty_queue = record {
  last_upper_addr = 0;
  mdp = 127;
  mhp = 127;
  sdp = 5;
  shp = 5;
  free_desc = 60;
  mps = record {
    cfg = record {
      buffer_count = 128;
      buffer_size = 2048;
      block_count = 1;
      block_size = 524288;
      initial_offset = 0;
    };
    block_offset = 10240;
    block_index = 0;
    buffer_index = 5;
  };
  descs = λ n. nc_ndp_rx_desc2 0 0 0;
  sp_register = (5, 5);
}

abbrev in_place : ℕ → ℕ
in_place n = 1073741824

-- A transmit queue of four slots whose three packets fill it.
abbrev full_queue : TxMedusa
full_queue = record {
  last_upper_addr = 0;
  mdp = 3;
  mhp = 3;
  sdp = 3;
  hdp = 0;
  shp = 3;
  hhp = 0;
  free_desc = 0;
  mps = record {
    cfg = record {
      buffer_count = 4;
      buffer_size = 2048;
      block_count = 1;
      block_size = 8192;
      initial_offset = 0;
    };
    block_offset = 6144;
    block_index = 0;
    buffer_index = 3;
  };
  descs = λ n. nc_ndp_tx_desc2 (2048 * n) 60 0 0;
  is_outside = false;
  sdp_register = 3;
}

abbrev three_packets : Packets
three_packets = (0, 60) ∷ (2048, 60) ∷ (4096, 60) ∷ []

full_queue_Account : Account 2 2 (omega arith) (omega arith) 0 three_packets 3 3 full_queue
full_queue_Account =
    (0, [], three_packets, refl, (refl, refl, omega arith, refl, refl, refl, refl), refl)

abbrev at_0 : ℕ → ℕ
at_0 n = 0

abbrev of_90 : ℕ → ℕ
of_90 n = 90

abbrev shown : Option TxMedusa → Option (ℕ × ℕ)
shown none = none
shown (some c) = some (c.sdp_register, c.hhp)

-- The fourth packet waits until the card has sent two, and is told to the card in the last slot.
fourth_told :
    shown (ndp_ctrl_medusa_tx_set_swptr 4096 at_0 of_90 at_0 ((2, false) ∷ []) 0 full_queue)
    ≡ some (0, 2)
unfolding ndp_ctrl_medusa_tx_set_swptr send_rounds ndp_ctrl_medusa_tx_wait_for_free_desc
    ndp_ctrl_medusa_tx_get_hwptr send_one
fourth_told = refl

set_swptr-Queued_example :
    Queued 2 2
      (omega arith)
      (omega arith)
      4096
      at_0
      of_90
      at_0
      0
      three_packets
      0
      full_queue
      (ndp_ctrl_medusa_tx_set_swptr 4096 at_0 of_90 at_0 ((2, false) ∷ []) 0 full_queue)
set_swptr-Queued_example =
    set_swptr-Queued 2 2 (omega arith) (omega arith) 4096 at_0 of_90 at_0 0 three_packets 3
      ((2, false) ∷ []) 0 full_queue full_queue_Account (2, omega arith, refl, refl) (refl, refl)
      (omega arith)

-- A queue of 128 bytes with one block in flight.
abbrev one_block : TxCalypte
one_block = record {
  mdp = 127;
  mhp = 3;
  sdp = 32;
  hdp = 0;
  shp = 0;
  hhp = 0;
  free_bytes = 95;
  sp_register = (32, 0);
}

abbrev of_40 : ℕ → ℕ
of_40 n = 40

-- A packet of 40 bytes takes two blocks.
two_blocks : (ndp_ctrl_calypte_tx_set_swptr of_40 1 one_block).free_bytes ≡ 31
unfolding ndp_ctrl_calypte_tx_set_swptr take_rounds
two_blocks = refl

exchange-Bytes_example :
    let sent = ndp_ctrl_calypte_tx_set_swptr of_40 1 one_block in
    let after = ndp_ctrl_calypte_tx_get_hwptr 64 0 sent in
    Bytes 7 (omega arith) (omega arith) 32 after.sdp after × (after.sp_register ≡ (after.sdp, 1))
exchange-Bytes_example =
    exchange-Bytes 7 (omega arith) (omega arith) of_40 (λ n. omega arith) 32 64 1 64 0 one_block
      (refl, omega arith, refl, refl, refl) (omega arith) (omega arith) refl

-- The same buffers for a queue of 128 slots.
abbrev ring_128 : Cfg
ring_128 = record {
  buffer_count = 128;
  buffer_size = 8;
  block_count = 32;
  block_size = 32;
  initial_offset = 8;
}

abbrev started_queue : RxMedusa
started_queue = record empty_queue {
  sdp = 0;
  shp = 0;
  mps = record { cfg = ring_128; block_offset = 0; block_index = 0; buffer_index = 0 };
}
