-- ===== src/Xdp/Tests.antt =====
-- The XDP driver's theorems at concrete inputs: a channel in each of its states, a ring of eight slots.
use ndk_sw_bachelor_thesis.Common.{
  ℕ, ◌≡◌, ◌≤◌, ◌<◌, ◌+◌, ◌-◌, ◌^◌, ◌⊎◌, inr, refl, max, Bool, true, false, Option, some, none, List,
  [], ◌∷◌, ◌++◌, ok, err, enomem, ebusy, arith, if◌then◌else◌,
}
use ndk_sw_bachelor_thesis.Xdp.Alloc.{
  Resource, ndp_ctrl, rx, nfb_xctrl_alloc_pp, nfb_xctrl_destroy_pp,
}
use ndk_sw_bachelor_thesis.Xdp.Alloc.Balance.{replay, give_back_pp, pp_balanced_unless}
use ndk_sw_bachelor_thesis.Xdp.Channel.{
  pp, xsk, null_ctrl, freed, live, no_thread, alive, disabled, enabled, Kernel, XdpChannel,
  channel_start, channel_stop, switch_pool,
}
use ndk_sw_bachelor_thesis.Xdp.Channel.States.{Idle, Settled, start-Settled, stop-Idle}
use ndk_sw_bachelor_thesis.Xdp.Channel.Switch.{Switched, switch_pool-Switched}
use ndk_sw_bachelor_thesis.Xdp.Tx.{
  Xctrl, type0, desc_type0, xsk as xsk_buffer, TxBuffer, Frame, place, free_slots, next_slot,
  nc_ndp_tx_desc2, min_len,
}
use ndk_sw_bachelor_thesis.Xdp.Tx.Callers.{submit_all, nfb_xctrl_rexmit_pp}
use ndk_sw_bachelor_thesis.Xdp.Tx.Decode.{needed}
use ndk_sw_bachelor_thesis.Xdp.Tx.Pending.{Pending, place-Pending}
use ndk_sw_bachelor_thesis.Xdp.Tx.Submit.{AllQueued, submit_all-AllQueued}
use ndk_sw_bachelor_thesis.Xdp.Tx.{
  unmap, free_skb, return_frame, skb, redirected, nfb_xctrl_tx_free_buffers,
}
use ndk_sw_bachelor_thesis.Xdp.Tx.Reclaim.{Reclaimed, free_buffers-Reclaimed}
use ndk_sw_bachelor_thesis.Common.{◌==◌}
use ndk_sw_bachelor_thesis.Xdp.Tx.Stale.{Overwritten, stale_overwrites}
use ndk_sw_bachelor_thesis.Xdp.Alloc.{tx}
use ndk_sw_bachelor_thesis.Lock.{LockItem, nfb_lock_try_lock, scan}
use ndk_sw_bachelor_thesis.Lock.Exclusion.{Exclusive-nil}
use ndk_sw_bachelor_thesis.Bus.{nfb_comp_trylock, settled}
use ndk_sw_bachelor_thesis.Ndp.{medusa, NdpCtrl, Registers, nc_ndp_ctrl_start, ones64}
use ndk_sw_bachelor_thesis.Xdp.Tx.Poll.{nfb_xctrl_napi_poll_tx_xsk}
use ndk_sw_bachelor_thesis.Xdp.Tx.Poll.Whole.{Balanced, poll_tx-Balanced}
use ndk_sw_bachelor_thesis.Xdp.Begin.{Queue, attach, nfb_xctrl_start, start-Pending}
use ndk_sw_bachelor_thesis.Xdp.Ethdev.{Ethdev, nfb_xdp_open, OpenedBy, open-Opened}

abbrev all_granted : Resource → Bool
all_granted r = true

-- The card is busy: `nc_ndp_ctrl_open` fails.
abbrev no_card : Resource → Bool
no_card ndp_ctrl = false
no_card _ = true

abbrev willing : Kernel
willing = record {
  found = true;
  rx_grants = all_granted;
  tx_grants = all_granted;
  rx_started = ok;
  tx_started = ok;
  rx_created = ok;
  tx_created = ok;
}

abbrev no_tx_thread : Kernel
no_tx_thread = record willing { tx_created = err enomem }

abbrev closed : XdpChannel
closed = record {
  is_running = false;
  is_xsk = false;
  rx_ctrl = null_ctrl;
  tx_ctrl = freed;
  rx_thread = no_thread;
  tx_thread = no_thread;
  rx_napi_pp = disabled;
  rx_napi_xsk = disabled;
  tx_napi_xsk = disabled;
  tx_queue = false;
  pool = none;
}

abbrev with_socket : XdpChannel
with_socket = record {
  is_running = true;
  is_xsk = true;
  rx_ctrl = live xsk true;
  tx_ctrl = live xsk true;
  rx_thread = alive;
  tx_thread = alive;
  rx_napi_pp = disabled;
  rx_napi_xsk = enabled;
  tx_napi_xsk = enabled;
  tx_queue = true;
  pool = some 1;
}

-- On a receive queue the failed `nc_ndp_ctrl_open` ends with a page pool freed twice.
pp_balanced_unless_example :
    let (success, events) = nfb_xctrl_alloc_pp no_card true rx in
    replay give_back_pp (if success then events ++ nfb_xctrl_destroy_pp rx else events) [] ≡ none
pp_balanced_unless_example = pp_balanced_unless no_card true rx

start-Settled_example : Settled pp (channel_start pp willing closed)
start-Settled_example = start-Settled pp willing closed (ground arith) refl refl

stop-Idle_example : Idle (channel_stop with_socket).1
stop-Idle_example = stop-Idle with_socket (inr (xsk, ground arith))

switch_pool-Switched_example : Switched with_socket pp (switch_pool ok willing none with_socket)
switch_pool-Switched_example =
    switch_pool-Switched ok willing none with_socket (inr (xsk, ground arith)) refl

-- A fresh ring: no upper bits have been announced, and no address has these.
abbrev ring : Xctrl
ring = record {
  last_upper_addr = 2 ^ 64 - 1;
  mdp = 7;
  sdp = 6;
  hdp = 6;
  fdp = 6;
  descs = λ i. type0 0 0;
  buffers = λ i. desc_type0;
  completed_xsk_tx = 0;
  sdp_register = 6;
}

abbrev frames : List (Option ℕ × Frame)
frames =
    (some (2 ^ 30 + 64), record { address = 1; len = 42; frame_sz = 2048; headroom = 256 })
    ∷ (none, record { address = 2; len = 1500; frame_sz = 2048; headroom = 256 })
    ∷ []

ring-Pending : Pending 3 0 (2 ^ 64 - 1) [] ring
ring-Pending = (refl, omega arith, omega arith, refl, refl)

place-Pending_example :
    let (ret, after) = place desc_type0 64 60 6 (2 ^ 64 - 1) (free_slots 7 6 6) ring in
    ((2 ^ 3 ≤ 0 + needed (2 ^ 64 - 1) 64) × (ret ≡ err ebusy) × (after ≡ ring))
    ⊎ ((0 + needed (2 ^ 64 - 1) 64 < 2 ^ 3)
        × (ret ≡ ok)
        × Pending 3 (0 + needed (2 ^ 64 - 1) 64) (2 ^ 64 - 1) ((64, 60) ∷ []) after)
place-Pending_example =
    place-Pending 3 (omega arith) 0 (2 ^ 64 - 1) [] desc_type0 64 60 ring ring-Pending (omega arith)
      (omega arith)

-- The second frame could not be mapped.
submit_all-AllQueued_example : AllQueued 3 (2 ^ 64 - 1) [] frames (submit_all frames ring)
submit_all-AllQueued_example =
    submit_all-AllQueued 3 (omega arith) 0 (2 ^ 64 - 1) [] frames ring ring-Pending
      ((omega arith, omega arith), (omega arith, refl))

abbrev announced : Xctrl
announced = record ring { last_upper_addr = 2 ^ 30 }

stale_overwrites_example :
    let (ret, between) =
      place desc_type0 (2 ^ 30 + 64) 60 6 (2 ^ 30) (free_slots 7 6 6) announced in
    (ret ≡ ok)
    × Overwritten
        (nc_ndp_tx_desc2 (2 ^ 30 + 4096) (max 90 min_len) 0 0)
        (TxBuffer.frame_pp 5)
        6
        (next_slot 7 6)
        (nfb_xctrl_rexmit_pp 6 (2 ^ 30) 6 (2 ^ 30 + 4096) 5 90 between)
stale_overwrites_example =
    stale_overwrites desc_type0 (2 ^ 30 + 64) 60 (2 ^ 30 + 4096) 5 90 announced refl refl refl
      (omega arith)

-- Slots 6, 7 and 0 are done; 7 holds a socket buffer, 0 a redirected frame.
abbrev sent_ring : Xctrl
sent_ring = record ring {
  sdp = 2;
  hdp = 1;
  buffers =
      λ i. if i == 7 then skb 3 64 60 else (if i == 0 then redirected 4 128 90 else desc_type0);
}

free_buffers-Reclaimed_example :
    Reclaimed
      (unmap 64 60 ∷ free_skb 3 ∷ unmap 128 90 ∷ return_frame 4 ∷ [])
      sent_ring
      (nfb_xctrl_tx_free_buffers 9 sent_ring)
free_buffers-Reclaimed_example =
    free_buffers-Reclaimed 3 (omega arith) 3 sent_ring refl (omega arith) (omega arith) refl

-- A device with two channels, the second of which gets no controller of the card.
abbrev no_second : Kernel
no_second = record willing { rx_grants = no_card; tx_grants = no_card }

abbrev two_channels : Ethdev
two_channels = record {
  prog = some 7;
  mac_enabled = false;
  tx_queues = false;
  link_work = false;
  channels = (willing, closed) ∷ (no_second, closed) ∷ [];
}

open-Opened_example : let (ret, after) = nfb_xdp_open ok two_channels in OpenedBy ret after
open-Opened_example =
    open-Opened ok two_channels (λ e. absurd (ground (arith, e)))
      ((ground arith, refl, refl), ((ground arith, refl, refl), tt))

abbrev enough : ℕ → Bool
enough n = true

abbrev alone : ℕ → List LockItem → List LockItem
alone n items = items

abbrev tx_controller : NdpCtrl
tx_controller = record {
  ty = medusa;
  dir = 1;
  last_upper_addr = 0;
  mdp = 0;
  mhp = 0;
  sdp = 3;
  hdp = 1;
  shp = 0;
  hhp = 0;
  update0 = 3;
  update1 = 0;
}

abbrev tx_queue : Queue
tx_queue = record {
  kind = tx;
  desc_buffer_dma = 4096;
  update_buffer_dma = 8192;
  hdr_buffer_dma = 0;
  nb_desc = 8;
  nb_hdr = 0;
}

abbrev idle_card : Registers
idle_card = record {
  status = λ n. 0;
  hdp_reg = 0;
  hhp_reg = 0;
  mdp_reg = 0;
  mhp_reg = 0;
  val_max = 131071;
}

tx_queue_starts :
    (nfb_xctrl_start enough alone 1 "/tx0" idle_card tx_queue tx_controller [] false).0.result ≡ ok
unfolding nfb_xctrl_start nc_ndp_ctrl_start nfb_comp_trylock settled nfb_lock_try_lock scan
tx_queue_starts = refl

start-Pending_example :
    ((nfb_xctrl_start enough alone 1 "/tx0" idle_card tx_queue tx_controller [] false).1 ≡ true)
    × ((k : ℕ) × (k ≤ 31)
        × (8 ≡ 2 ^ k)
        × Pending k 0 ones64 [] (
            attach
              ((nfb_xctrl_start enough alone 1 "/tx0" idle_card tx_queue tx_controller []
                false).0.ctrl)
              ring))
start-Pending_example =
    start-Pending enough alone 1 "/tx0" idle_card tx_queue tx_controller [] false ring refl refl
      (omega arith) Exclusive-nil tx_queue_starts

-- Slots 6 and 7 hold packets of a socket with two completions each, and the card has sent the one in slot 6.
abbrev socket_ring : Xctrl
socket_ring = record ring { sdp = 0; buffers = λ i. xsk_buffer 2 }

-- Two more packets, with three drops still to be reported.
poll_tx-Balanced_example :
    Balanced 3
      (omega arith)
      9
      2
      7
      (nfb_xctrl_napi_poll_tx_xsk 0 0 7 ((65536, 100) ∷ (65536, 42) ∷ []) 3 socket_ring)
poll_tx-Balanced_example =
    poll_tx-Balanced 3 (omega arith) 1 1 0 3 ((65536, 100) ∷ (65536, 42) ∷ []) socket_ring refl
      (omega arith) (omega arith) refl (omega arith)
