-- ===== src/Channel/Tests.antt =====
-- channel.c on rings of eight slots, and the theorems of the exchange at these inputs.
use ndk_sw_bachelor_thesis.Common.{ℕ, ◌≡◌, refl, true, false, some, none, [], ◌∷◌, ok, arith}
use ndk_sw_bachelor_thesis.Channel.{ChannelOps, Channel, Pointers, Sync}
use ndk_sw_bachelor_thesis.Channel.Exchange.{
  ndp_channel_rxsync, ndp_channel_txsync, farthest, publish_rx, refresh,
}
use ndk_sw_bachelor_thesis.Channel.Exchange.Send.{IsGranted, txsync-IsGranted}

-- A controller whose state is its hardware pointer.
abbrev pub plain_ops : ChannelOps ℕ
plain_ops = record {
  start_hw = λ h. (ok, 0, h);
  stop_hw = λ force h. (ok, h);
  get_hwptr = λ h. (h, h);
  set_swptr = λ p h. h;
  get_flags = λ h. 0;
  set_flags = λ f h. (f, h);
  get_free_space = none;
}

-- Subscriptions 7 and 8 run; the controller has moved on to slot 6.
abbrev receiving : Channel ℕ
receiving = record {
  is_tx = false;
  locked_sub = none;
  hwptr = 5;
  swptr = 1;
  ptrmask = 7;
  start_count = 2;
  subscriptions_count = 2;
  flags = 0;
  list_subscriptions = 7 ∷ 8 ∷ [];
  hw = 6;
}

-- Subscription 7 holds the lock.
abbrev sending : Channel ℕ
sending = record {
  is_tx = true;
  locked_sub = some 7;
  hwptr = 5;
  swptr = 1;
  ptrmask = 7;
  start_count = 2;
  subscriptions_count = 2;
  flags = 0;
  list_subscriptions = 7 ∷ 8 ∷ [];
  hw = 6;
}

abbrev pointers : ℕ → Pointers
pointers s = record { sub_hwptr = 5; sub_swptr = 2 }

abbrev request : Sync
request = record { size = 4; sync_hwptr = 3; sync_swptr = 4 }

-- Subscription 7 has read up to slot 4, but 8 has only got to 2.
slowest_rules : (ndp_channel_rxsync plain_ops 7 request pointers receiving).2.swptr ≡ 2
unfolding ndp_channel_rxsync farthest publish_rx refresh
slowest_rules = refl

txsync-IsGranted_example : IsGranted 7 7 (ndp_channel_txsync plain_ops 7 request sending)
txsync-IsGranted_example =
    txsync-IsGranted plain_ops 3 (omega arith) 7 request sending refl (omega arith) (omega arith)
