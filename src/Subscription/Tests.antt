-- ===== src/Subscription/Tests.antt =====
-- subscription.c on channels with one or two subscriptions, and the theorems at these inputs.
use ndk_sw_bachelor_thesis.Common.{
  ℕ, refl, true, some, [], ◌∷◌, ok, err, eagain, arith, ◌==◌, if◌then◌else◌,
}
use ndk_sw_bachelor_thesis.Channel.{ChannelOps, Pointers, Sync}
use ndk_sw_bachelor_thesis.Channel.Tests.{plain_ops}
use ndk_sw_bachelor_thesis.Subscription.{
  sub_init, sub_subscribed, sub_running, SubStatus, Node, ndp_subscription_sync,
  ndp_subscription_start, ndp_subscription_stop,
}
use ndk_sw_bachelor_thesis.Subscription.Invariant.{IsValid, start-IsValid, stop-IsValid}
use ndk_sw_bachelor_thesis.Subscription.Writers.{OneWriter, sync-OneWriter}

-- A controller that puts off every stop that is not forced.
abbrev busy_ops : ChannelOps ℕ
busy_ops = record plain_ops { stop_hw = λ force h. if force then (ok, h) else (err eagain, h) }

-- Subscription 7 runs and holds the lock, subscription 8 is subscribed.
abbrev statuses : ℕ → SubStatus
statuses s = if s == 7 then sub_running else (if s == 8 then sub_subscribed else sub_init)

abbrev window_of_7 : ℕ → Pointers
window_of_7 s =
    if s == 7
    then record { sub_hwptr = 1; sub_swptr = 4 }
    else record { sub_hwptr = 1; sub_swptr = 1 }

abbrev node : Node ℕ
node = record {
  status = statuses;
  pointers = window_of_7;
  members = 8 ∷ 7 ∷ [];
  channel = record {
    is_tx = true;
    locked_sub = some 7;
    hwptr = 0;
    swptr = 1;
    ptrmask = 7;
    start_count = 1;
    subscriptions_count = 2;
    flags = 0;
    list_subscriptions = 7 ∷ [];
    hw = 6;
  };
}

abbrev request : Sync
request = record { size = 4; sync_hwptr = 3; sync_swptr = 4 }

node-IsValid : IsValid node
node-IsValid = record {
  counted = refl;
  small = omega arith;
  distinct = ground arith;
  listed = λ s. ground arith;
  locked = λ s e. ground arith;
}

node-OneWriter : OneWriter 3 node
node-OneWriter = record {
  sends = refl;
  ring = refl;
  in_word = omega arith;
  owned = λ s r. ground arith;
}

start-IsValid_example : IsValid (ndp_subscription_start plain_ops 8 request node).2
start-IsValid_example = start-IsValid plain_ops 8 request node (omega arith) node-IsValid

stop-IsValid_example : IsValid (ndp_subscription_stop busy_ops 7 true node).1
stop-IsValid_example = stop-IsValid busy_ops (λ h. ground arith) 7 true node node-IsValid

sync-OneWriter_example : OneWriter 3 (ndp_subscription_sync plain_ops 8 request node).2
sync-OneWriter_example =
    sync-OneWriter plain_ops 3 (omega arith) 8 request node (omega arith) node-OneWriter
