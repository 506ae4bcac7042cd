-- ===== src/Subscription.antt =====
-- drivers/kernel/drivers/nfb/ndp/subscription.c: the life of the subscriptions of one channel. A
-- subscription is the address of its structure; `members` are those that exist. The lookup of the
-- channel by index and type, and `kzalloc`, are arguments.
pub mod Lists
pub mod Invariant
pub mod Steps
pub mod Writers
pub mod Handover
mod Tests
use ndk_sw_bachelor_thesis.Common.{
  ℕ, Bool, true, false, Option, none, some, List, [], ◌∷◌, Status, ok, err, eagain, ebadf, ebadfd,
  enodev, enomem, ◌==◌, if◌then◌else◌,
}
use ndk_sw_bachelor_thesis.Channel.{
  ChannelOps, Channel, Pointers, Sync, list_del, ndp_channel_subscribe, ndp_channel_unsubscribe,
  ndp_channel_start, ndp_channel_stop,
}
use ndk_sw_bachelor_thesis.Channel.Exchange.{update, ndp_channel_sync}

-- `NDP_SUB_STATUS_*`
pub data SubStatus : Type 0 where
  sub_init sub_subscribed sub_running : SubStatus

abbrev pub is_running : SubStatus → Bool
is_running sub_running = true
is_running _ = false

abbrev pub is_subscribed : SubStatus → Bool
is_subscribed sub_subscribed = true
is_subscribed _ = false

-- The channel with the structures of its subscriptions.
pub record Node (H : Type 0) : Type 0 where
  pub status : ℕ → SubStatus
  pub pointers : ℕ → Pointers
  pub members : List ℕ
  pub channel : Channel H

abbrev pub set_status : (ℕ → SubStatus) → ℕ → SubStatus → ℕ → SubStatus
set_status status sub new s = if s == sub then new else status s

-- What the caller of a start reads back: the pointers, on an RX channel.
abbrev pub start_sync : Bool → Pointers → Sync → Sync
start_sync is_tx p sync =
    if is_tx then sync else record sync { sync_hwptr = p.sub_hwptr; sync_swptr = p.sub_swptr }

module _ {H : Type 0} where
  -- The end of a stop, once the channel is left.
  unfoldable pub stopped : ℕ → Channel H → Node H → Node H
  stopped sub channel' node = record node {
    status = set_status node.status sub sub_subscribed;
    channel = channel';
  }

  -- The end of a destroy: the channel is unsubscribed and the structure is freed.
  unfoldable pub freed : ℕ → Node H → Node H
  freed sub node = record node {
    status = set_status node.status sub sub_init;
    members = list_del sub node.members;
    channel = ndp_channel_unsubscribe node.channel;
  }

module _ {H : Type 0} (ops : ChannelOps H) where
  unfoldable pub ndp_subscription_sync : ℕ → Sync → Node H → Status × Sync × Node H
  ndp_subscription_sync sub sync node =
      let (sync', pointers', channel') = ndp_channel_sync ops sub sync node.pointers node.channel in
      if is_running (node.status sub)
      then (ok, sync', record node { pointers = pointers'; channel = channel' })
      else (err ebadf, sync, node)

  unfoldable pub ndp_subscription_start : ℕ → Sync → Node H → Status × Sync × Node H
  ndp_subscription_start sub sync node =
      let (ret, p, channel') = ndp_channel_start ops sub (node.pointers sub) node.channel in
      if is_subscribed (node.status sub)
      then elim ret [
        | ok ↦ (
          ok,
          start_sync node.channel.is_tx p sync,
          record node {
            status = set_status node.status sub sub_running;
            pointers = update node.pointers sub p;
            channel = channel';
          },
        )
        | err e ↦ (err e, sync, record node { channel = channel' })
      ]
      else (err ebadf, sync, node)

  -- The controller puts the stop off: it is forced, or the caller has to try again.
  unfoldable pub after_again : ℕ → Bool → Node H → Status × Node H
  unfolding stopped
  after_again sub force node =
      let channel' = (ndp_channel_stop ops sub false node.channel).1 in
      let forced = ndp_channel_stop ops sub true channel' in
      if force
      then (ok, stopped sub forced.1 node)
      else (err eagain, record node { channel = channel' })

  unfoldable pub ndp_subscription_stop : ℕ → Bool → Node H → Status × Node H
  unfolding stopped after_again
  ndp_subscription_stop sub force node =
      let (ret, channel') = ndp_channel_stop ops sub false node.channel in
      if is_running (node.status sub)
      then elim ret [
        | err eagain ↦ after_again sub force node
        | _ ↦ (ok, stopped sub channel' node)
      ]
      else (ok, node)

  -- `found`: the requested channel is this one; `ring_size` is `channel->ring.size`; `memory` is what
  -- `kzalloc_node` returns. The flags are those that the caller sees afterwards.
  unfoldable pub ndp_subscription_create : Bool → ℕ → Option ℕ → ℕ → Node H → Status × ℕ × Node H
  ndp_subscription_create false ring_size memory flags node = (err enodev, flags, node)
  ndp_subscription_create true ring_size memory flags node =
      if ring_size == 0 then (err ebadfd, flags, node) else elim memory [
        | none ↦ (err enomem, flags, node)
        | some sub ↦
            let (ret, flags', channel') = ndp_channel_subscribe ops flags node.channel in
            elim ret [
              | ok ↦ (
                ok,
                flags',
                record node {
                  status = set_status node.status sub sub_subscribed;
                  members = sub ∷ node.members;
                  channel = channel';
                },
              )
              | err e ↦ (err e, flags', record node { channel = channel' })
            ]
      ]

  unfoldable pub ndp_subscription_destroy : ℕ → Node H → Node H
  unfolding freed
  ndp_subscription_destroy sub node = freed sub (ndp_subscription_stop sub true node).1
