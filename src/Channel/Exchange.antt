-- ===== src/Channel/Exchange.antt =====
-- drivers/kernel/drivers/nfb/ndp/channel.c: `ndp_channel_sync`, by which a subscription exchanges
-- pointers with its channel. The pointers of all subscriptions are a map from their addresses.
pub mod Send
pub mod Receive
use ndk_sw_bachelor_thesis.Common.{
  ℕ, ◌+◌, ◌-◌, ◌%◌, ◌^◌, min, bit_and, Bool, true, false, Option, none, some, List, [], ◌∷◌, not,
  ltb, ◌==◌, if◌then◌else◌,
}
use ndk_sw_bachelor_thesis.Channel.{ChannelOps, Channel, Pointers, Sync, distance, is_sub}

abbrev pub update : (ℕ → Pointers) → ℕ → Pointers → ℕ → Pointers
update subs sub pointers s = if s == sub then pointers else subs s

-- The loop of `ndp_channel_rxsync`: the farthest software pointer, with its distance.
unfoldable pub farthest : ℕ → ℕ → (ℕ → Pointers) → List ℕ → ℕ → ℕ → ℕ × ℕ
farthest hwptr mask subs [] max_lock swptr = (max_lock, swptr)
farthest hwptr mask subs (s ∷ ss) max_lock swptr =
    let sub_swptr = (subs s).sub_swptr in
    let sub_lock = distance mask hwptr sub_swptr in
    farthest hwptr mask subs ss (if ltb max_lock sub_lock then sub_lock else max_lock)
      (if ltb max_lock sub_lock then sub_swptr else swptr)

-- Free space of a TX channel: `(hwptr - swptr - 1) & ptrmask`.
abbrev pub free_space : ℕ → ℕ → ℕ → ℕ
free_space mask hwptr swptr = bit_and ((hwptr + 2 ^ 64 - swptr + 2 ^ 64 - 1) % 2 ^ 64) mask

module _ {H : Type 0} (ops : ChannelOps H) where
  unfoldable pub publish_rx : ℕ → Channel H → Channel H
  publish_rx swptr channel =
      if swptr == channel.swptr
      then channel
      else record channel { swptr = swptr; hw = ops.set_swptr swptr channel.hw }

  unfoldable pub refresh : Channel H → Channel H
  refresh channel =
      let (hwptr', hw') = ops.get_hwptr channel.hw in record channel { hwptr = hwptr'; hw = hw' }

  unfoldable pub ndp_channel_rxsync :
      ℕ → Sync → (ℕ → Pointers) → Channel H → Sync × (ℕ → Pointers) × Channel H
  unfolding farthest publish_rx refresh
  ndp_channel_rxsync sub sync subs channel =
      let own = record (subs sub) { sub_swptr = sync.sync_swptr } in
      let subs' = update subs sub own in
      let (max_lock, swptr) =
        farthest channel.hwptr channel.ptrmask subs' channel.list_subscriptions 0 sync.sync_swptr in
      let channel' = refresh (publish_rx swptr channel) in
      (
        record sync { sync_hwptr = channel'.hwptr },
        update subs' sub (record own { sub_hwptr = channel'.hwptr }),
        channel',
      )

  -- What both branches of `ndp_channel_txsync` do that may lock: read the hardware pointer, and lock
  -- as much of what the subscription asks for as is free.
  unfoldable pub lock_window : ℕ → Sync → Channel H → Sync × Pointers × Channel H
  unfolding refresh
  lock_window sub sync channel =
      let channel' = refresh channel in
      let size : ℕ = elim ops.get_free_space [
        | none ↦ sync.size
        | some space ↦ space channel'.hw
      ] in
      let chlen = free_space channel'.ptrmask channel'.hwptr channel'.swptr in
      let len = min (distance channel'.ptrmask sync.sync_swptr sync.sync_hwptr) chlen in
      let swptr = bit_and ((channel'.swptr + len) % 2 ^ 64) channel'.ptrmask in
      (
        record { size = size; sync_hwptr = channel'.swptr; sync_swptr = swptr },
        record { sub_hwptr = channel'.swptr; sub_swptr = swptr },
        record channel' { locked_sub = if len == 0 then none else some sub },
      )

  unfoldable pub publish_tx : ℕ → Channel H → Channel H
  publish_tx hwptr channel =
      if hwptr == channel.swptr
      then channel
      else record channel { swptr = hwptr; hw = ops.set_swptr hwptr channel.hw }

  unfoldable pub ndp_channel_txsync : ℕ → Sync → Channel H → Sync × Pointers × Channel H
  unfolding lock_window publish_tx
  ndp_channel_txsync sub sync channel = elim channel.locked_sub [
    | none ↦ lock_window sub sync channel
    | some holder ↦
        if holder == sub then lock_window sub sync (publish_tx sync.sync_hwptr channel) else (
          record sync { sync_hwptr = channel.swptr; sync_swptr = channel.swptr },
          record { sub_hwptr = channel.swptr; sub_swptr = channel.swptr },
          channel,
        )
  ]

  unfoldable pub ndp_channel_sync :
      ℕ → Sync → (ℕ → Pointers) → Channel H → Sync × (ℕ → Pointers) × Channel H
  unfolding ndp_channel_rxsync ndp_channel_txsync
  ndp_channel_sync sub sync subs channel =
      let (sync', pointers, channel') = ndp_channel_txsync sub sync channel in
      if channel.is_tx
      then (sync', update subs sub pointers, channel')
      else ndp_channel_rxsync sub sync subs channel
