-- ===== src/Channel.antt =====
-- drivers/kernel/drivers/nfb/ndp/channel.c: one DMA channel shared by its subscriptions. The channel's
-- mutex and spinlock make each call atomic. A subscription is the address of its structure; the
-- operations of the controller behind the channel (`ndp_channel_ops`) are a parameter, over the
-- state `H` of that controller.
pub mod Exchange
pub mod Tests
use ndk_sw_bachelor_thesis.Common.{
  ℕ, ◌+◌, ◌-◌, ◌%◌, ◌^◌, min, bit_and, bit_or, Bool, true, false, ◌||◌, not, Option, none, some,
  List, [], ◌∷◌, ◌++◌, Status, ok, err, eperm, eagain, ◌==◌, if◌then◌else◌,
}

-- `struct ndp_channel_ops`. `stop` is told whether it is forced.
pub record ChannelOps (H : Type 0) : Type 0 where
  pub start_hw : H → Status × ℕ × H
  pub stop_hw : Bool → H → Status × H
  pub get_hwptr : H → ℕ × H
  pub set_swptr : ℕ → H → H
  pub get_flags : H → ℕ
  pub set_flags : ℕ → H → ℕ × H
  pub get_free_space : Option (H → ℕ)

-- `struct ndp_channel`, the fields that channel.c reads and writes.
pub record Channel (H : Type 0) : Type 0 where
  pub is_tx : Bool
  pub locked_sub : Option ℕ
  pub hwptr : ℕ
  pub swptr : ℕ
  pub ptrmask : ℕ
  pub start_count : ℕ
  pub subscriptions_count : ℕ
  pub flags : ℕ
  pub list_subscriptions : List ℕ
  pub hw : H

-- The pointers of `struct ndp_subscription`, and `struct ndp_subscription_sync`.
pub record Pointers : Type 0 where
  pub sub_hwptr : ℕ
  pub sub_swptr : ℕ

pub record Sync : Type 0 where
  pub size : ℕ
  pub sync_hwptr : ℕ
  pub sync_swptr : ℕ

-- `(a - b) & mask` on 64-bit pointers.
abbrev pub distance : ℕ → ℕ → ℕ → ℕ
distance mask a b = bit_and ((a + 2 ^ 64 - b) % 2 ^ 64) mask

-- The `uint32_t` counters.
abbrev pub inc32 : ℕ → ℕ
inc32 n = (n + 1) % 2 ^ 32

abbrev pub dec32 : ℕ → ℕ
dec32 n = (n + 2 ^ 32 - 1) % 2 ^ 32

abbrev pub flag_exclusive : ℕ
flag_exclusive = 2

-- `flags & ~NDP_CHANNEL_FLAG_EXCLUSIVE` on 64 bits.
abbrev pub without_exclusive : ℕ → ℕ
without_exclusive flags = bit_and flags (2 ^ 64 - 1 - flag_exclusive)

abbrev pub is_sub : Option ℕ → ℕ → Bool
is_sub none sub = false
is_sub (some locked) sub = locked == sub

-- `list_del_init`
unfoldable pub list_del : ℕ → List ℕ → List ℕ
list_del sub [] = []
list_del sub (s ∷ subs) = if s == sub then subs else s ∷ list_del sub subs

module _ {H : Type 0} where
  unfoldable pub ndp_channel_unsubscribe : Channel H → Channel H
  ndp_channel_unsubscribe channel = record channel {
    subscriptions_count = dec32 channel.subscriptions_count;
  }

  -- The last part of `ndp_channel_start`: the subscription begins at the hardware pointer.
  unfoldable pub join : ℕ → Channel H → Pointers × Channel H
  join sub channel = (
    record { sub_hwptr = channel.hwptr; sub_swptr = channel.hwptr },
    record channel { list_subscriptions = channel.list_subscriptions ++ (sub ∷ []) },
  )

  -- The part of `ndp_channel_stop` behind the start count.
  unfoldable pub leave : ℕ → Channel H → Channel H
  leave sub channel = record channel {
    list_subscriptions = list_del sub channel.list_subscriptions;
  }

  -- `locked_sub` is given up before the controller is asked.
  unfoldable pub unlocked : ℕ → Channel H → Channel H
  unlocked sub channel = record channel {
    locked_sub = if is_sub channel.locked_sub sub then none else channel.locked_sub;
  }

module _ {H : Type 0} (ops : ChannelOps H) where
  -- The flags that the caller sees afterwards, the result, and the channel.
  unfoldable pub ndp_channel_subscribe : ℕ → Channel H → Status × ℕ × Channel H
  ndp_channel_subscribe req channel =
      let count = channel.subscriptions_count in
      let (given, hw') = ops.set_flags (without_exclusive req) channel.hw in
      let mask = ops.get_flags channel.hw in
      if count == 0
      then (if given == without_exclusive req
          then (
            ok,
            given,
            record channel {
              subscriptions_count = inc32 count;
              flags = bit_and req flag_exclusive;
              hw = hw';
            },
          )
          else (err eperm, given, record channel { hw = hw' }))
      else (if not (bit_and (bit_or req channel.flags) flag_exclusive == 0)
            || not (req == bit_or channel.flags mask)
          then (err eperm, req, channel)
          else (ok, req, record channel { subscriptions_count = inc32 count }))

  unfoldable pub ndp_channel_start : ℕ → Pointers → Channel H → Status × Pointers × Channel H
  unfolding join
  ndp_channel_start sub pointers channel =
      let started = record channel { start_count = inc32 channel.start_count } in
      let (ret, hwptr', hw') = ops.start_hw channel.hw in
      let first = join sub (record started { hwptr = hwptr'; swptr = hwptr'; hw = hw' }) in
      let later = join sub started in
      if channel.start_count == 0
      then elim ret [
        | ok ↦ (ok, first.0, first.1)
        | err e ↦ (err e, pointers, record channel { hwptr = hwptr'; hw = hw' })
      ]
      else (ok, later.0, later.1)

  unfoldable pub ndp_channel_stop : ℕ → Bool → Channel H → Status × Channel H
  unfolding leave unlocked
  ndp_channel_stop sub force channel =
      let count = dec32 channel.start_count in
      let free = unlocked sub channel in
      let (ret, hw') = ops.stop_hw force channel.hw in
      if count == 0
      then elim ret [
        | err eagain ↦ (err eagain, record free { hw = hw' })
        | _ ↦ (ok, leave sub (record free { start_count = count; hw = hw' }))
      ]
      else (ok, leave sub (record free { start_count = count }))
