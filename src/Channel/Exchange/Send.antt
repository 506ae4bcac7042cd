-- ===== src/Channel/Exchange/Send.antt =====
-- TX synchronisation of channel.c: who may write to the ring, and how much.
use ndk_sw_bachelor_thesis.Common.{
  ℕ, ◌+◌, ◌-◌, ◌%◌, ◌^◌, ◌≤◌, ◌<◌, min, ◌≡◌, ◌≢◌, refl, sym, ap, ◌∙◌, inl, inr, bit_and, Option,
  none, some, arith, ◌==◌, Bool-cases, ==_iff, ◌⊎◌, if◌then◌else◌,
}
use ndk_sw_bachelor_thesis.Common.Bits.{low_mask, and_mask-lt, zero-bit_and}
use ndk_sw_bachelor_thesis.Common.Rings.{masked_word, advance}
use ndk_sw_bachelor_thesis.Channel.{ChannelOps, Channel, Pointers, Sync, distance}
use ndk_sw_bachelor_thesis.Channel.Exchange.{
  free_space, refresh, lock_window, publish_tx, ndp_channel_txsync,
}

pub distance_self : (mask x : ℕ) → distance mask x x ≡ 0
distance_self mask x =
    ap (λ y. bit_and (y % 2 ^ 64) mask) {x = x + 2 ^ 64 - x} {y = 2 ^ 64} (omega arith)
    ∙ zero-bit_and mask

-- The window that is locked has the length that was granted.
window_length :
    (k s l : ℕ)
    → k ≤ 64
    → s < 2 ^ 64
    → l < 2 ^ k
    → distance (low_mask k) (bit_and ((s + l) % 2 ^ 64) (low_mask k)) s ≡ l
window_length k s l fits hs hl =
    masked_word k 64 fits _
    ∙ ap (λ y. (y + 2 ^ 64 - s) % 2 ^ k) (masked_word k 64 fits (s + l))
    ∙ advance k 64 fits s l hs hl

granted :
    (k mask a b h s : ℕ)
    → k ≤ 64
    → mask ≡ low_mask k
    → s < 2 ^ 64
    → distance mask (bit_and ((s + min (distance mask a b) (free_space mask h s)) % 2 ^ 64) mask) s
      ≡ min (distance mask a b) (free_space mask h s)
granted k mask a b h s fits e hs =
    rw e (window_length k s _ fits hs (omega (arith, and_mask-lt ((a + 2 ^ 64 - b) % 2 ^ 64) k)))

-- The part of the ring that a subscription may write to, as its pointers tell.
abbrev pub window : ℕ → Pointers → ℕ
window mask p = distance mask p.sub_swptr p.sub_hwptr

-- What a synchronisation leaves behind: `told` is what the caller reads.
pub record IsGranted {H : Type 0} (mask sub : ℕ) (r : Sync × Pointers × Channel H) : Type 0 where
  pub begins : r.1.sub_hwptr ≡ r.2.swptr
  pub within : window mask r.1 ≤ free_space mask r.2.hwptr r.2.swptr
  pub owned : (window mask r.1 ≡ 0) ⊎ (r.2.locked_sub ≡ some sub)
  pub told : (r.0.sync_hwptr ≡ r.1.sub_hwptr) × (r.0.sync_swptr ≡ r.1.sub_swptr)

owner_cases :
    (len sub : ℕ) {o : Option ℕ}
    → o ≡ (if len == 0 then none else some sub)
    → (len ≡ 0) ⊎ (o ≡ some sub)
owner_cases len sub e = elim (Bool-cases (len == 0)) [
  | inl z ↦ inl ((==_iff len 0).0 z)
  | inr p ↦ inr (e ∙ rw p refl)
]

module _ {H : Type 0} (ops : ChannelOps H) (sub : ℕ) (sync : Sync) (channel : Channel H) where
  lock_window_begins :
      (lock_window ops sub sync channel).1.sub_hwptr ≡ (lock_window ops sub sync channel).2.swptr
  unfolding lock_window
  lock_window_begins = refl

  lock_window_told :
      ((lock_window ops sub sync channel).0.sync_hwptr
        ≡ (lock_window ops sub sync channel).1.sub_hwptr)
      × ((lock_window ops sub sync channel).0.sync_swptr
          ≡ (lock_window ops sub sync channel).1.sub_swptr)
  unfolding lock_window
  lock_window_told = (refl, refl)

turned_away :
    {H : Type 0} (channel : Channel H) (sub : ℕ) (sync : Sync)
    → IsGranted channel.ptrmask sub (
      record sync { sync_hwptr = channel.swptr; sync_swptr = channel.swptr },
      record { sub_hwptr = channel.swptr; sub_swptr = channel.swptr },
      channel,
    )
turned_away channel sub sync = record {
  begins = refl;
  within = omega (arith, distance_self channel.ptrmask channel.swptr);
  owned = inl (distance_self channel.ptrmask channel.swptr);
  told = (refl, refl);
}

module _ {H : Type 0} (ops : ChannelOps H) (k : ℕ) (fits : k ≤ 64) where
  lock_window_granted :
      (sub : ℕ) (sync : Sync) (channel : Channel H)
      → channel.ptrmask ≡ low_mask k
      → channel.swptr < 2 ^ 64
      → window channel.ptrmask (lock_window ops sub sync channel).1
        ≡ min (distance channel.ptrmask sync.sync_swptr sync.sync_hwptr) (
            free_space channel.ptrmask
              (lock_window ops sub sync channel).2.hwptr
              (lock_window ops sub sync channel).2.swptr)
  unfolding lock_window refresh
  lock_window_granted sub sync channel e h =
      granted k channel.ptrmask sync.sync_swptr sync.sync_hwptr (ops.get_hwptr channel.hw).0
        channel.swptr fits e h

  lock_window_owner :
      (sub : ℕ) (sync : Sync) (channel : Channel H)
      → channel.ptrmask ≡ low_mask k
      → channel.swptr < 2 ^ 64
      → (lock_window ops sub sync channel).2.locked_sub ≡ (
          if window channel.ptrmask (lock_window ops sub sync channel).1 == 0
          then none
          else some sub)
  unfolding lock_window refresh
  lock_window_owner sub sync channel e h = rw (
      granted k channel.ptrmask sync.sync_swptr sync.sync_hwptr (ops.get_hwptr channel.hw).0
        channel.swptr fits e h)

  publish_bound :
      (hwptr : ℕ) (channel : Channel H)
      → hwptr < 2 ^ 64
      → channel.swptr < 2 ^ 64
      → (publish_tx ops hwptr channel).swptr < 2 ^ 64
  unfolding publish_tx
  publish_bound hwptr channel p q = ground arith

  publish_mask :
      (hwptr : ℕ) (channel : Channel H) → (publish_tx ops hwptr channel).ptrmask ≡ channel.ptrmask
  unfolding publish_tx
  publish_mask hwptr channel = ground arith

  lock_window-IsGranted :
      (mask sub : ℕ) (sync : Sync) (channel : Channel H)
      → mask ≡ channel.ptrmask
      → channel.ptrmask ≡ low_mask k
      → channel.swptr < 2 ^ 64
      → IsGranted mask sub (lock_window ops sub sync channel)
  lock_window-IsGranted mask sub sync channel same e h =
      let len = lock_window_granted sub sync channel e h in
      let own = lock_window_owner sub sync channel e h in
      rw same (record {
        begins = lock_window_begins ops sub sync channel;
        within = omega (arith, len);
        owned = owner_cases (window channel.ptrmask (lock_window ops sub sync channel).1) sub own;
        told = lock_window_told ops sub sync channel;
      })

  txsync_cases :
      (sub : ℕ) (sync : Sync) (channel : Channel H) (o : Option ℕ)
      → channel.locked_sub ≡ o
      → channel.ptrmask ≡ low_mask k
      → channel.swptr < 2 ^ 64
      → sync.sync_hwptr < 2 ^ 64
      → IsGranted channel.ptrmask sub (ndp_channel_txsync ops sub sync channel)
  unfolding ndp_channel_txsync
  txsync_cases sub sync channel none locked e h hs =
      rw (locked, ndp_channel_txsync)
        (lock_window-IsGranted channel.ptrmask sub sync channel refl e h)
  txsync_cases sub sync channel (some holder) locked e h hs = elim (Bool-cases (holder == sub)) [
    | inl own ↦
        rw (locked, own, ndp_channel_txsync)
          (lock_window-IsGranted channel.ptrmask sub sync (publish_tx ops sync.sync_hwptr channel)
            (sym (publish_mask sync.sync_hwptr channel)) (publish_mask sync.sync_hwptr channel ∙ e)
            (publish_bound sync.sync_hwptr channel hs h))
    | inr other ↦ rw (locked, other, ndp_channel_txsync) (turned_away channel sub sync)
  ]

  -- After a TX synchronisation the caller's window begins at the channel's software pointer and lies
  -- within the free space of the ring, and unless it is empty the caller is the locked subscription;
  -- so for every pointer that the caller may hand over, also for a caller who is turned away.
  pub txsync-IsGranted :
      (sub : ℕ) (sync : Sync) (channel : Channel H)
      → channel.ptrmask ≡ low_mask k
      → channel.swptr < 2 ^ 64
      → sync.sync_hwptr < 2 ^ 64
      → IsGranted channel.ptrmask sub (ndp_channel_txsync ops sub sync channel)
  txsync-IsGranted sub sync channel = txsync_cases sub sync channel channel.locked_sub refl

-- A subscription that does not hold the lock changes nothing in the channel and gets nothing.
pub txsync_turned_away :
    {H : Type 0} (ops : ChannelOps H) (sub holder : ℕ) (sync : Sync) (channel : Channel H)
    → channel.locked_sub ≡ some holder
    → holder ≢ sub
    → ((ndp_channel_txsync ops sub sync channel).2 ≡ channel)
      × (window channel.ptrmask (ndp_channel_txsync ops sub sync channel).1 ≡ 0)
unfolding ndp_channel_txsync
txsync_turned_away ops sub holder sync channel locked ne =
    ground (arith, distance_self channel.ptrmask channel.swptr)
