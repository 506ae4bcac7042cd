-- ===== src/Channel/Exchange/Receive.antt =====
-- RX synchronisation of channel.c: what is given back to the controller.
use ndk_sw_bachelor_thesis.Common.{
  ℕ, ◌≡◌, ◌⊎◌, inl, inr, refl, sym, ◌∙◌, List, [], ◌∷◌, arith, ltb, Bool-cases,
}
use ndk_sw_bachelor_thesis.Channel.{ChannelOps, Channel, Pointers, Sync, distance}
use ndk_sw_bachelor_thesis.Channel.Exchange.{update, farthest, publish_rx, ndp_channel_rxsync}

-- `s` is among the running subscriptions.
abbrev pub Running : ℕ → List ℕ → Type 0
Running s [] = ⊥
Running s (t ∷ ts) = (s ≡ t) ⊎ Running s ts

module _ (hwptr mask : ℕ) (subs : ℕ → Pointers) where
  abbrev lag : ℕ → ℕ
  lag swptr = distance mask hwptr swptr

  -- Where the pointer comes from.
  farthest_source :
      (list : List ℕ) (max_lock swptr : ℕ)
      → ((farthest hwptr mask subs list max_lock swptr).1 ≡ swptr)
        ⊎ ((s : ℕ) × Running s list
            × ((farthest hwptr mask subs list max_lock swptr).1 ≡ (subs s).sub_swptr))
  unfolding farthest
  farthest_source [] max_lock swptr = inl refl
  farthest_source (s ∷ ss) max_lock swptr =
      elim (Bool-cases (ltb max_lock (lag (subs s).sub_swptr))) [
        | inl e ↦
            rw (e, farthest)
              (elim (farthest_source ss (lag (subs s).sub_swptr) (subs s).sub_swptr) [
                | inl p ↦ inr (s, inl refl, p)
                | inr (t, r, p) ↦ inr (t, inr r, p)
              ])
        | inr e ↦
            rw (e, farthest)
              (elim (farthest_source ss max_lock swptr) [
                | inl p ↦ inl p
                | inr (t, r, p) ↦ inr (t, inr r, p)
              ])
      ]

module _ {H : Type 0} (ops : ChannelOps H) (sub : ℕ) (sync : Sync) (subs : ℕ → Pointers)
    (channel : Channel H) where
  abbrev after : Sync × (ℕ → Pointers) × Channel H
  after = ndp_channel_rxsync ops sub sync subs channel

  abbrev moved : ℕ → Pointers
  moved = update subs sub (record (subs sub) { sub_swptr = sync.sync_swptr })

  after_swptr :
      after.2.swptr
      ≡ (farthest channel.hwptr channel.ptrmask moved channel.list_subscriptions 0
          sync.sync_swptr).1
  unfolding ndp_channel_rxsync
  after_swptr = ground arith

  after_pointers : (s : ℕ) → (after.1 s).sub_swptr ≡ (moved s).sub_swptr
  unfolding ndp_channel_rxsync
  after_pointers s = ground arith

  -- The channel's new software pointer is the one that the caller hands over, or that of a running
  -- subscription: it never passes the slowest one needlessly.
  pub rxsync_tight :
      (after.2.swptr ≡ sync.sync_swptr)
      ⊎ ((s : ℕ) × Running s channel.list_subscriptions × (after.2.swptr ≡ (after.1 s).sub_swptr))
  rxsync_tight =
      elim (farthest_source channel.hwptr channel.ptrmask moved channel.list_subscriptions 0
        sync.sync_swptr) [
          | inl p ↦ inl (after_swptr ∙ p)
          | inr (s, r, p) ↦ inr (s, r, after_swptr ∙ p ∙ sym (after_pointers s))
        ]

  -- The caller is told the pointer that the controller reports after the release.
  pub rxsync_frame :
      (after.0.sync_hwptr ≡ (ops.get_hwptr (publish_rx ops after.2.swptr channel).hw).0)
      × ((after.1 sub).sub_hwptr ≡ after.0.sync_hwptr)
      × (after.2.hwptr ≡ after.0.sync_hwptr)
      × (after.2.list_subscriptions ≡ channel.list_subscriptions)
  unfolding ndp_channel_rxsync
  rxsync_frame = ground arith
