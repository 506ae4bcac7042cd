-- ===== src/Subscription/Writers.antt =====
-- The subscriptions of a TX channel (subscription.c over channel.c): at most one of them may write.
use ndk_sw_bachelor_thesis.Common.{
  ℕ, ◌^◌, ◌<◌, ◌≤◌, ◌≡◌, ◌≢◌, refl, sym, ap, subst, ◌∙◌, true, false, some, arith, ◌==◌, ==_iff,
  inl, inr, Bool-cases, ◌⊎◌,
}
use ndk_sw_bachelor_thesis.Common.Bits.{low_mask}
use ndk_sw_bachelor_thesis.Channel.{ChannelOps, Channel, Sync}
use ndk_sw_bachelor_thesis.Channel.Exchange.{update, ndp_channel_sync, ndp_channel_txsync}
use ndk_sw_bachelor_thesis.Channel.Exchange.Send.{window, txsync-IsGranted, txsync_turned_away}
use ndk_sw_bachelor_thesis.Subscription.{is_running, Node, ndp_subscription_sync}

-- A running subscription with a window to write to is the locked one.
pub record OneWriter {H : Type 0} (k : ℕ) (n : Node H) : Type 0 where
  pub sends : n.channel.is_tx ≡ true
  pub ring : n.channel.ptrmask ≡ low_mask k
  pub in_word : n.channel.swptr < 2 ^ 64
  pub owned :
      (s : ℕ)
      → is_running (n.status s) ≡ true
      → (window n.channel.ptrmask (n.pointers s) ≡ 0) ⊎ (n.channel.locked_sub ≡ some s)

-- Two running subscriptions that both have a window are one.
pub one_writer :
    {H : Type 0} (k : ℕ) (n : Node H) (s t : ℕ)
    → OneWriter k n
    → is_running (n.status s) ≡ true
    → is_running (n.status t) ≡ true
    → window n.channel.ptrmask (n.pointers s) ≢ 0
    → window n.channel.ptrmask (n.pointers t) ≢ 0
    → s ≡ t
one_writer k n s t w rs rt ps pt = elim (w.owned s rs) [
  | inl z ↦ absurd (ps z)
  | inr ls ↦ elim (w.owned t rt) [ inl z ↦ absurd (pt z) | inr lt ↦ cc ]
]

differ : (s t : ℕ) → (s == t) ≡ false → t ≢ s
differ s t e q = ground arith

module _ {H : Type 0} (ops : ChannelOps H) (k : ℕ) (fits : k ≤ 64) where
  txsync_kept :
      (sub : ℕ) (sync : Sync) (c : Channel H)
      → c.swptr < 2 ^ 64
      → sync.sync_hwptr < 2 ^ 64
      → let (sync', p, d) = ndp_channel_txsync ops sub sync c in
        (d.is_tx ≡ c.is_tx) × (d.ptrmask ≡ c.ptrmask) × (d.swptr < 2 ^ 64)
  unfolding ndp_channel_txsync
  txsync_kept sub sync c h hs = ground arith

  -- What the others have after a synchronisation they had before it.
  others_owned :
      (sub : ℕ) (sync : Sync) (n : Node H) (s : ℕ)
      → OneWriter k n
      → is_running (n.status s) ≡ true
      → sub ≢ s
      → (window n.channel.ptrmask (n.pointers s) ≡ 0)
        ⊎ ((ndp_channel_txsync ops sub sync n.channel).2.locked_sub ≡ some s)
  others_owned sub sync n s w r ne = elim (w.owned s r) [
    | inl z ↦ inl z
    | inr l ↦ inr (
        ap (λ (c : Channel H). c.locked_sub)
          (txsync_turned_away ops sub s sync n.channel l (λ e. ne (sym e))).0
        ∙ l)
  ]

  synced : (sub : ℕ) (sync : Sync) (n : Node H) → Node H
  synced sub sync n = record n {
    pointers = update n.pointers sub (ndp_channel_txsync ops sub sync n.channel).1;
    channel = (ndp_channel_txsync ops sub sync n.channel).2;
  }

  synced-OneWriter :
      (sub : ℕ) (sync : Sync) (n : Node H)
      → sync.sync_hwptr < 2 ^ 64
      → OneWriter k n
      → OneWriter k (synced sub sync n)
  unfolding synced
  synced-OneWriter sub sync n hs w =
      let kept = txsync_kept sub sync n.channel w.in_word hs in
      let mine = txsync-IsGranted ops k fits sub sync n.channel w.ring w.in_word hs in
      record {
        sends = kept.0 ∙ w.sends;
        ring = kept.1 ∙ w.ring;
        in_word = kept.2;
        owned = λ s r. rw kept.1 (elim (Bool-cases (s == sub)) [
          | inl e ↦ rw e (elim mine.owned [
            | inl z ↦ inl z
            | inr l ↦ inr (l ∙ ap some (sym ((==_iff s sub).0 e)))
          ])
          | inr e ↦ rw e (others_owned sub sync n s w r (differ s sub e))
        ]);
      }

  synced_node :
      (sub : ℕ) (sync : Sync) (n : Node H)
      → n.channel.is_tx ≡ true
      → is_running (n.status sub) ≡ true
      → (ndp_subscription_sync ops sub sync n).2 ≡ synced sub sync n
  unfolding ndp_subscription_sync ndp_channel_sync synced
  synced_node sub sync n tx running =
      rw (running, ndp_subscription_sync) (rw (tx, ndp_channel_sync) refl)

  -- A synchronisation keeps the single writer, for all 64-bit pointers that the caller hands over.
  pub sync-OneWriter :
      (sub : ℕ) (sync : Sync) (n : Node H)
      → sync.sync_hwptr < 2 ^ 64
      → OneWriter k n
      → OneWriter k (ndp_subscription_sync ops sub sync n).2
  unfolding ndp_subscription_sync
  sync-OneWriter sub sync n hs w = elim (Bool-cases (is_running (n.status sub))) [
    | inr idle ↦ rw (idle, ndp_subscription_sync) w
    | inl running ↦
        subst (OneWriter k) (sym (synced_node sub sync n w.sends running))
          (synced-OneWriter sub sync n hs w)
  ]
