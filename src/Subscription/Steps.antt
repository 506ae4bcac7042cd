-- ===== src/Subscription/Steps.antt =====
-- The remaining calls of subscription.c, and every history of calls.
use ndk_sw_bachelor_thesis.Common.{
  ℕ, ◌≡◌, ◌≢◌, refl, sym, ◌∙◌, Bool, true, false, some, List, ◌∷◌, err, eagain, arith, ◌==◌, inl,
  inr, Bool-cases, Status-cases, ◌⊎◌,
}
use ndk_sw_bachelor_thesis.Channel.{
  ChannelOps, Channel, Pointers, Sync, ndp_channel_subscribe, ndp_channel_unsubscribe,
}
use ndk_sw_bachelor_thesis.Channel.Exchange.{ndp_channel_sync}
use ndk_sw_bachelor_thesis.Subscription.{
  SubStatus, sub_init, sub_subscribed, is_running, Node, set_status, freed, ndp_subscription_sync,
  ndp_subscription_stop, ndp_subscription_create, ndp_subscription_destroy,
}
use ndk_sw_bachelor_thesis.Subscription.Lists.{is_in}
use ndk_sw_bachelor_thesis.Subscription.Invariant.{IsValid, Same, Same-IsValid, stop-IsValid}

module _ {H : Type 0} (ops : ChannelOps H) where
  sync-Same :
      (sub : ℕ) (sync : Sync) (subs : ℕ → Pointers) (c : Channel H)
      → Same c (ndp_channel_sync ops sub sync subs c).2
  unfolding ndp_channel_sync
  sync-Same sub sync subs c = ground arith

  -- The lock changes hands only to the caller.
  sync-lock :
      (sub s : ℕ) (sync : Sync) (subs : ℕ → Pointers) (c : Channel H)
      → (ndp_channel_sync ops sub sync subs c).2.locked_sub ≡ some s
      → (s ≡ sub) ⊎ (c.locked_sub ≡ some s)
  unfolding ndp_channel_sync
  sync-lock sub s sync subs c e = ground arith

  -- `ndp_subscription_sync` keeps the invariant.
  pub sync-IsValid :
      (sub : ℕ) (sync : Sync) (n : Node H)
      → IsValid n
      → IsValid (ndp_subscription_sync ops sub sync n).2
  unfolding ndp_subscription_sync
  sync-IsValid sub sync n v = elim (Bool-cases (is_running (n.status sub))) [
    | inr idle ↦ rw (idle, ndp_subscription_sync) v
    | inl running ↦
        rw (running, ndp_subscription_sync)
          (Same-IsValid n _ _ (sync-Same sub sync n.pointers n.channel) (locked_runs running) v)
  ]
    where
      locked_runs :
          is_running (n.status sub) ≡ true
          → (s : ℕ) → (ndp_channel_sync ops sub sync n.pointers n.channel).2.locked_sub ≡ some s
          → is_in s n.channel.list_subscriptions ≡ true
      locked_runs running s e = elim (sync-lock sub s sync n.pointers n.channel e) [
        | inl own ↦ rw own (sym (v.listed sub) ∙ running)
        | inr old ↦ v.locked s old
      ]

  subscribe-Same : (flags : ℕ) (c : Channel H) → Same c (ndp_channel_subscribe ops flags c).2
  unfolding ndp_channel_subscribe
  subscribe-Same flags c = ground arith

  subscribe-lock :
      (flags : ℕ) (c : Channel H) → (ndp_channel_subscribe ops flags c).2.locked_sub ≡ c.locked_sub
  unfolding ndp_channel_subscribe
  subscribe-lock flags c = ground arith

  -- A status that is not running may be replaced by another such status.
  idle-IsValid :
      (sub : ℕ) (new : SubStatus) (members : List ℕ) (count : ℕ) (n : Node H)
      → is_running (n.status sub) ≡ false
      → is_running new ≡ false
      → IsValid n
      → IsValid (record n {
        status = set_status n.status sub new;
        members = members;
        channel = record n.channel { subscriptions_count = count };
      })
  idle-IsValid sub new members count n idle still v = record {
    counted = v.counted;
    small = v.small;
    distinct = v.distinct;
    listed = λ s. ground (arith, v.listed s);
    locked = v.locked;
  }

  create_cases :
      (sub flags : ℕ) (n : Node H)
      → is_running (n.status sub) ≡ false
      → IsValid n
      → IsValid (record n {
        status = set_status n.status sub sub_subscribed;
        members = sub ∷ n.members;
        channel = (ndp_channel_subscribe ops flags n.channel).2;
      })
  create_cases sub flags n idle v =
      let c = (ndp_channel_subscribe ops flags n.channel).2 in
      idle-IsValid sub sub_subscribed (sub ∷ n.members) c.subscriptions_count
        (record n { channel = c }) idle refl
        (Same-IsValid n n.pointers c (subscribe-Same flags n.channel)
          (λ s e. v.locked s (sym (subscribe-lock flags n.channel) ∙ e)) v)

  -- `ndp_subscription_create` keeps the invariant on every path. The premise is that the memory that
  -- `kzalloc` hands out is not a running subscription.
  pub create-IsValid :
      (found : Bool) (ring_size sub flags : ℕ) (n : Node H)
      → is_running (n.status sub) ≡ false
      → IsValid n
      → IsValid (ndp_subscription_create ops found ring_size (some sub) flags n).2
  unfolding ndp_subscription_create
  create-IsValid false ring_size sub flags n idle v = v
  create-IsValid true ring_size sub flags n idle v = elim (Bool-cases (ring_size == 0)) [
    | inl no_ring ↦ rw (no_ring, ndp_subscription_create) v
    | inr ring ↦ elim (Status-cases (ndp_channel_subscribe ops flags n.channel).0) [
      | inl done ↦ rw (ring, done, ndp_subscription_create) (create_cases sub flags n idle v)
      | inr (e, failed) ↦
          rw (ring, failed, ndp_subscription_create)
            (Same-IsValid n n.pointers _ (subscribe-Same flags n.channel)
              (λ s l. v.locked s (sym (subscribe-lock flags n.channel) ∙ l)) v)
    ]
  ]

  module _ (forced_stops : (h : H) → (ops.stop_hw true h).0 ≢ err eagain) where
    -- After a forced stop the subscription does not run.
    forced_idle :
        (sub : ℕ) (n : Node H)
        → is_running ((ndp_subscription_stop ops sub true n).1.status sub) ≡ false
    unfolding ndp_subscription_stop
    forced_idle sub n = ground arith

    -- `ndp_subscription_destroy` keeps the invariant, also for a running subscription: it never leaves a
    -- freed structure on the channel's list. The premise is that of `stop-IsValid`.
    destroy-IsValid :
        (sub : ℕ) (n : Node H)
        → IsValid n
        → IsValid (ndp_subscription_destroy ops sub n)
          × (is_in sub (ndp_subscription_destroy ops sub n).channel.list_subscriptions ≡ false)
    unfolding ndp_subscription_destroy freed ndp_channel_unsubscribe
    destroy-IsValid sub n v =
        let m = (ndp_subscription_stop ops sub true n).1 in
        let w : IsValid m = stop-IsValid ops forced_stops sub true n v in
        (
          idle-IsValid sub sub_init _ _ m (forced_idle sub n) refl w,
          sym (w.listed sub) ∙ forced_idle sub n,
        )
