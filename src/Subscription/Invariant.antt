-- ===== src/Subscription/Invariant.antt =====
-- What holds between any two calls of subscription.c: the channel's list is exactly the running
-- subscriptions, and its start count is their number.
use ndk_sw_bachelor_thesis.Common.{
  ℕ, ◌+◌, ◌^◌, ◌<◌, ◌≡◌, ◌≢◌, sym, ap, ◌∙◌, Bool, true, false, none, some, [], ◌∷◌, ◌++◌, ok, err,
  eagain, arith, length, length-append, if◌then◌else◌, inl, inr, Bool-cases, Status-cases, ◌⊎◌,
}
use ndk_sw_bachelor_thesis.Channel.{
  ChannelOps, Channel, Pointers, Sync, inc32, dec32, is_sub, list_del, ndp_channel_start,
  ndp_channel_stop,
}
use ndk_sw_bachelor_thesis.Subscription.{
  SubStatus, sub_running, is_running, is_subscribed, Node, set_status, stopped, after_again,
  ndp_subscription_start, ndp_subscription_stop,
}
use ndk_sw_bachelor_thesis.Subscription.Lists.{
  is_in, Distinct, in-append, Distinct-append, in-list_del, Distinct-list_del, length-list_del,
}

pub record IsValid {H : Type 0} (n : Node H) : Type 0 where
  pub counted : n.channel.start_count ≡ length n.channel.list_subscriptions
  pub small : length n.channel.list_subscriptions < 2 ^ 32
  pub distinct : Distinct n.channel.list_subscriptions
  pub listed : (s : ℕ) → is_running (n.status s) ≡ is_in s n.channel.list_subscriptions
  pub locked : (s : ℕ) → n.channel.locked_sub ≡ some s → is_in s n.channel.list_subscriptions ≡ true

-- What the invariant reads of a channel is left alone.
pub record Same {H : Type 0} (c d : Channel H) : Type 0 where
  pub same_list : d.list_subscriptions ≡ c.list_subscriptions
  pub same_count : d.start_count ≡ c.start_count
  pub same_mask : d.ptrmask ≡ c.ptrmask
  pub same_type : d.is_tx ≡ c.is_tx

-- `sub` has joined.
pub record Joined {H : Type 0} (sub : ℕ) (c d : Channel H) : Type 0 where
  pub longer : d.list_subscriptions ≡ c.list_subscriptions ++ (sub ∷ [])
  pub more : d.start_count ≡ inc32 c.start_count
  pub lock_kept : d.locked_sub ≡ c.locked_sub
  pub mask_kept : d.ptrmask ≡ c.ptrmask
  pub type_kept : d.is_tx ≡ c.is_tx

-- `sub` has left.
pub record Left {H : Type 0} (sub : ℕ) (c d : Channel H) : Type 0 where
  pub shorter : d.list_subscriptions ≡ list_del sub c.list_subscriptions
  pub less : d.start_count ≡ dec32 c.start_count
  pub lock_dropped : d.locked_sub ≡ (if is_sub c.locked_sub sub then none else c.locked_sub)
  pub mask_left : d.ptrmask ≡ c.ptrmask
  pub type_left : d.is_tx ≡ c.is_tx

module _ {H : Type 0} (ops : ChannelOps H) where
  pub start-Joined :
      (sub : ℕ) (p : Pointers) (c : Channel H)
      → (ndp_channel_start ops sub p c).0 ≡ ok
      → Joined sub c (ndp_channel_start ops sub p c).2
  unfolding ndp_channel_start
  start-Joined sub p c e = ground arith

  pub start-Same :
      (sub : ℕ) (p : Pointers) (c : Channel H)
      → (ndp_channel_start ops sub p c).0 ≢ ok
      → Same c (ndp_channel_start ops sub p c).2
  unfolding ndp_channel_start
  start-Same sub p c e = ground arith

  pub stop-Left :
      (sub : ℕ) (force : Bool) (c : Channel H)
      → (ndp_channel_stop ops sub force c).0 ≢ err eagain
      → Left sub c (ndp_channel_stop ops sub force c).1
  unfolding ndp_channel_stop
  stop-Left sub force c e = ground arith

  pub stop-Same :
      (sub : ℕ) (force : Bool) (c : Channel H)
      → (ndp_channel_stop ops sub force c).0 ≡ err eagain
      → Same c (ndp_channel_stop ops sub force c).1
  unfolding ndp_channel_stop
  stop-Same sub force c e = ground arith

  pub stop-again_lock :
      (sub : ℕ) (force : Bool) (c : Channel H)
      → (ndp_channel_stop ops sub force c).0 ≡ err eagain
      → (ndp_channel_stop ops sub force c).1.locked_sub
        ≡ (if is_sub c.locked_sub sub then none else c.locked_sub)
  unfolding ndp_channel_stop
  stop-again_lock sub force c e = ground arith

pub Same-IsValid :
    {H : Type 0} (n : Node H) (pointers : ℕ → Pointers) (d : Channel H)
    → Same n.channel d
    → ((s : ℕ) → d.locked_sub ≡ some s → is_in s n.channel.list_subscriptions ≡ true)
    → IsValid n
    → IsValid (record n { pointers = pointers; channel = d })
Same-IsValid n pointers d same lock v = record {
  counted = same.same_count ∙ v.counted ∙ ap length (sym same.same_list);
  small = rw same.same_list v.small;
  distinct = rw same.same_list v.distinct;
  listed = λ s. rw same.same_list (v.listed s);
  locked = λ s e. rw same.same_list (lock s e);
}

Joined-IsValid :
    {H : Type 0} (sub : ℕ) (pointers : ℕ → Pointers) (n : Node H) (d : Channel H)
    → Joined sub n.channel d
    → is_running (n.status sub) ≡ false
    → length n.channel.list_subscriptions + 1 < 2 ^ 32
    → IsValid n
    → IsValid (record n {
      status = set_status n.status sub sub_running;
      pointers = pointers;
      channel = d;
    })
Joined-IsValid sub pointers n d j out room v =
    let list = n.channel.list_subscriptions in
    let fresh : is_in sub list ≡ false = sym (v.listed sub) ∙ out in
    record {
      counted = ground (arith, v.counted, j.more, j.longer, length-append list (sub ∷ []));
      small = rw j.longer (omega (arith, length-append list (sub ∷ [])));
      distinct = rw j.longer (Distinct-append sub list fresh v.distinct);
      listed = λ s. rw j.longer (ground (arith, in-append s sub list, v.listed s));
      locked = λ s e.
          rw j.longer (ground (arith, in-append s sub list, v.locked s (sym j.lock_kept ∙ e)));
    }

dec_pred : (c m n : ℕ) → m + 1 ≡ n → n < 2 ^ 32 → c ≡ n → dec32 c ≡ m
dec_pred c m n e h p = omega arith

Left-IsValid :
    {H : Type 0} (sub : ℕ) (n : Node H) (d : Channel H)
    → Left sub n.channel d
    → is_running (n.status sub) ≡ true
    → IsValid n
    → IsValid (stopped sub d n)
unfolding stopped
Left-IsValid sub n d l running v =
    let list = n.channel.list_subscriptions in
    let one : length (list_del sub list) + 1 ≡ length list =
      length-list_del sub list (sym (v.listed sub) ∙ running) in
    record {
      counted = l.less ∙ dec_pred _ _ _ one v.small v.counted ∙ ap length (sym l.shorter);
      small = rw l.shorter (omega (arith, one));
      distinct = rw l.shorter (Distinct-list_del sub list v.distinct);
      listed = λ s. rw l.shorter (ground (arith, in-list_del s sub list v.distinct, v.listed s));
      locked = λ s e.
          rw l.shorter
            (ground (arith, in-list_del s sub list v.distinct, v.locked s, l.lock_dropped, e));
    }

not_running : (s : SubStatus) → is_subscribed s ≡ true → is_running s ≡ false
not_running s e = ground arith

module _ {H : Type 0} (ops : ChannelOps H) where
  pub start-lock :
      (sub : ℕ) (p : Pointers) (c : Channel H)
      → (ndp_channel_start ops sub p c).2.locked_sub ≡ c.locked_sub
  unfolding ndp_channel_start
  start-lock sub p c = ground arith

  pub stop_answers :
      (sub : ℕ) (force : Bool) (c : Channel H)
      → ((ndp_channel_stop ops sub force c).0 ≡ ok)
        ⊎ ((ndp_channel_stop ops sub force c).0 ≡ err eagain)
  unfolding ndp_channel_stop
  stop_answers sub force c = ground arith

  -- `ndp_subscription_start` keeps the invariant, whatever the controller answers. The premise is that
  -- fewer than 2^32 - 1 subscriptions run.
  pub start-IsValid :
      (sub : ℕ) (sync : Sync) (n : Node H)
      → length n.channel.list_subscriptions + 1 < 2 ^ 32
      → IsValid n
      → IsValid (ndp_subscription_start ops sub sync n).2
  unfolding ndp_subscription_start
  start-IsValid sub sync n room v = elim (Bool-cases (is_subscribed (n.status sub))) [
    | inr other ↦ rw (other, ndp_subscription_start) v
    | inl ready ↦ elim (Status-cases (ndp_channel_start ops sub (n.pointers sub) n.channel).0) [
      | inl done ↦
          rw (ready, done, ndp_subscription_start)
            (Joined-IsValid sub _ n _ (start-Joined ops sub (n.pointers sub) n.channel done)
              (not_running (n.status sub) ready) room v)
      | inr (e, failed) ↦
          rw (ready, failed, ndp_subscription_start)
            (Same-IsValid n n.pointers _ (start-Same ops sub (n.pointers sub) n.channel (λ d. cc))
              (λ s l. v.locked s (sym (start-lock sub (n.pointers sub) n.channel) ∙ l)) v)
    ]
  ]

  -- The channel of a stop that the controller puts off.
  again-IsValid :
      (sub : ℕ) (force : Bool) (n : Node H)
      → (ndp_channel_stop ops sub force n.channel).0 ≡ err eagain
      → IsValid n
      → IsValid (record n { channel = (ndp_channel_stop ops sub force n.channel).1 })
  again-IsValid sub force n e v =
      Same-IsValid n n.pointers _ (stop-Same ops sub force n.channel e)
        (λ s l. ground (arith, v.locked s, stop-again_lock ops sub force n.channel e)) v

  module _ (forced_stops : (h : H) → (ops.stop_hw true h).0 ≢ err eagain) where
    pub forced_done : (sub : ℕ) (c : Channel H) → (ndp_channel_stop ops sub true c).0 ≢ err eagain
    unfolding ndp_channel_stop
    forced_done sub c = ground (arith, forced_stops c.hw)

    again_cases :
        (sub : ℕ) (force : Bool) (n : Node H)
        → is_running (n.status sub) ≡ true
        → (ndp_channel_stop ops sub false n.channel).0 ≡ err eagain
        → IsValid n
        → IsValid (after_again ops sub force n).1
    unfolding after_again stopped
    again_cases sub false n running again v = again-IsValid sub false n again v
    again_cases sub true n running again v =
        let c = (ndp_channel_stop ops sub false n.channel).1 in
        Left-IsValid sub (record n { channel = c }) (ndp_channel_stop ops sub true c).1
          (stop-Left ops sub true c (forced_done sub c)) running (again-IsValid sub false n again v)

    -- `ndp_subscription_stop` keeps the invariant, also where the controller first answers EAGAIN and is
    -- then forced. The premise is that a forced stop of the controller does not answer EAGAIN.
    pub stop-IsValid :
        (sub : ℕ) (force : Bool) (n : Node H)
        → IsValid n
        → IsValid (ndp_subscription_stop ops sub force n).1
    unfolding ndp_subscription_stop
    stop-IsValid sub force n v = elim (Bool-cases (is_running (n.status sub))) [
      | inr idle ↦ rw (idle, ndp_subscription_stop) v
      | inl running ↦ elim (stop_answers sub false n.channel) [
        | inl done ↦
            rw (running, done, ndp_subscription_stop)
              (Left-IsValid sub n _ (stop-Left ops sub false n.channel (λ e. cc)) running v)
        | inr again ↦
            rw (running, again, ndp_subscription_stop) (again_cases sub force n running again v)
      ]
    ]
