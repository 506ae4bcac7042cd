-- ===== src/Subscription/Handover.antt =====
-- Starts and stops of subscription.c on a TX channel, and who may write afterwards.
use ndk_sw_bachelor_thesis.Common.{
  ℕ, ◌^◌, ◌<◌, ◌≡◌, ◌≢◌, ◌∙◌, Bool, true, false, none, some, ok, err, eagain, arith, ◌==◌, inl, inr,
  Bool-cases, Status-cases,
}
use ndk_sw_bachelor_thesis.Channel.{
  ChannelOps, Channel, Pointers, Sync, ndp_channel_start, ndp_channel_stop,
}
use ndk_sw_bachelor_thesis.Channel.Exchange.{update}
use ndk_sw_bachelor_thesis.Channel.Exchange.Send.{window, distance_self}
use ndk_sw_bachelor_thesis.Subscription.{
  sub_running, sub_subscribed, is_running, is_subscribed, Node, set_status, stopped, after_again,
  ndp_subscription_start, ndp_subscription_stop,
}
use ndk_sw_bachelor_thesis.Subscription.Invariant.{
  start-Joined, start-Same, start-lock, stop-Left, stop_answers, stop-again_lock, stop-Same,
}
use ndk_sw_bachelor_thesis.Subscription.Writers.{OneWriter}

stopped_runs : is_running sub_subscribed ≢ true
stopped_runs e = cc

module _ {H : Type 0} (ops : ChannelOps H) (k : ℕ) where
  start_empty :
      (sub : ℕ) (p : Pointers) (c : Channel H)
      → (ndp_channel_start ops sub p c).0 ≡ ok
      → (ndp_channel_start ops sub p c).1.sub_swptr ≡ (ndp_channel_start ops sub p c).1.sub_hwptr
  unfolding ndp_channel_start
  start_empty sub p c e = ground arith

  module _ (start_word : (h : H) → (ops.start_hw h).1 < 2 ^ 64) where
    start_in_word :
        (sub : ℕ) (p : Pointers) (c : Channel H)
        → c.swptr < 2 ^ 64
        → (ndp_channel_start ops sub p c).2.swptr < 2 ^ 64
    unfolding ndp_channel_start
    start_in_word sub p c h = ground (arith, start_word c.hw)

    started-OneWriter :
        (sub : ℕ) (n : Node H)
        → (ndp_channel_start ops sub (n.pointers sub) n.channel).0 ≡ ok
        → OneWriter k n
        → OneWriter k (record n {
          status = set_status n.status sub sub_running;
          pointers = update n.pointers sub (ndp_channel_start ops sub (n.pointers sub) n.channel).1;
          channel = (ndp_channel_start ops sub (n.pointers sub) n.channel).2;
        })
    started-OneWriter sub n done w =
        let p = n.pointers sub in
        let c = n.channel in
        let j = start-Joined ops sub p c done in
        record {
          sends = j.type_kept ∙ w.sends;
          ring = j.mask_kept ∙ w.ring;
          in_word = start_in_word sub p c w.in_word;
          owned = λ s r. rw j.mask_kept (elim (Bool-cases (s == sub)) [
            | inl e ↦ rw e (
                inl (
                  rw (start_empty sub p c done)
                    (distance_self c.ptrmask (ndp_channel_start ops sub p c).1.sub_hwptr)))
            | inr e ↦ rw e (elim (w.owned s (rw e at r)) [
              | inl z ↦ inl z
              | inr l ↦ inr (start-lock ops sub p c ∙ l)
            ])
          ]);
        }

    failed-OneWriter :
        (sub : ℕ) (n : Node H)
        → (ndp_channel_start ops sub (n.pointers sub) n.channel).0 ≢ ok
        → OneWriter k n
        → OneWriter k
            (record n { channel = (ndp_channel_start ops sub (n.pointers sub) n.channel).2 })
    failed-OneWriter sub n failed w =
        let same = start-Same ops sub (n.pointers sub) n.channel failed in
        record {
          sends = same.same_type ∙ w.sends;
          ring = same.same_mask ∙ w.ring;
          in_word = start_in_word sub (n.pointers sub) n.channel w.in_word;
          owned = λ s r. rw same.same_mask (elim (w.owned s r) [
            | inl z ↦ inl z
            | inr l ↦ inr (start-lock ops sub (n.pointers sub) n.channel ∙ l)
          ]);
        }

    -- A start keeps the single writer. The premise is that the controller reports a 64-bit pointer.
    start-OneWriter :
        (sub : ℕ) (sync : Sync) (n : Node H)
        → OneWriter k n
        → OneWriter k (ndp_subscription_start ops sub sync n).2
    unfolding ndp_subscription_start
    start-OneWriter sub sync n w = elim (Bool-cases (is_subscribed (n.status sub))) [
      | inr other ↦ rw (other, ndp_subscription_start) w
      | inl ready ↦ elim (Status-cases (ndp_channel_start ops sub (n.pointers sub) n.channel).0) [
        | inl done ↦ rw (ready, done, ndp_subscription_start) (started-OneWriter sub n done w)
        | inr (e, failed) ↦
            rw (ready, failed, ndp_subscription_start) (failed-OneWriter sub n (λ d. cc) w)
      ]
    ]

  stop_swptr :
      (sub : ℕ) (force : Bool) (c : Channel H)
      → (ndp_channel_stop ops sub force c).1.swptr ≡ c.swptr
  unfolding ndp_channel_stop
  stop_swptr sub force c = ground arith

  stopped-OneWriter :
      (sub : ℕ) (n : Node H)
      → (ndp_channel_stop ops sub false n.channel).0 ≢ err eagain
      → OneWriter k n
      → OneWriter k (stopped sub (ndp_channel_stop ops sub false n.channel).1 n)
  unfolding stopped
  stopped-OneWriter sub n e w =
      let l = stop-Left ops sub false n.channel e in
      record {
        sends = l.type_left ∙ w.sends;
        ring = l.mask_left ∙ w.ring;
        in_word = rw (stop_swptr sub false n.channel) w.in_word;
        owned = λ s r. rw l.mask_left (elim (Bool-cases (s == sub)) [
          | inl own ↦ absurd (stopped_runs (rw own at r))
          | inr other ↦ elim (w.owned s (rw other at r)) [
            | inl z ↦ inl z
            | inr held ↦ inr (ground (arith, l.lock_dropped, held))
          ]
        ]);
      }

  -- A stop that ends the subscription keeps the single writer.
  pub stop-OneWriter :
      (sub : ℕ) (n : Node H)
      → (ndp_channel_stop ops sub false n.channel).0 ≢ err eagain
      → OneWriter k n
      → OneWriter k (ndp_subscription_stop ops sub false n).1
  unfolding ndp_subscription_stop
  stop-OneWriter sub n e w = elim (Bool-cases (is_running (n.status sub))) [
    | inr idle ↦ rw (idle, ndp_subscription_stop) w
    | inl running ↦ elim (stop_answers ops sub false n.channel) [
      | inl done ↦ rw (running, done, ndp_subscription_stop) (stopped-OneWriter sub n e w)
      | inr again ↦ absurd (e again)
    ]
  ]

-- A stop that the controller puts off with EAGAIN leaves the subscription running, with the window that
-- it had, and takes the lock from it all the same: another subscription can now lock the same slots.
put_off_unlocks :
    {H : Type 0} (ops : ChannelOps H) (sub : ℕ) (n : Node H)
    → is_running (n.status sub) ≡ true
    → n.channel.locked_sub ≡ some sub
    → (ndp_channel_stop ops sub false n.channel).0 ≡ err eagain
    → let m = (ndp_subscription_stop ops sub false n).1 in
      (is_running (m.status sub) ≡ true)
      × (window m.channel.ptrmask (m.pointers sub) ≡ window n.channel.ptrmask (n.pointers sub))
      × (m.channel.locked_sub ≡ none)
unfolding ndp_subscription_stop after_again
put_off_unlocks ops sub n running locked again =
    ground (
      arith,
      stop-again_lock ops sub false n.channel again,
      stop-Same ops sub false n.channel again,
    )
