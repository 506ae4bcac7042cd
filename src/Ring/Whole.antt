-- ===== src/Ring/Whole.antt =====
-- An NDP ring (ndp/ring.c) is whole or absent after a resizing, and what is live is what it stands on.
use ndk_sw_bachelor_thesis.Common.{
  ℕ, ◌≡◌, refl, ap, sym, subst, ◌∙◌, ◌⊎◌, inl, inr, Bool, true, false, not, some, [], ◌++◌, ◌==◌,
  if◌then◌else◌, Status, Errno, ok, err, ebusy, ebadf, arith,
}
use ndk_sw_bachelor_thesis.Ring.{
  Ring, Kernel, Entries, Outcome, no_ring, ring_of, ndp_channel_ring_create,
  ndp_channel_ring_destroy, ndp_channel_ring_resize,
}
use ndk_sw_bachelor_thesis.Ring.Blocks.{replay, then_replay, replay-append}
use ndk_sw_bachelor_thesis.Ring.Created.{
  live, IsWhole, Created, create-Created, destroy_lem, Created-IsWhole,
}

-- By the answer: the ring that was requested, or the one there was, or none.
abbrev pub ResizedTo : Ring → ℕ → ℕ → Outcome → Status → Type 0
ResizedTo ring count size o ok = o.ring ≡ (if count == 0 then no_ring else ring_of count size)
ResizedTo ring count size o (err e) = (o.ring ≡ ring) ⊎ (o.ring ≡ no_ring)

-- The ring afterwards, and what is live.
abbrev pub Resized : Ring → ℕ → ℕ → Outcome → Type 0
Resized ring count size o =
    IsWhole o.ring
    × (replay o.entries (live ring) ≡ some (live o.ring))
    × ResizedTo ring count size o o.ret

ring_again :
    (ring : Ring)
    → IsWhole ring
    → ring.block_count == 0 ≡ false
    → ring_of ring.block_count ring.block_size ≡ ring
ring_again ring (inl absent) e = absurd (ground (arith, e, ap (λ (r : Ring). r.block_count) absent))
ring_again ring (inr (count, size, hc, hs, is)) e =
    subst (λ (r : Ring). ring_of r.block_count r.block_size ≡ r) (sym is) refl

again_ring :
    (ring : Ring) (o : Outcome) (ret : Status)
    → IsWhole ring
    → ring.block_count == 0 ≡ false
    → Created ring.block_count ring.block_size o ret
    → (o.ring ≡ ring) ⊎ (o.ring ≡ no_ring)
again_ring ring o (err e) whole asked (balanced, gone) = inr gone
again_ring ring o ok whole asked (balanced, is, few) =
    let same : (if ring.block_count == 0 then no_ring else ring_of ring.block_count ring.block_size)
        ≡ ring_of ring.block_count ring.block_size =
      either (ring.block_count == 0) asked in
    inl (is ∙ same ∙ ring_again ring whole asked)
  where
    either :
        (test : Bool)
        → test ≡ false
        → (if test then no_ring else ring_of ring.block_count ring.block_size)
          ≡ ring_of ring.block_count ring.block_size
    either true e = absurd (ground (arith, e))
    either false e = refl

abbrev resized : Ring → Entries → (created again : Outcome) → Status → Outcome
resized ring freed created again ret = elim ret [
  | ok ↦ record { ret = ok; ring = created.ring; entries = freed ++ created.entries }
  | err e ↦
      if ring.block_count == 0
      then record { ret = err e; ring = created.ring; entries = freed ++ created.entries }
      else record {
        ret = err e;
        ring = again.ring;
        entries = freed ++ created.entries ++ again.entries;
      }
]

module _ (ring : Ring) (whole : IsWhole ring) (freed : Entries)
    (gone : replay freed (live ring) ≡ some []) where
  one_more :
      (entries : Entries) (found : Ring)
      → replay entries [] ≡ some (live found)
      → replay (freed ++ entries) (live ring) ≡ some (live found)
  one_more entries found e =
      replay-append freed entries (live ring) ∙ ap (then_replay entries) gone ∙ e

  ring_after :
      (count size : ℕ) (created again : Outcome) (ret : Status)
      → Created count size created ret
      → ((e : Errno) → ret ≡ err e → Created ring.block_count ring.block_size again again.ret)
      → Resized ring count size (resized ring freed created again ret)
  ring_after count size created again ok c later =
      let (is_whole, balanced) = Created-IsWhole count size created ok c in
      (is_whole, one_more created.entries created.ring balanced, c.1)
  ring_after count size created again (err e) c later =
      either (ring.block_count == 0) refl (Created-IsWhole count size created (err e) c)
        (Created-IsWhole ring.block_count ring.block_size again again.ret (later e refl))
    where
      either :
          (test : Bool)
          → ring.block_count == 0 ≡ test
          → IsWhole created.ring × (replay created.entries [] ≡ some (live created.ring))
          → IsWhole again.ring × (replay again.entries [] ≡ some (live again.ring))
          → Resized ring count size (
              if test
              then record { ret = err e; ring = created.ring; entries = freed ++ created.entries }
              else record {
                ret = err e;
                ring = again.ring;
                entries = freed ++ created.entries ++ again.entries;
              })
      either true t (w, b) (w', b') = (w, one_more created.entries created.ring b, inr (c.1))
      either false t (w, b) (w', b') = (
        w',
        replay-append (freed ++ created.entries) again.entries (live ring)
            ∙ ap (then_replay again.entries) (
                replay-append freed created.entries (live ring)
                ∙ ap (then_replay created.entries) gone
                ∙ c.0)
            ∙ b',
        again_ring ring again again.ret whole t (later e refl),
      )

-- A creation where there is no ring.
from_none :
    (kernel : Kernel) (ring : Ring) (count size : ℕ)
    → ring ≡ no_ring
    → Created count size
        (ndp_channel_ring_create kernel ring true count size)
        (ndp_channel_ring_create kernel ring true count size).ret
from_none kernel ring count size empty =
    subst
      (λ (r : Ring).
        Created count size (ndp_channel_ring_create kernel r true count size)
          (ndp_channel_ring_create kernel r true count size).ret)
      (sym empty) (create-Created kernel count size)

-- A resizing leaves the ring whole or absent, gives back what the old ring stood on and keeps what the new one stands on,
-- whatever fails. Answered with 0, the ring is the one requested; with an error, it is as before or absent. The ring was
-- whole or absent before.
pub resize-Resized :
    (first second : Kernel) (ring : Ring) (has_device : Bool)
    (start_count block_count block_size : ℕ)
    → IsWhole ring
    → Resized ring block_count block_size
        (ndp_channel_ring_resize first second ring has_device start_count block_count block_size)
unfolding ndp_channel_ring_resize
resize-Resized first second ring false start_count block_count block_size whole =
    either (start_count == 0)
  where
    either :
        (idle : Bool)
        → Resized ring block_count block_size (
            if not idle
            then record { ret = err ebusy; ring = ring; entries = [] }
            else record { ret = err ebadf; ring = ring; entries = [] })
    either true = (whole, refl, inl refl)
    either false = (whole, refl, inl refl)
resize-Resized first second ring true start_count block_count block_size whole =
    let (empty, gone) = destroy_lem ring whole in
    let created =
      ndp_channel_ring_create first (ndp_channel_ring_destroy ring).0 true block_count block_size in
    let again = ndp_channel_ring_create second created.ring true ring.block_count ring.block_size in
    let made : Created block_count block_size created created.ret =
      from_none first (ndp_channel_ring_destroy ring).0 block_count block_size empty in
    either (start_count == 0)
      (resized ring (ndp_channel_ring_destroy ring).1 created again created.ret)
      (ring_after ring whole (ndp_channel_ring_destroy ring).1 gone block_count block_size created
        again created.ret made
        (λ e q.
          let failed : Created block_count block_size created (err e) =
            subst (Created block_count block_size created) q made in
          from_none second created.ring ring.block_count ring.block_size failed.1))
  where
    either :
        (idle : Bool) (o : Outcome)
        → Resized ring block_count block_size o
        → Resized ring block_count block_size
            (if not idle then record { ret = err ebusy; ring = ring; entries = [] } else o)
    either true o h = h
    either false o h = (whole, refl, inl refl)
