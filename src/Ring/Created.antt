-- ===== src/Ring/Created.antt =====
-- What creating and destroying an NDP ring (ndp/ring.c) leaves live.
use ndk_sw_bachelor_thesis.Common.{
  ℕ, ◌*◌, ◌<◌, ◌≡◌, refl, ap, sym, subst, ◌∙◌, ◌⊎◌, inl, inr, Bool, true, false, Bool-cases, not,
  ◌&&◌, some, List, [], ◌∷◌, ◌++◌, ◌==◌, if◌then◌else◌, Status, ok, err, enomem, arith,
}
use ndk_sw_bachelor_thesis.Common.Ledger.{taken, given}
use ndk_sw_bachelor_thesis.Ring.{
  Resource, block_array, ring_vmap, ring_mmap, attachment, Ring, Kernel, Entries, Outcome, no_ring,
  ring_of, join_ring, ndp_block_alloc, ndp_block_free, ndp_channel_ring_alloc,
  ndp_channel_ring_free, ndp_channel_ring_create, ndp_channel_ring_destroy,
}
use ndk_sw_bachelor_thesis.Ring.Blocks.{
  replay, then_replay, replay-append, pile, free_blocks_lem, Allocated, block_alloc-Allocated,
}

abbrev pub memory : ℕ → List Resource
memory count = ring_vmap ∷ pile 0 count (block_array ∷ [])

-- What a ring stands on.
abbrev pub live : Ring → List Resource
live ring = if ring.size == 0 then [] else attachment ∷ ring_mmap ∷ memory ring.block_count

-- Absent, or of some blocks of some size.
abbrev pub IsWhole : Ring → Type 0
IsWhole ring =
    (ring ≡ no_ring)
    ⊎ ((count : ℕ) × (size : ℕ) × (0 < count) × (0 < size) × (ring ≡ ring_of count size))

abbrev RingAllocated : ℕ → ℕ → Outcome → Status → Type 0
RingAllocated count size o ok =
    (0 < count)
    × (0 < size)
    × (o.ring ≡ ring_of count size)
    × (replay o.entries [] ≡ some (memory count))
RingAllocated count size o (err e) = (o.ring ≡ no_ring) × (replay o.entries [] ≡ some [])

ring_alloc-RingAllocated :
    (kernel : Kernel) (count size : ℕ)
    → RingAllocated count size
        (ndp_channel_ring_alloc kernel count size)
        (ndp_channel_ring_alloc kernel count size).ret
unfolding ndp_channel_ring_alloc
ring_alloc-RingAllocated kernel count size =
    by_blocks (ndp_block_alloc kernel count size) (block_alloc-Allocated kernel count size)
      (kernel.pages_grant && kernel.vmap_grant)
  where
    by_blocks :
        (r : Bool × Entries)
        → Allocated count size r
        → (mapped : Bool)
        → (let o : Outcome =
              (if not r.0
                then record { ret = err enomem; ring = no_ring; entries = r.1 }
                else (if not mapped
                    then record {
                      ret = err enomem;
                      ring = no_ring;
                      entries = r.1 ++ ndp_block_free count;
                    }
                    else record {
                      ret = ok;
                      ring = ring_of count size;
                      entries = r.1 ++ (taken ring_vmap ∷ []);
                    })) in
            RingAllocated count size o o.ret)
    by_blocks (false, entries) a mapped = (refl, a)
    by_blocks (true, entries) (hc, hs, a) true = (
      hc,
      hs,
      refl,
      replay-append entries (taken ring_vmap ∷ []) [] ∙ ap (then_replay (taken ring_vmap ∷ [])) a,
    )
    by_blocks (true, entries) (hc, hs, a) false = (
      refl,
      replay-append entries (ndp_block_free count) []
          ∙ ap (then_replay (ndp_block_free count)) a
          ∙ free_blocks_lem count 0 [],
    )

ring_free_lem :
    (count size : ℕ) → replay (ndp_channel_ring_free (ring_of count size)) (memory count) ≡ some []
ring_free_lem count size = free_blocks_lem count 0 []

live_whole :
    (count size : ℕ)
    → 0 < count
    → 0 < size
    → live (ring_of count size) ≡ attachment ∷ ring_mmap ∷ memory count
live_whole count size hc hs =
    let positive : 0 < count * size = grind arith in
    let e : count * size == 0 ≡ false = ground (arith, positive) in rw e refl

-- The ring that is there after a creation in place of none, by its answer.
abbrev pub Created : ℕ → ℕ → Outcome → Status → Type 0
Created count size o ok =
    (replay o.entries [] ≡ some (live o.ring))
    × (o.ring ≡ (if count == 0 then no_ring else ring_of count size))
    × ((count ≡ 0) ⊎ (0 < size))
Created count size o (err e) = (replay o.entries [] ≡ some []) × (o.ring ≡ no_ring)

join-Created :
    (kernel : Kernel) (count size : ℕ) (entries : Entries)
    → 0 < count
    → 0 < size
    → replay entries [] ≡ some (memory count)
    → Created count size
        (join_ring kernel (ring_of count size) entries)
        (join_ring kernel (ring_of count size) entries).ret
join-Created kernel count size entries hc hs e = by_register kernel.register kernel.attach
  where
    continued : (more : Entries) → replay (entries ++ more) [] ≡ replay more (memory count)
    continued more = replay-append entries more [] ∙ ap (then_replay more) e

    by_register :
        (register attach : Status)
        → (let o : Outcome = (elim register [
          | err e ↦ record {
            ret = err e;
            ring = no_ring;
            entries = entries ++ ndp_channel_ring_free (ring_of count size);
          }
          | ok ↦ elim attach [
            | err e ↦ record {
              ret = err e;
              ring = no_ring;
              entries =
                  entries
                  ++ (taken ring_mmap
                      ∷ given ring_mmap
                      ∷ ndp_channel_ring_free (ring_of count size));
            }
            | ok ↦ record {
              ret = ok;
              ring = ring_of count size;
              entries = entries ++ (taken ring_mmap ∷ taken attachment ∷ []);
            }
          ]
        ]) in
            Created count size o o.ret)
    by_register (err e) attach =
        (continued (ndp_channel_ring_free (ring_of count size)) ∙ ring_free_lem count size, refl)
    by_register ok (err e) = (
      continued (taken ring_mmap ∷ given ring_mmap ∷ ndp_channel_ring_free (ring_of count size))
          ∙ ring_free_lem count size,
      refl,
    )
    by_register ok ok =
        let some_blocks : count == 0 ≡ false = ground (arith, hc) in
        (
          continued (taken ring_mmap ∷ taken attachment ∷ [])
              ∙ ap some (sym (live_whole count size hc hs)),
          rw some_blocks refl,
          inr hs,
        )

pub create-Created :
    (kernel : Kernel) (count size : ℕ)
    → Created count size
        (ndp_channel_ring_create kernel no_ring true count size)
        (ndp_channel_ring_create kernel no_ring true count size).ret
unfolding ndp_channel_ring_create
create-Created kernel count size = by_test (count == 0) _ refl (
    by_alloc (ndp_channel_ring_alloc kernel count size)
      (ndp_channel_ring_alloc kernel count size).ret refl
      (ring_alloc-RingAllocated kernel count size))
  where
    by_alloc :
        (alloc : Outcome) (ret : Status)
        → alloc.ret ≡ ret
        → RingAllocated count size alloc ret
        → (let o : Outcome = (elim ret [
          | err e ↦ alloc
          | ok ↦ join_ring kernel alloc.ring alloc.entries
        ]) in
            Created count size o o.ret)
    by_alloc alloc (err e) eq (gone, balanced) =
        subst (Created count size alloc) (sym eq) (balanced, gone)
    by_alloc alloc ok eq (hc, hs, is, e) =
        subst
          (λ r.
            Created count size (join_ring kernel r alloc.entries)
              (join_ring kernel r alloc.entries).ret)
          (sym is) (join-Created kernel count size alloc.entries hc hs e)

    by_test :
        (test : Bool) (other : Outcome)
        → count == 0 ≡ test
        → Created count size other other.ret
        → (let o : Outcome =
              (if test then record { ret = ok; ring = no_ring; entries = [] } else other) in
            Created count size o o.ret)
    by_test true other e h = (refl, ground (arith, e), inl (ground (arith, e)))
    by_test false other e h = h

pub destroy_lem :
    (ring : Ring)
    → IsWhole ring
    → ((ndp_channel_ring_destroy ring).0 ≡ no_ring)
      × (replay (ndp_channel_ring_destroy ring).1 (live ring) ≡ some [])
unfolding ndp_channel_ring_destroy
destroy_lem ring (inl absent) =
    subst
      (λ (r : Ring).
        ((ndp_channel_ring_destroy r).0 ≡ no_ring)
        × (replay (ndp_channel_ring_destroy r).1 (live r) ≡ some []))
      (sym absent) (refl, refl)
destroy_lem ring (inr (count, size, hc, hs, is)) =
    let positive : 0 < count * size = grind arith in
    let e : count * size == 0 ≡ false = ground (arith, positive) in
    subst
      (λ (r : Ring).
        ((ndp_channel_ring_destroy r).0 ≡ no_ring)
        × (replay (ndp_channel_ring_destroy r).1 (live r) ≡ some []))
      (sym is) (rw (e, ndp_channel_ring_destroy) (refl, ring_free_lem count size))

-- What a creation leaves is whole, and stands on what is live.
pub Created-IsWhole :
    (count size : ℕ) (o : Outcome) (ret : Status)
    → Created count size o ret
    → IsWhole o.ring × (replay o.entries [] ≡ some (live o.ring))
Created-IsWhole count size o (err e) (balanced, gone) =
    (inl gone, balanced ∙ ap (λ r. some (live r)) (sym gone))
Created-IsWhole count size o ok (balanced, is, few) = elim (Bool-cases (count == 0)) [
  | inl none_asked ↦ (inl (is ∙ ground (arith, none_asked)), balanced)
  | inr asked ↦
      let hc : 0 < count = ground (arith, asked) in
      let same : (if count == 0 then no_ring else ring_of count size) ≡ ring_of count size =
        rw asked refl in
      (inr (count, size, hc, positive hc few, is ∙ same), balanced)
]
  where
    positive : 0 < count → (count ≡ 0) ⊎ (0 < size) → 0 < size
    positive hc (inl z) = absurd (omega (arith, z, hc))
    positive hc (inr hs) = hs
