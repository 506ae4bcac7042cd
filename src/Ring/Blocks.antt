-- ===== src/Ring/Blocks.antt =====
-- The blocks of an NDP ring (ndp/ring.c) as a ledger.
use ndk_sw_bachelor_thesis.Common.{
  ℕ, zero, suc, ◌+◌, ◌<◌, ◌≡◌, refl, ap, sym, subst, ◌∙◌, inl, inr, Bool, true, false, Bool-cases,
  not, ◌||◌, Option, none, some, List, [], ◌∷◌, ◌++◌, ◌==◌, arith,
}
use ndk_sw_bachelor_thesis.Common.Ledger.{taken, given, give_back, balance}
use ndk_sw_bachelor_thesis.Ring.{
  Resource, block, block_array, ring_vmap, ring_mmap, attachment, Kernel, Entries, free_back,
  block_loop, ndp_block_alloc, free_blocks,
}

abbrev pub number : Resource → ℕ
number block_array = 0
number ring_vmap = 1
number ring_mmap = 2
number attachment = 3
number (block n) = n + 4

abbrev pub replay : Entries → List Resource → Option (List Resource)
replay = balance number

abbrev pub then_replay : Entries → Option (List Resource) → Option (List Resource)
then_replay entries none = none
then_replay entries (some live) = replay entries live

pub replay-append :
    (first second : Entries) (live : List Resource)
    → replay (first ++ second) live ≡ then_replay second (replay first live)
replay-append [] second live = refl
replay-append (taken r ∷ first) second live = replay-append first second (r ∷ live)
replay-append (given r ∷ first) second live =
    by_rest (give_back number r live) (λ rest. replay-append first second rest)
  where
    by_rest :
        (o : Option (List Resource))
        → ((rest : List Resource)
            → replay (first ++ second) rest ≡ then_replay second (replay first rest))
        → (elim o as (λ x. Option (List Resource)) [
          | none ↦ none
          | some rest ↦ replay (first ++ second) rest
        ])
          ≡ then_replay second (elim o [ none ↦ none | some rest ↦ replay first rest ])
    by_rest none later = refl
    by_rest (some rest) later = later rest

-- The live blocks from the `i`-th on, the latest first.
abbrev pub pile : ℕ → ℕ → List Resource → List Resource
pile i zero base = base
pile i (suc m) base = block (i + m) ∷ pile i m base

replay-given :
    (r : Resource) (live rest : List Resource) (entries : Entries)
    → give_back number r live ≡ some rest
    → replay (given r ∷ entries) live ≡ replay entries rest
replay-given r live rest entries e =
    ap (λ o. elim o as (λ x. Option (List Resource)) [ none ↦ none | some l ↦ replay entries l ]) e

pile-suc : (i : ℕ) (base : List Resource) → pile 0 (i + 1) base ≡ block i ∷ pile 0 i base
pile-suc i base =
    let one : i + 1 ≡ suc i = omega arith in
    let none_before : 0 + i ≡ i = omega arith in
    ap (λ n. pile 0 n base) one ∙ ap (λ n. block n ∷ pile 0 i base) none_before

give_back_top :
    (i : ℕ) (base : List Resource) → give_back number (block i) (block (0 + i) ∷ base) ≡ some base
give_back_top i base = let top : 0 + i + 4 == i + 4 ≡ true = ground arith in rw top refl

free_back_lem :
    (i : ℕ) (base : List Resource)
    → replay (free_back i) (pile 0 i (block_array ∷ base)) ≡ some base
unfolding free_back
free_back_lem zero base = refl
free_back_lem (suc i) base =
    replay-given (block i) (pile 0 (suc i) (block_array ∷ base)) (pile 0 i (block_array ∷ base))
      (free_back i) (give_back_top i (pile 0 i (block_array ∷ base)))
    ∙ free_back_lem i base

-- Every block is live in the end, or none.
abbrev pub Looped : List Resource → Option (List Resource) → Bool → Option (List Resource) → Type 0
Looped base all true o = o ≡ all
Looped base all false o = o ≡ some base

block_loop-Looped :
    (grant : ℕ → Bool) (rounds i : ℕ) (base : List Resource)
    → Looped base
        (some (pile 0 (i + rounds) (block_array ∷ base)))
        (block_loop grant rounds i).0
        (replay (block_loop grant rounds i).1 (pile 0 i (block_array ∷ base)))
unfolding block_loop
block_loop-Looped grant zero i base =
    let same : i + 0 ≡ i = omega arith in ap (λ n. some (pile 0 n (block_array ∷ base))) (sym same)
block_loop-Looped grant (suc rounds) i base = elim (Bool-cases (grant i)) [
  | inr no_memory ↦ rw (no_memory, block_loop) (free_back_lem i base)
  | inl granted ↦
      let ih = block_loop-Looped grant rounds (i + 1) base in
      let count : i + 1 + rounds ≡ i + suc rounds = omega arith in
      rw (granted, block_loop)
        (subst
          (λ n.
            Looped base (some (pile 0 n (block_array ∷ base))) (block_loop grant rounds (i + 1)).0 (
              replay (block_loop grant rounds (i + 1)).1 (block i ∷ pile 0 i (block_array ∷ base))))
          count
          (subst
            (λ l.
              Looped base (some (pile 0 (i + 1 + rounds) (block_array ∷ base)))
                (block_loop grant rounds (i + 1)).0 (replay (block_loop grant rounds (i + 1)).1 l))
            (pile-suc i (block_array ∷ base)) ih))
]

give_back_first :
    (i m : ℕ) (base : List Resource)
    → give_back number (block i) (pile i (suc m) base) ≡ some (pile (i + 1) m base)
give_back_first i zero base = let found : i + 0 + 4 == i + 4 ≡ true = ground arith in rw found refl
give_back_first i (suc m) base =
    let other : i + suc m + 4 == i + 4 ≡ false = ground arith in
    let shift : i + 1 + m ≡ i + suc m = omega arith in
    rw (other, give_back_first i m base, shift) refl

pub free_blocks_lem :
    (m i : ℕ) (base : List Resource)
    → replay (free_blocks m i) (pile i m (block_array ∷ base)) ≡ some base
unfolding free_blocks
free_blocks_lem zero i base = refl
free_blocks_lem (suc m) i base =
    replay-given (block i) (pile i (suc m) (block_array ∷ base))
      (pile (i + 1) m (block_array ∷ base)) (free_blocks m (i + 1))
      (give_back_first i m (block_array ∷ base))
    ∙ free_blocks_lem m (i + 1) base

-- The allocation: all blocks and their array, or nothing.
abbrev pub Allocated : ℕ → ℕ → Bool × Entries → Type 0
Allocated count size (true, entries) =
    (0 < count) × (0 < size) × (replay entries [] ≡ some (pile 0 count (block_array ∷ [])))
Allocated count size (false, entries) = replay entries [] ≡ some []

pub block_alloc-Allocated :
    (kernel : Kernel) (count size : ℕ) → Allocated count size (ndp_block_alloc kernel count size)
unfolding ndp_block_alloc
block_alloc-Allocated kernel count size =
    elim (Bool-cases (count == 0 || size == 0 || not kernel.array_grant)) [
      | inl e ↦ rw (e, ndp_block_alloc) refl
      | inr e ↦
          rw (e, ndp_block_alloc)
            (looped (ground (arith, e)) (ground (arith, e)) (block_loop kernel.block_grant count 0)
              (block_loop-Looped kernel.block_grant count 0 []))
    ]
  where
    looped :
        0 < count
        → 0 < size
        → (r : Bool × Entries)
        → Looped []
            (some (pile 0 (0 + count) (block_array ∷ [])))
            r.0
            (replay r.1 (block_array ∷ []))
        → Allocated count size (r.0, taken block_array ∷ r.1)
    looped hc hs (true, entries) l =
        let same : 0 + count ≡ count = omega arith in
        (hc, hs, l ∙ ap (λ n. some (pile 0 n (block_array ∷ []))) same)
    looped hc hs (false, entries) l = l
