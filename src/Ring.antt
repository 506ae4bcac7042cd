-- ===== src/Ring.antt =====
-- drivers/kernel/drivers/nfb/ndp/ring.c: the memory of an NDP ring, a number of blocks of one size, and its mapping into a
-- process. Whether memory, mappings and registrations can be had is decided by the kernel, the parameter `Kernel`; the
-- attachment is the operation of the channel (Controller/Attach), of which the result counts here. Counts of blocks
-- are below `2 ^ 31` and sizes of rings below `2 ^ 63`, as the C types hold them.
pub mod Blocks
pub mod Created
pub mod Whole
pub mod Shadow
mod Tests
use ndk_sw_bachelor_thesis.Common.{
  ℕ, zero, suc, ◌+◌, ◌-◌, ◌*◌, ◌/◌, ◌%◌, ◌^◌, bit_and, ◌<◌, Bool, true, false, not, ◌&&◌, ◌||◌,
  Option, none, some, List, [], ◌∷◌, ◌++◌, ◌==◌, ltb, leb, if◌then◌else◌, Status, ok, err, einval,
  enomem, ebusy, ebadf,
}
use ndk_sw_bachelor_thesis.Common.Ledger.{Entry, taken, given}

pub data Resource : Type 0 where
  block : ℕ → Resource
  block_array ring_vmap ring_mmap attachment : Resource

-- `struct ndp_ring`, and the size of a block
pub record Ring : Type 0 where
  pub size : ℕ
  pub mmap_size : ℕ
  pub block_count : ℕ
  pub block_size : ℕ

pub record Kernel : Type 0 where
  pub block_grant : ℕ → Bool
  pub array_grant : Bool
  pub pages_grant : Bool
  pub vmap_grant : Bool
  pub register : Status
  pub attach : Status

abbrev pub Entries : Type 0
Entries = List (Entry Resource)

abbrev pub no_ring : Ring
no_ring = record { size = 0; mmap_size = 0; block_count = 0; block_size = 0 }

-- `while (block-- != blocks)`: the blocks before the `i`-th, backwards
unfoldable pub free_back : ℕ → Entries
free_back zero = given block_array ∷ []
free_back (suc i) = given (block i) ∷ free_back i

-- The loop over the blocks, from the `i`-th on.
unfoldable pub block_loop : (ℕ → Bool) → ℕ → ℕ → Bool × Entries
unfolding free_back
block_loop grant zero i = (true, [])
block_loop grant (suc rounds) i =
    let (success, entries) = block_loop grant rounds (i + 1) in
    if grant i then (success, taken (block i) ∷ entries) else (false, free_back i)

unfoldable pub ndp_block_alloc : Kernel → ℕ → ℕ → Bool × Entries
ndp_block_alloc kernel count size =
    let (success, entries) = block_loop kernel.block_grant count 0 in
    if count == 0 || size == 0 || not kernel.array_grant
    then (false, [])
    else (success, taken block_array ∷ entries)

-- The blocks from the `i`-th on, and the array of them.
unfoldable pub free_blocks : ℕ → ℕ → Entries
free_blocks zero i = given block_array ∷ []
free_blocks (suc rounds) i = given (block i) ∷ free_blocks rounds (i + 1)

abbrev pub ndp_block_free : ℕ → Entries
ndp_block_free count = free_blocks count 0

pub record Outcome : Type 0 where
  pub ret : Status
  pub ring : Ring
  pub entries : Entries

abbrev pub ring_of : ℕ → ℕ → Ring
ring_of count size = record {
  size = count * size;
  mmap_size = 2 * (count * size);
  block_count = count;
  block_size = size;
}

unfoldable pub ndp_channel_ring_alloc : Kernel → ℕ → ℕ → Outcome
unfolding ndp_block_alloc free_blocks
ndp_channel_ring_alloc kernel count size =
    let (success, entries) = ndp_block_alloc kernel count size in
    if not success
    then record { ret = err enomem; ring = no_ring; entries = entries }
    else (if not (kernel.pages_grant && kernel.vmap_grant)
        then record { ret = err enomem; ring = no_ring; entries = entries ++ ndp_block_free count }
        else record {
          ret = ok;
          ring = ring_of count size;
          entries = entries ++ (taken ring_vmap ∷ []);
        })

abbrev pub ndp_channel_ring_free : Ring → Entries
ndp_channel_ring_free ring = given ring_vmap ∷ ndp_block_free ring.block_count

-- Behind the allocation.
abbrev pub join_ring : Kernel → Ring → Entries → Outcome
join_ring kernel ring entries = elim kernel.register [
  | err e ↦ record { ret = err e; ring = no_ring; entries = entries ++ ndp_channel_ring_free ring }
  | ok ↦ elim kernel.attach [
    | err e ↦ record {
      ret = err e;
      ring = no_ring;
      entries = entries ++ (taken ring_mmap ∷ given ring_mmap ∷ ndp_channel_ring_free ring);
    }
    | ok ↦ record {
      ret = ok;
      ring = ring;
      entries = entries ++ (taken ring_mmap ∷ taken attachment ∷ []);
    }
  ]
]

-- `ring` is what the channel has; without blocks nothing is done.
unfoldable pub ndp_channel_ring_create : Kernel → Ring → (has_device : Bool) → ℕ → ℕ → Outcome
unfolding ndp_channel_ring_alloc
ndp_channel_ring_create kernel ring has_device block_count block_size =
    let alloc = ndp_channel_ring_alloc kernel block_count block_size in
    if not has_device
    then record { ret = err einval; ring = ring; entries = [] }
    else (if block_count == 0
        then record { ret = ok; ring = ring; entries = [] }
        else elim alloc.ret [ err e ↦ alloc | ok ↦ join_ring kernel alloc.ring alloc.entries ])

unfoldable pub ndp_channel_ring_destroy : Ring → Ring × Entries
unfolding free_blocks
ndp_channel_ring_destroy ring =
    if ring.size == 0
    then (ring, [])
    else (no_ring, given ring_mmap ∷ given attachment ∷ ndp_channel_ring_free ring)

-- `second` is the kernel as the repeated creation meets it. `block_count` and `block_size` are those requested.
unfoldable pub ndp_channel_ring_resize :
    (first second : Kernel)
    → Ring
    → (has_device : Bool) → (start_count block_count block_size : ℕ) → Outcome
unfolding ndp_channel_ring_create ndp_channel_ring_destroy
ndp_channel_ring_resize first second ring has_device start_count block_count block_size =
    let (empty, freed) = ndp_channel_ring_destroy ring in
    let created = ndp_channel_ring_create first empty has_device block_count block_size in
    let again =
      ndp_channel_ring_create second created.ring has_device ring.block_count ring.block_size in
    if not (start_count == 0)
    then record { ret = err ebusy; ring = ring; entries = [] }
    else (if not has_device
        then record { ret = err ebadf; ring = ring; entries = [] }
        else elim created.ret [
          | ok ↦ record { ret = ok; ring = created.ring; entries = freed ++ created.entries }
          | err e ↦
              if ring.block_count == 0
              then record { ret = err e; ring = created.ring; entries = freed ++ created.entries }
              else record {
                ret = err e;
                ring = again.ring;
                entries = freed ++ created.entries ++ again.entries;
              }
        ])

abbrev pub ispow2 : ℕ → Bool
ispow2 val = bit_and ((val + 2 ^ 64 - 1) % 2 ^ 64) val == 0

-- What is requested for a size: the count and the size of the blocks. `default` is NDP_RING_BLOCK_SIZE_DEFAULT.
unfoldable pub ndp_channel_ring_req_block_update_by_size :
    (page_size ndp_ring_block_size default req_size : ℕ) → Option (ℕ × ℕ)
ndp_channel_ring_req_block_update_by_size page_size ndp_ring_block_size default req_size =
    let wanted = if ltb req_size ndp_ring_block_size then req_size else ndp_ring_block_size in
    let block_size = if wanted == 0 || not (ispow2 wanted) then default else wanted in
    if not (ispow2 req_size) || ltb req_size page_size
    then none
    else some (req_size / block_size, block_size)

-- `while (block_offset >= ring->size)` on fuel
unfoldable pub reduce : ℕ → ℕ → ℕ → Option ℕ
reduce zero ring_size block_offset = none
reduce (suc fuel) ring_size block_offset =
    let rest = reduce fuel ring_size (block_offset - ring_size) in
    if leb ring_size block_offset then rest else some block_offset

-- The loop of `ndp_ring_mmap` on fuel: for each part of the mapping its offset and the block that it shows.
unfoldable pub map_blocks : ℕ → Ring → ℕ → ℕ → Option (List (ℕ × ℕ))
unfolding reduce
map_blocks zero ring size offset = none
map_blocks (suc fuel) ring size offset =
    let rest = map_blocks fuel ring size (offset + ring.block_size) in
    if ltb offset size
    then elim (reduce 3 ring.size offset) [
      | none ↦ none
      | some block_offset ↦ elim rest [
        | none ↦ none
        | some others ↦ some ((offset, block_offset / ring.block_size) ∷ others)
      ]
    ]
    else some []
