-- ===== src/Controller/Layout.antt =====
-- drivers/kernel/drivers/nfb/ndp/ctrl_ndp.c: where the buffers of a Medusa ring lie in its blocks of memory. All
-- numbers of the configuration are words of 32 bits; the kernel's PAGE_SIZE is a parameter.
pub mod Virtual
pub mod Folded
pub mod Apart
pub mod Measured
pub mod Sizes
use ndk_sw_bachelor_thesis.Common.{
  ℕ, zero, suc, ◌+◌, ◌-◌, ◌*◌, ◌/◌, ◌%◌, ◌^◌, Bool, true, false, ◌||◌, Option, none, some, List, [],
  ◌∷◌, ◌==◌, ltb, leb, if◌then◌else◌, Status, ok, err, einval,
}

-- `struct ndp_ctrl_cfg`
pub record Cfg : Type 0 where
  pub buffer_count : ℕ
  pub buffer_size : ℕ
  pub block_count : ℕ
  pub block_size : ℕ
  pub initial_offset : ℕ

-- `struct ndp_ctrl_state_mps`
pub record StateMps : Type 0 where
  pub cfg : Cfg
  pub block_offset : ℕ
  pub block_index : ℕ
  pub buffer_index : ℕ

abbrev pub ndp_ctrl_medusa_mps_meta_first : StateMps → StateMps
ndp_ctrl_medusa_mps_meta_first s = record s {
  buffer_index = 0;
  block_offset = s.cfg.initial_offset;
  block_index = 0;
}

-- Cuts its arguments to words of 32 bits.
abbrev pub ndp_ctrl_medusa_mps_meta_init :
    (block_size block_count buffer_size buffer_count initial_offset : ℕ) → StateMps
ndp_ctrl_medusa_mps_meta_init block_size block_count buffer_size buffer_count initial_offset =
    record {
      cfg = record {
        buffer_count = buffer_count % 2 ^ 32;
        buffer_size = buffer_size % 2 ^ 32;
        block_count = block_count % 2 ^ 32;
        block_size = block_size % 2 ^ 32;
        initial_offset = initial_offset % 2 ^ 32;
      };
      block_offset = initial_offset % 2 ^ 32;
      block_index = 0;
      buffer_index = 0;
    }

-- What `ndp_ctrl_medusa_mps_inc` returns: -1, 1, 0
pub data Advance : Type 0 where
  ring_wrap next_block same_block : Advance

abbrev pub prepend : ℕ → Option (List ℕ × StateMps) → Option (List ℕ × StateMps)
prepend offset none = none
prepend offset (some (others, last)) = some (offset ∷ others, last)

-- `while (buffer_count * 2 <= target)` of `ndp_ctrl_set_ring_size`, on fuel and in 64 bits
unfoldable pub double_until : ℕ → ℕ → ℕ → Option ℕ
double_until zero target buffer_count = none
double_until (suc fuel) target buffer_count =
    let next = buffer_count * 2 % 2 ^ 64 in
    let rest = double_until fuel target next in if leb next target then rest else some buffer_count

module _ (page_size : ℕ) where
  abbrev pub next_buffer : StateMps → ℕ → Advance × StateMps
  next_buffer s index =
      let offset = (s.block_offset + s.cfg.buffer_size) % 2 ^ 32 in
      let block = (s.block_index + 1) % 2 ^ 32 in
      if ltb s.cfg.block_size ((offset + s.cfg.buffer_size) % 2 ^ 32)
      then (
        next_block,
        record s {
          buffer_index = index;
          block_offset = offset % page_size;
          block_index = if block == s.cfg.block_count then 0 else block;
        },
      )
      else (same_block, record s { buffer_index = index; block_offset = offset })

  unfoldable pub ndp_ctrl_medusa_mps_inc : StateMps → Advance × StateMps
  ndp_ctrl_medusa_mps_inc s =
      let index = (s.buffer_index + 1) % 2 ^ 32 in
      if index == s.cfg.buffer_count
      then (ring_wrap, ndp_ctrl_medusa_mps_meta_first s)
      else next_buffer s index

  -- `while (s.buffer_index < buffer_count)` on fuel
  unfoldable pub walk : ℕ → ℕ → StateMps → Option StateMps
  walk zero buffer_count s = none
  walk (suc fuel) buffer_count s =
      let rest = walk fuel buffer_count (ndp_ctrl_medusa_mps_inc s).1 in
      if ltb s.buffer_index buffer_count then rest else some s

  -- The configuration of the blocks from where the walk ended, with one block less if the last buffers fit in
  -- front of the first one.
  abbrev pub needed : StateMps → Cfg
  needed s =
      let last =
        if leb s.block_offset s.cfg.initial_offset
        then (s.block_index + 2 ^ 32 - 1) % 2 ^ 32
        else s.block_index in
      record s.cfg { block_count = (last + 1) % 2 ^ 32; buffer_count = s.buffer_index }

  -- `sizeof(struct nc_ndp_hdr)`, the smaller one of the two
  abbrev pub min_buffer_items : ℕ
  min_buffer_items = page_size / 4

  -- Up to the resizing of the ring: the new configuration. `none`: the fuel of the walk is used up.
  unfoldable pub ndp_ctrl_medusa_req_block_update :
      (fuel req_block_size buffer_size buffer_count initial_offset : ℕ)
      → Option (Status × Option Cfg)
  ndp_ctrl_medusa_req_block_update fuel req_block_size buffer_size buffer_count initial_offset =
      if buffer_size == 0 || ltb buffer_count min_buffer_items
      then some (err einval, none)
      else elim (walk fuel buffer_count
          (ndp_ctrl_medusa_mps_meta_init req_block_size 0 buffer_size 0 initial_offset)) [
            | none ↦ none
            | some s ↦ some (ok, some (needed s))
          ]

  -- The resizing, which the caller asks for by `do_resize`: it finds the new configuration stored, also if it fails.
  abbrev pub and_resize : (ℕ → Status) → Option (Status × Option Cfg) → Option (Status × Option Cfg)
  and_resize resize none = none
  and_resize resize (some (err e, stored)) = some (err e, stored)
  and_resize resize (some (ok, none)) = some (ok, none)
  and_resize resize (some (ok, some cfg)) = some (resize cfg.block_count, some cfg)

  -- What is answered, and the configuration stored. `cfg` is the configuration before, `value` the size in bytes that
  -- is asked for, and `resize` what `ndp_channel_ring_resize` answers for a number of blocks.
  unfoldable pub ndp_ctrl_set_ring_size :
      (fuel doublings : ℕ) (resize : ℕ → Status) (req_block_size : ℕ)
      → Cfg
      → (value : ℕ) → Option (Status × Option Cfg)
  ndp_ctrl_set_ring_size fuel doublings resize req_block_size cfg value =
      if cfg.buffer_size == 0
      then some (err einval, none)
      else elim (double_until doublings (value / cfg.buffer_size) 1) [
        | none ↦ none
        | some buffer_count ↦ and_resize resize (
            ndp_ctrl_medusa_req_block_update fuel req_block_size cfg.buffer_size buffer_count
              cfg.initial_offset)
      ]

  -- The loop of `ndp_ctrl_medusa_start` that writes the offset of each buffer, on fuel; the product and the sum are
  -- words of 32 bits.
  unfoldable pub write_offsets : ℕ → StateMps → Option (List ℕ × StateMps)
  write_offsets zero s = none
  write_offsets (suc fuel) s =
      let (advance, next) = ndp_ctrl_medusa_mps_inc s in
      let offset = (s.block_index * s.cfg.block_size + s.block_offset) % 2 ^ 32 in
      let rest = write_offsets fuel next in
      elim advance [
        | ring_wrap ↦ some (offset ∷ [], next)
        | next_block ↦ prepend offset rest
        | same_block ↦ prepend offset rest
      ]
