-- ===== src/Ring/Tests.antt =====
-- The theorems on the memory of the NDP rings at concrete inputs.
use ndk_sw_bachelor_thesis.Common.{◌≡◌, refl, true, some, ◌==◌, not, inr, ok, arith}
use ndk_sw_bachelor_thesis.Ring.{
  Kernel, ring_of, ndp_channel_ring_resize, block_loop, map_blocks,
  ndp_channel_ring_req_block_update_by_size,
}
use ndk_sw_bachelor_thesis.Ring.Whole.{Resized, resize-Resized}
use ndk_sw_bachelor_thesis.Ring.Created.{IsWhole}
use ndk_sw_bachelor_thesis.Ring.Shadow.{parts_from, map_shadows}

abbrev willing : Kernel
willing = record {
  block_grant = λ n. true;
  array_grant = true;
  pages_grant = true;
  vmap_grant = true;
  register = ok;
  attach = ok;
}

-- A kernel with memory for two blocks.
abbrev short : Kernel
short = record willing { block_grant = λ n. not (n == 2) }

resized_up :
    (ndp_channel_ring_resize willing willing (ring_of 2 4096) true 0 4 4096).ring ≡ ring_of 4 4096
unfolding ndp_channel_ring_resize block_loop
resized_up = refl

-- The creation fails at the third block, and the ring is as before.
not_resized :
    (ndp_channel_ring_resize short willing (ring_of 2 4096) true 0 4 4096).ring ≡ ring_of 2 4096
unfolding ndp_channel_ring_resize block_loop
not_resized = refl

two_IsWhole : IsWhole (ring_of 2 4096)
two_IsWhole = inr (2, 4096, omega arith, omega arith, refl)

resize-Resized_example :
    Resized
      (ring_of 2 4096)
      4
      4096
      (ndp_channel_ring_resize short willing (ring_of 2 4096) true 0 4 4096)
resize-Resized_example = resize-Resized short willing (ring_of 2 4096) true 0 4 4096 two_IsWhole

requested :
    ndp_channel_ring_req_block_update_by_size 4096 4194304 4194304 16777216 ≡ some (4, 4194304)
unfolding ndp_channel_ring_req_block_update_by_size
requested = refl

map_shadows_example :
    map_blocks 5 (ring_of 2 4096) 16384 0 ≡ some (parts_from 2 4096 (omega arith) (omega arith) 0 4)
map_shadows_example = map_shadows 2 4096 (omega arith) (omega arith)
