-- ===== src/Controller/Begin/Begun.antt =====
-- What a Medusa receive queue begins with (ndp/ctrl_ndp.c), over the layout of its ring.
use ndk_sw_bachelor_thesis.Common.{
  ℕ, ◌-◌, ◌*◌, ◌^◌, ◌<◌, ◌≤◌, ◌≡◌, Option, some, List, length, arith,
}
use native.Mathlib.Nat.{one-le-pow}
use ndk_sw_bachelor_thesis.Controller.User.{desc_burst}
use ndk_sw_bachelor_thesis.Controller.Layout.Apart.{AllApart}
use ndk_sw_bachelor_thesis.Controller.Layout.Measured.{at_first}
use ndk_sw_bachelor_thesis.Controller.Receive.{RxMedusa}
use ndk_sw_bachelor_thesis.Controller.Receive.Fill.{walked, buffers, Queue}

module _ (page : ℕ) (phys : ℕ → ℕ) (k : ℕ) (fits : k ≤ 32) (size : ℕ) (short : size < 2 ^ 16) where
  pub some_slots : 0 < 2 ^ k
  some_slots = one-le-pow k 2 (omega arith)

  -- Every buffer has its own place in the ring, and all descriptors but a burst name the first buffers.
  abbrev pub Begun : RxMedusa → Option (List ℕ × RxMedusa) → Type 0
  Begun before o =
      (offsets : List ℕ) × (after : RxMedusa) × (m : ℕ) × (o ≡ some (offsets, after))
      × (length offsets ≡ before.mps.cfg.buffer_count)
      × AllApart before.mps.cfg.buffer_size (before.mps.cfg.block_count * before.mps.cfg.block_size)
          offsets
      × Queue page phys k fits 0 some_slots before.last_upper_addr size short (2 ^ k - desc_burst)
          (buffers page phys m (at_first before.mps.cfg)) after
      × (after.mps ≡ walked page phys m (at_first before.mps.cfg))
      × (after.free_desc ≡ 0)
      × (after.sp_register.0 ≡ after.sdp)
