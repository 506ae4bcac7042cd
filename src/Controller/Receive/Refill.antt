-- ===== src/Controller/Receive/Refill.antt =====
-- The queue of empty buffers of a Medusa controller (ndp/ctrl_ndp.c) when a new pointer to the headers comes.
use ndk_sw_bachelor_thesis.Common.{
  ℕ, zero, suc, ◌+◌, ◌*◌, ◌/◌, ◌%◌, ◌^◌, ◌<◌, ◌≤◌, ◌≡◌, Bool, true, Option, some,
}
use ndk_sw_bachelor_thesis.Controller.User.{desc_burst, gap}
use ndk_sw_bachelor_thesis.Controller.Receive.{RxMedusa, count_frees}
use ndk_sw_bachelor_thesis.Controller.Receive.Fill.{Packets, Longer}

module _ (page : ℕ) (phys : ℕ → ℕ) (k : ℕ) (fits : k ≤ 32) (p : ℕ) (in_ring : p < 2 ^ k)
    (upper size : ℕ) (short : size < 2 ^ 16) where
  abbrev any_burst : Bool → ℕ → Bool
  any_burst any zero = any
  any_burst any (suc b) = true

  -- All complete bursts.
  abbrev Filled : ℕ → ℕ → ℕ → Packets → RxMedusa → Bool → Option (Bool × RxMedusa) → Type 0
  Filled n b r given before any o =
      (after : RxMedusa) × (o ≡ some (any_burst any b, after))
      × (after.free_desc ≡ r)
      × (after.shp ≡ before.shp)
      × (after.sp_register ≡ before.sp_register)
      × Longer page phys k fits p in_ring upper size short n (b * desc_burst) given before after

  -- The descriptors that are free with those that the headers up to `ptr` give back.
  abbrev pub all_free : (ℕ → ℕ) → ℕ → RxMedusa → ℕ
  all_free freed ptr ctrl =
      let (ones, twos) =
        count_frees freed ctrl.mhp (gap ctrl.mhp (ptr % 2 ^ 32) ctrl.shp) ctrl.shp in
      ctrl.free_desc + (ones + twos * 2)

  -- What the card is told: both pointers after a burst, or nothing.
  abbrev pub Told : RxMedusa → ℕ → RxMedusa → Type 0
  Told before zero after = after.sp_register ≡ before.sp_register
  Told before (suc b) after = after.sp_register ≡ (after.sdp, after.shp)

  -- All complete bursts of the free descriptors are handed to the card, with the next buffers of the ring.
  abbrev pub Refilled : (ℕ → ℕ) → ℕ → ℕ → Packets → RxMedusa → Option RxMedusa → Type 0
  Refilled freed ptr n given before o =
      (after : RxMedusa) × (o ≡ some after)
      × (after.free_desc ≡ all_free freed ptr before % desc_burst)
      × (after.shp ≡ ptr % 2 ^ 32)
      × Told before (all_free freed ptr before / desc_burst) after
      × Longer page phys k fits p in_ring upper size short n
          (all_free freed ptr before / desc_burst * desc_burst) given before after
