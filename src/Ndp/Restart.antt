-- ===== src/Ndp/Restart.antt =====
-- drivers/kernel/drivers/nfb/ndp/ctrl_ndp.c: `ndp_ctrl_start`, which starts a DMA controller that may be found
-- running. What other applications do to the locks while it sleeps is a parameter.
use ndk_sw_bachelor_thesis.Common.{
  ℕ, ◌≡◌, ◌≢◌, ◌⊎◌, Bool, true, false, List, ◌++◌, String, Status, ok, err, eperm, ealready,
  if◌then◌else◌,
}
use ndk_sw_bachelor_thesis.Lock.{LockItem}
use ndk_sw_bachelor_thesis.Lock.Exclusion.{Exclusive, unlock-Exclusive}
use ndk_sw_bachelor_thesis.Ndp.{
  DmaType, NdpCtrl, StartParams, Registers, Outcome, nc_ndp_ctrl_start, nc_ndp_ctrl_stop_force,
}
use ndk_sw_bachelor_thesis.Bus.{nfb_comp_unlock}
use ndk_sw_bachelor_thesis.Ndp.Handing.{Unchanged, Taken}
use ndk_sw_bachelor_thesis.Ndp.Stop.{Freed}
use ndk_sw_bachelor_thesis.Ndp.Start.{Ready, Accepted, Left}

abbrev pub is_already : Status → Bool
is_already ok = false
is_already (err ealready) = true
is_already (err e) = false

-- Any other error of the second start is answered as -1.
abbrev pub second_result : Status → Status
second_result ok = ok
second_result (err e) = err eperm

module _ (memory : ℕ → Bool) (others : ℕ → List LockItem → List LockItem) (kernel_app : ℕ)
    (path : String) (slept : List LockItem → List LockItem) where
  -- The registers as the first start, the stop and the second start find them.
  unfoldable pub ndp_ctrl_start :
      (first second third : Registers) → StartParams → NdpCtrl → List LockItem → Outcome
  ndp_ctrl_start first second third sp ctrl items =
      let started = nc_ndp_ctrl_start memory others kernel_app path first sp ctrl items in
      let stopped =
        nc_ndp_ctrl_stop_force memory others kernel_app path second started.ctrl started.items in
      let again =
        nc_ndp_ctrl_start memory others kernel_app path third sp stopped.ctrl
          (slept stopped.items) in
      if is_already started.result
      then record {
        result = second_result again.result;
        ctrl = again.ctrl;
        items = again.items;
        writes = started.writes ++ stopped.writes ++ again.writes;
      }
      else started

-- What every call keeps: the exclusive list of locks, and the type of the controller.
abbrev Sane : DmaType → Outcome → Type 0
Sane ty o = Exclusive o.items × (o.ctrl.ty ≡ ty)

module _ (memory : ℕ → Bool) (others : ℕ → List LockItem → List LockItem) (kernel_app : ℕ)
    (path : String) where
  unlocked :
      (items : List LockItem)
      → Exclusive items
      → Exclusive (nfb_comp_unlock memory others kernel_app path 1 items)
  unfolding nfb_comp_unlock
  unlocked items x = unlock-Exclusive kernel_app _ items x

module _ (memory : ℕ → Bool) (others : ℕ → List LockItem → List LockItem) (kernel_app : ℕ)
    (path : String) (slept : List LockItem → List LockItem) where
  -- How the second start ends: ready with the lock taken, or -1 with every lock as it was found.
  abbrev pub Second :
      Registers → StartParams → NdpCtrl → List LockItem → NdpCtrl → List LockItem → Status → Type 0
  Second regs sp before found ctrl items ok =
      Ready sp before ctrl
      × Accepted regs before ctrl
      × Taken memory others kernel_app path found items
  Second regs sp before found ctrl items (err e) =
      (e ≡ eperm) × Unchanged memory others kernel_app path found items

  -- What one start would do is `started`. Without EALREADY it is all that happens. With EALREADY the controller was
  -- stopped by force in between: `mid` is the list of locks then, in which nobody but the kernel has lost any; the
  -- second start finds what others made of it.
  abbrev pub Restarted :
      (first third : Registers) → StartParams → NdpCtrl → List LockItem → Outcome → Type 0
  Restarted first third sp before items o =
      let started = nc_ndp_ctrl_start memory others kernel_app path first sp before items in
      ((started.result ≢ err ealready)
        × (o ≡ started)
        × Left memory others kernel_app path first sp before items o)
      ⊎ ((started.result ≡ err ealready)
          × ((mid : List LockItem) × (between : NdpCtrl) × (between.ty ≡ before.ty)
              × Freed memory others kernel_app path items mid
              × Second third sp between (slept mid) o.ctrl o.items o.result))
