-- ===== src/Ndp/Stop.antt =====
-- What `_nc_ndp_ctrl_stop` of dma_ctrl_ndp.h leaves, forced or not: the lock, and what its answer tells.
use native.Mathlib.Decide.{dec_le, ℕ_discrete}
use ndk_sw_bachelor_thesis.Common.{
  ℕ, zero, suc, ◌+◌, ◌≤◌, ◌<◌, ◌≡◌, ◌≢◌, refl, ◌∙◌, ap, ◌⊎◌, inl, inr, Bool, true, false, ◌&&◌, not,
  List, [], String, Status, ok, err, ebusy, eagain, einprogress, arith, Bool-cases, ◌==◌,
  if◌then◌else◌,
}
use ndk_sw_bachelor_thesis.Lock.{LockItem}
use ndk_sw_bachelor_thesis.Lock.Exclusion.{Exclusive}
use ndk_sw_bachelor_thesis.Lock.Table.{holds, asks}
use ndk_sw_bachelor_thesis.Lock.Unlock.{unlock_takes}
use ndk_sw_bachelor_thesis.Bus.{nfb_comp_unlock}
use ndk_sw_bachelor_thesis.Ndp.{
  NdpCtrl, Registers, Write, Outcome, is_running, nc_ndp_ctrl_hdp_update, await_stopped, halt,
  stop_with,
}
use ndk_sw_bachelor_thesis.Ndp.Handing.{request}

-- Running at every one of these reads of the status.
abbrev pub StillRunning : (ℕ → ℕ) → ℕ → ℕ → Type 0
StillRunning status from to = (m : ℕ) → from ≤ m → m ≤ to → is_running (status m) ≡ true

-- Not running at one of them.
abbrev pub SeenStopped : (ℕ → ℕ) → ℕ → Type 0
SeenStopped status to = (m : ℕ) × (m ≤ to) × (is_running (status m) ≡ false)

module _ (memory : ℕ → Bool) (others : ℕ → List LockItem → List LockItem) (kernel_app : ℕ)
    (path : String) where
  abbrev await : (ℕ → ℕ) → ℕ → ℕ → Bool
  await = await_stopped memory others kernel_app path

  await-true :
      (status : ℕ → ℕ) (rounds n to : ℕ)
      → n + rounds ≤ to
      → await status rounds n ≡ true
      → SeenStopped status to
  unfolding await_stopped
  await-true status zero n to h e = (n, omega arith, ground arith)
  await-true status (suc rounds) n to h e = elim (Bool-cases (is_running (status n))) [
    | inl r ↦ await-true status rounds (n + 1) to (omega arith) (ground arith)
    | inr r ↦ (n, omega arith, r)
  ]

  await-false :
      (status : ℕ → ℕ) (rounds n to : ℕ)
      → to ≤ n + rounds
      → await status rounds n ≡ false
      → StillRunning status n to
  unfolding await_stopped
  await-false status zero n to h e m p q =
      ap (λ i. is_running (status i)) {x = m} {y = n} (omega arith) ∙ ground arith
  await-false status (suc rounds) n to h e m p q = elim (dec_le (n + 1) m) [
    | yes later ↦ await-false status rounds (n + 1) to (omega arith) (ground arith) m later q
    | no now ↦ ap (λ i. is_running (status i)) {x = m} {y = n} (omega arith) ∙ ground arith
  ]

  -- The kernel no longer has the component's lock; all else is as before.
  abbrev pub Freed : List LockItem → List LockItem → Type 0
  Freed before after =
      (app : ℕ) (component : String) (j : ℕ)
      → j < 32
      → holds after app component j ≡ (
          holds before app component j
          && not (asks kernel_app (request memory others kernel_app path) app component j))

  -- What an answer tells. 0: the controller was seen stopped, the lock is free, and without force a controller
  -- that transmits has sent all. An error: with force the lock is free, without it the lock stays; and the
  -- controller ran on at each of the 101 reads, or it was not touched because packets wait to be sent.
  abbrev pub StoppedBy : Registers → Bool → NdpCtrl → List LockItem → Outcome → Status → Type 0
  StoppedBy regs force before items o ok =
      Freed items o.items
      × SeenStopped regs.status 100
      × ((force ≡ true) ⊎ ((before.dir ≡ 0) ⊎ (o.ctrl.sdp ≡ o.ctrl.hdp)))
  StoppedBy regs force before items o (err e) =
      (if force then Freed items o.items else (o.items ≡ items))
      × (StillRunning regs.status 0 100
          ⊎ ((force ≡ false) × (before.dir ≢ 0) × (o.ctrl.sdp ≢ o.ctrl.hdp) × (o.writes ≡ [])))

  freed :
      (items : List LockItem)
      → Exclusive items
      → Freed items (nfb_comp_unlock memory others kernel_app path 1 items)
  unfolding nfb_comp_unlock
  freed items x app component j h =
      unlock_takes kernel_app (request memory others kernel_app path) items (omega arith) x app
        component j h

  abbrev pub Stopped : Registers → Bool → NdpCtrl → List LockItem → Outcome → Type 0
  Stopped regs force before items o = StoppedBy regs force before items o o.result

  by_result :
      (regs : Registers) (stopped force : Bool) (ret : Status) (before ctrl : NdpCtrl)
      (items : List LockItem) (writes : List Write)
      → Exclusive items
      → (force ≡ true) ⊎ ((before.dir ≡ 0) ⊎ (ctrl.sdp ≡ ctrl.hdp))
      → (stopped ≡ true → SeenStopped regs.status 100)
      → (stopped ≡ false → StillRunning regs.status 0 100)
      → Stopped regs force before items (
          if stopped
          then record {
            result = ok;
            ctrl = ctrl;
            items = nfb_comp_unlock memory others kernel_app path 1 items;
            writes = writes;
          }
          else record {
            result = elim ret [ ok ↦ err eagain | err e ↦ err e ];
            ctrl = ctrl;
            items = if force then nfb_comp_unlock memory others kernel_app path 1 items else items;
            writes = writes;
          })
  by_result regs true force ret before ctrl items writes x why seen run =
      (freed items x, seen refl, why)
  by_result regs false true ok before ctrl items writes x why seen run =
      (freed items x, inl (run refl))
  by_result regs false true (err e) before ctrl items writes x why seen run =
      (freed items x, inl (run refl))
  by_result regs false false ok before ctrl items writes x why seen run = (refl, inl (run refl))
  by_result regs false false (err e) before ctrl items writes x why seen run =
      (refl, inl (run refl))

  halt-Stopped :
      (regs : Registers) (force : Bool) (ret : Status) (before ctrl : NdpCtrl)
      (items : List LockItem)
      → Exclusive items
      → (force ≡ true) ⊎ ((before.dir ≡ 0) ⊎ (ctrl.sdp ≡ ctrl.hdp))
      → Stopped regs force before items
          (halt memory others kernel_app path regs force ret ctrl items)
  unfolding halt
  halt-Stopped regs force ret before ctrl items x why =
      by_result regs (await regs.status 100 0) force ret before ctrl items _ x why
        (await-true regs.status 100 0 100 (omega arith))
        (await-false regs.status 100 0 100 (omega arith))

  waiting :
      (regs : Registers) (same force : Bool) (before fresh : NdpCtrl) (items : List LockItem)
      → Exclusive items
      → before.dir ≢ 0
      → fresh.sdp ≢ fresh.hdp
      → Stopped regs force before items (
          if force
          then halt memory others kernel_app path regs force (err ebusy) fresh items
          else record {
            result = if same then err eagain else err einprogress;
            ctrl = fresh;
            items = items;
            writes = [];
          })
  waiting regs same true before fresh items x dir ne =
      halt-Stopped regs true (err ebusy) before fresh items x (inl refl)
  waiting regs true false before fresh items x dir ne = (refl, inr (refl, dir, ne, refl))
  waiting regs false false before fresh items x dir ne = (refl, inr (refl, dir, ne, refl))

  -- Each answer of a stop, forced or not, tells what `StoppedBy` says. The list of locks is exclusive.
  pub stop-Stopped :
      (regs : Registers) (force : Bool) (ctrl : NdpCtrl) (items : List LockItem)
      → Exclusive items
      → Stopped regs force ctrl items
          (stop_with memory others kernel_app path regs force ctrl items)
  unfolding stop_with
  stop-Stopped regs force ctrl items x = elim (ℕ_discrete ctrl.dir 0) [
    | yes e ↦
        rw (dir_test e, stop_with) (halt-Stopped regs force ok ctrl ctrl items x (inr (inl e)))
    | no ne ↦ elim (ℕ_discrete fresh.sdp fresh.hdp) [
      | yes e ↦
          rw (dir_other ne, sent_test e, stop_with)
            (halt-Stopped regs force ok ctrl fresh items x (inr (inr e)))
      | no more ↦
          rw (dir_other ne, sent_other more, stop_with)
            (waiting regs (ctrl.hdp == fresh.hdp) force ctrl fresh items x ne more)
    ]
  ]
    where
      fresh : NdpCtrl
      fresh = nc_ndp_ctrl_hdp_update regs ctrl

      dir_test : ctrl.dir ≡ 0 → ctrl.dir == 0 ≡ true
      dir_test e = ground arith

      dir_other : ctrl.dir ≢ 0 → ctrl.dir == 0 ≡ false
      dir_other e = ground arith

      sent_test : fresh.sdp ≡ fresh.hdp → fresh.sdp == fresh.hdp ≡ true
      sent_test e = ground arith

      sent_other : fresh.sdp ≢ fresh.hdp → fresh.sdp == fresh.hdp ≡ false
      sent_other e = ground arith
