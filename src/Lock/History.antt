-- ===== src/Lock/History.antt =====
-- Every history of calls into lock.c: which list it leads to, and what that list guarantees.
use ndk_sw_bachelor_thesis.Common.{ℕ, ◌≡◌, Bool, true, List, [], ◌∷◌, String}
use ndk_sw_bachelor_thesis.Lock.{
  LockItem, LockRequest, LockCommand, cmd_try_lock, cmd_unlock, cmd_other, UserLock, lock_fault,
  lock_copied, path_fault, path_empty, path_too_long, path_ok, copy_request, nfb_lock_probe,
  nfb_lock_try_lock, nfb_lock_unlock, nfb_lock_release, nfb_lock_ioctl,
}
use ndk_sw_bachelor_thesis.Lock.Exclusion.{
  Exclusive, try_lock-Exclusive, unlock-Exclusive, release-Exclusive,
}
use ndk_sw_bachelor_thesis.Lock.Table.{holds, one_holder}

-- One call into the subsystem: from the kernel, through the ioctl, or at the close of a device.
pub data LockCall : Type 0 where
  kernel_lock : Bool → ℕ → LockRequest → LockCall
  kernel_unlock : ℕ → LockRequest → LockCall
  ioctl : Bool → ℕ → LockCommand → UserLock → LockCall
  release : ℕ → LockCall

unfoldable pub after_call : LockCall → List LockItem → List LockItem
after_call (kernel_lock memory app lock) items = (nfb_lock_try_lock memory app lock items).1
after_call (kernel_unlock app lock) items = (nfb_lock_unlock app lock items).1
after_call (ioctl memory app cmd arg) items = (nfb_lock_ioctl memory app cmd arg items).1
after_call (release app) items = nfb_lock_release app items

-- The list after a history, the oldest call first, on a fresh device.
unfoldable pub after_calls : List LockCall → List LockItem → List LockItem
after_calls [] items = items
after_calls (call ∷ calls) items = after_calls calls (after_call call items)

ioctl-Exclusive :
    (memory : Bool) (app : ℕ) (cmd : LockCommand) (arg : UserLock) (items : List LockItem)
    → Exclusive items
    → Exclusive (nfb_lock_ioctl memory app cmd arg items).1
unfolding nfb_lock_ioctl copy_request
ioctl-Exclusive memory app cmd_try_lock lock_fault items h = h
ioctl-Exclusive memory app cmd_try_lock (lock_copied path_fault f) items h = h
ioctl-Exclusive memory app cmd_try_lock (lock_copied path_empty f) items h = h
ioctl-Exclusive memory app cmd_try_lock (lock_copied path_too_long f) items h = h
ioctl-Exclusive memory app cmd_try_lock (lock_copied (path_ok p) f) items h =
    try_lock-Exclusive memory app _ items h
ioctl-Exclusive memory app cmd_unlock lock_fault items h = h
ioctl-Exclusive memory app cmd_unlock (lock_copied path_fault f) items h = h
ioctl-Exclusive memory app cmd_unlock (lock_copied path_empty f) items h = h
ioctl-Exclusive memory app cmd_unlock (lock_copied path_too_long f) items h = h
ioctl-Exclusive memory app cmd_unlock (lock_copied (path_ok p) f) items h =
    unlock-Exclusive app _ items h
ioctl-Exclusive memory app cmd_other arg items h = h

call-Exclusive :
    (call : LockCall) (items : List LockItem) → Exclusive items → Exclusive (after_call call items)
unfolding after_call
call-Exclusive (kernel_lock memory app lock) items h = try_lock-Exclusive memory app lock items h
call-Exclusive (kernel_unlock app lock) items h = unlock-Exclusive app lock items h
call-Exclusive (ioctl memory app cmd arg) items h = ioctl-Exclusive memory app cmd arg items h
call-Exclusive (release app) items h = release-Exclusive app items h

calls-Exclusive :
    (calls : List LockCall) (items : List LockItem)
    → Exclusive items
    → Exclusive (after_calls calls items)
unfolding after_calls
calls-Exclusive [] items h = h
calls-Exclusive (call ∷ calls) items h =
    calls-Exclusive calls (after_call call items) (call-Exclusive call items h)

-- Mutual exclusion: after any history of calls on a fresh device, two applications that hold the
-- same feature bit of the same component are the same application.
pub mutual_exclusion :
    (calls : List LockCall) (a b : ℕ) (path : String) (j : ℕ)
    → holds (after_calls calls nfb_lock_probe) a path j ≡ true
    → holds (after_calls calls nfb_lock_probe) b path j ≡ true
    → a ≡ b
unfolding nfb_lock_probe
mutual_exclusion calls a b path j =
    one_holder (after_calls calls []) a b path j (calls-Exclusive calls [] tt)
