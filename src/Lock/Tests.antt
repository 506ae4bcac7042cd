-- ===== src/Lock/Tests.antt =====
-- lock.c on concrete requests, and the theorems of the component at concrete inputs.
use ndk_sw_bachelor_thesis.Common.{ℕ, ◌≡◌, refl, true, List, [], ◌∷◌, ok, err, ebusy}
use ndk_sw_bachelor_thesis.Lock.{
  LockItem, LockRequest, conflicts, is_own, behind, scan, grant_at, nfb_lock_try_lock, find_own,
  revoke_at, nfb_lock_unlock, nfb_lock_probe, cmd_try_lock, lock_copied, path_ok, nfb_lock_ioctl,
  copy_request,
}
use ndk_sw_bachelor_thesis.Lock.History.{
  after_call, after_calls, kernel_lock, kernel_unlock, ioctl, LockCall, mutual_exclusion,
}

abbrev both : LockRequest
both = record { path = "/i2c"; features = 3 }

abbrev first : LockRequest
first = record { path = "/i2c"; features = 1 }

-- Application 1 holds both bits.
abbrev held_items : List LockItem
held_items = record { app = 1; path = "/i2c"; features = 3 } ∷ []

abbrev history : List LockCall
history =
    kernel_lock true 1 both
    ∷ ioctl true 2 cmd_try_lock (lock_copied (path_ok "/i2c") 1)
    ∷ kernel_unlock 1 first
    ∷ kernel_lock true 2 first
    ∷ []

lock_granted : nfb_lock_try_lock true 1 both [] ≡ (ok, held_items)
unfolding conflicts is_own behind scan grant_at nfb_lock_try_lock
lock_granted = refl

lock_busy : nfb_lock_try_lock true 2 first held_items ≡ (err ebusy, held_items)
unfolding conflicts is_own behind scan grant_at nfb_lock_try_lock
lock_busy = refl

unlock_one :
    nfb_lock_unlock 1 first held_items ≡ (ok, record { app = 1; path = "/i2c"; features = 2 } ∷ [])
unfolding is_own find_own revoke_at nfb_lock_unlock
unlock_one = refl

-- In `history` application 2 is first refused, and gets the bit when application 1 has given it up.
mutual_exclusion_example : ◌≡◌ {A = ℕ} 2 2
unfolding after_call after_calls nfb_lock_try_lock nfb_lock_unlock nfb_lock_ioctl copy_request
    conflicts is_own behind scan grant_at find_own revoke_at nfb_lock_probe
mutual_exclusion_example = mutual_exclusion history 2 2 "/i2c" 0 refl refl
