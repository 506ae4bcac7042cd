-- ===== src/Lock.antt =====
-- drivers/kernel/drivers/nfb/lock.c: the component locks of one device. The list of items is the
-- state; `lock_mutex` makes each call atomic. An application is the address of its structure, and a
-- found item is its position in the list. The parameter `memory` tells whether `kmalloc` succeeds.
pub mod Exclusion
mod Tests
pub mod Table
pub mod Unlock
pub mod History
use mathlib.Core.Option
use ndk_sw_bachelor_thesis.Common.{
  ℕ, zero, suc, bit_and, bit_or, Bool, true, false, ◌&&◌, not, Option, none, some, List, [], ◌∷◌,
  String, str_eq, Status, ok, err, Errno, ebusy, enomem, enodev, enotty, efault, einval, ◌==◌,
  if◌then◌else◌,
}
use ndk_sw_bachelor_thesis.Common.Bits.{bit_not32}

-- `struct nfb_lock_item`
pub record LockItem : Type 0 where
  pub app : ℕ
  pub path : String
  pub features : ℕ

-- `struct nfb_lock`
pub record LockRequest : Type 0 where
  pub path : String
  pub features : ℕ

-- What the loop of `nfb_lock_try_lock` ends with: a conflict, or the position of the last item of
-- this application (`temp`).
pub data Scan : Type 0 where
  busy : Scan
  free : Option ℕ → Scan

unfoldable pub conflicts : LockItem → LockRequest → Bool
conflicts item lock = str_eq item.path lock.path && not (bit_and item.features lock.features == 0)

unfoldable pub is_own : ℕ → LockItem → LockRequest → Bool
is_own app item lock = str_eq item.path lock.path && item.app == app

-- One item of the loop, before the items behind it: `temp` is the last item of the application.
unfoldable pub behind : Bool → Scan → Scan
behind own busy = busy
behind own (free (some i)) = free (some (suc i))
behind own (free none) = if own then free (some 0) else free none

unfoldable pub scan : ℕ → LockRequest → List LockItem → Scan
unfolding conflicts is_own behind
scan app lock [] = free none
scan app lock (item ∷ items) =
    if conflicts item lock then busy else behind (is_own app item lock) (scan app lock items)

-- `item->features |= lock.features` at a position.
unfoldable pub grant_at : List LockItem → ℕ → ℕ → List LockItem
grant_at [] i features = []
grant_at (item ∷ items) zero features =
    record item { features = bit_or item.features features } ∷ items
grant_at (item ∷ items) (suc i) features = item ∷ grant_at items i features

unfoldable pub nfb_lock_try_lock : Bool → ℕ → LockRequest → List LockItem → Status × List LockItem
nfb_lock_try_lock memory app lock items = elim (scan app lock items) [
  | busy ↦ (err ebusy, items)
  | free (some i) ↦ (ok, grant_at items i lock.features)
  | free none ↦
      if memory
      then (
        ok,
        grant_at (record { app = app; path = lock.path; features = 0 } ∷ items) 0 lock.features,
      )
      else (err enomem, items)
]

-- The loop of `nfb_lock_unlock`: the position of the first item of the application on the path.
unfoldable pub find_own : ℕ → LockRequest → List LockItem → Option ℕ
unfolding is_own
find_own app lock [] = none
find_own app lock (item ∷ items) =
    let rest = find_own app lock items in
    if is_own app item lock then some 0 else Option.map suc rest

-- `item->features &= ~lock.features` at a position; an item with no feature left is deleted.
unfoldable pub revoke_at : List LockItem → ℕ → ℕ → List LockItem
revoke_at [] i features = []
revoke_at (item ∷ items) zero features =
    let left = bit_and item.features (bit_not32 features) in
    if left == 0 then items else record item { features = left } ∷ items
revoke_at (item ∷ items) (suc i) features = item ∷ revoke_at items i features

unfoldable pub nfb_lock_unlock : ℕ → LockRequest → List LockItem → Status × List LockItem
nfb_lock_unlock app lock items = elim (find_own app lock items) [
  | none ↦ (err enodev, items)
  | some i ↦ (ok, revoke_at items i lock.features)
]

-- An application that closes the device loses all its items.
unfoldable pub nfb_lock_release : ℕ → List LockItem → List LockItem
nfb_lock_release app [] = []
nfb_lock_release app (item ∷ items) =
    let rest = nfb_lock_release app items in if item.app == app then rest else item ∷ rest

pub nfb_lock_remove : List LockItem → List LockItem
nfb_lock_remove [] = []
nfb_lock_remove (item ∷ items) = nfb_lock_remove items

pub nfb_lock_probe : List LockItem
nfb_lock_probe = []

-- What user memory holds at the argument of the ioctl: `copy_from_user` may fault, and
-- `strncpy_from_user` returns a fault, an empty path, a path that fills the buffer, or a path.
pub data UserPath : Type 0 where
  path_fault path_empty path_too_long : UserPath
  path_ok : String → UserPath

pub data UserLock : Type 0 where
  lock_fault : UserLock
  lock_copied : UserPath → ℕ → UserLock

pub data LockCommand : Type 0 where
  cmd_try_lock cmd_unlock cmd_other : LockCommand

-- The prologue of the ioctl: the request that the two commands read.
pub copy_request : UserLock → Status × Option LockRequest
copy_request lock_fault = (err efault, none)
copy_request (lock_copied path_fault features) = (err einval, none)
copy_request (lock_copied path_empty features) = (err einval, none)
copy_request (lock_copied path_too_long features) = (err einval, none)
copy_request (lock_copied (path_ok path) features) =
    (ok, some (record { path = path; features = features }))

pub nfb_lock_ioctl : Bool → ℕ → LockCommand → UserLock → List LockItem → Status × List LockItem
nfb_lock_ioctl memory app cmd_try_lock arg items =
    let (status, request) = copy_request arg in
    elim request [ none ↦ (status, items) | some lock ↦ nfb_lock_try_lock memory app lock items ]
nfb_lock_ioctl memory app cmd_unlock arg items =
    let (status, request) = copy_request arg in
    elim request [ none ↦ (status, items) | some lock ↦ nfb_lock_unlock app lock items ]
nfb_lock_ioctl memory app cmd_other arg items = (err enotty, items)
