-- ===== src/Bus.antt =====
-- drivers/kernel/drivers/nfb/bus.c: components of a device, and the locking of a component by the
-- kernel itself, with retries. Device Tree lookups (libfdt) are parameters.
pub mod Waiting
mod Tests
use ndk_sw_bachelor_thesis.Common.{
  ℕ, zero, suc, ◌+◌, ◌*◌, Bool, Option, none, some, List, [], ◌∷◌, String, Status, ok, err, Errno,
  ebusy, etimedout, get_elem?, length, ◌==◌, if◌then◌else◌,
}
use ndk_sw_bachelor_thesis.Lock.{LockItem, LockRequest, nfb_lock_try_lock, nfb_lock_unlock}

-- The nodes that `fdt_for_each_compatible_node` visits, in order. `none`: a NULL argument.
unfoldable pub nfb_comp_count : Option (List ℕ) → Option ℕ
nfb_comp_count none = none
nfb_comp_count (some nodes) = some (length nodes)

-- `none` stands for every negative offset.
unfoldable pub nfb_comp_find : Option (List ℕ) → ℕ → Option ℕ
nfb_comp_find none index = none
nfb_comp_find (some nodes) index = get_elem? nodes index

-- The outcome of the retries: what is returned, the lock list then, and how often it was tried.
pub record Attempt : Type 0 where
  pub status : Status
  pub items : List LockItem
  pub tries : ℕ

-- One run of the loop body's tests on the answer of `nfb_lock_try_lock`: `none` is another round.
unfoldable pub settled : Status → ℕ → Option Status
settled ok timeout = some ok
settled (err ebusy) timeout = if timeout == 0 then some (err ebusy) else none
settled (err e) timeout = some (err e)

-- `memory n` tells whether the n-th attempt can allocate; `others n` is what other applications do to
-- the list while the n-th round sleeps.
module _ (memory : ℕ → Bool) (others : ℕ → List LockItem → List LockItem) (kernel_app : ℕ) where
  -- `rounds` is what `timeout * 20 - cnt` leaves.
  unfoldable pub trylock_rounds : ℕ → LockRequest → ℕ → ℕ → List LockItem → Attempt
  trylock_rounds zero lock timeout n items =
      let (ret, items') = nfb_lock_try_lock (memory n) kernel_app lock items in
      elim (settled ret timeout) [
        | some status ↦ record { status = status; items = items'; tries = n + 1 }
        | none ↦ record { status = err etimedout; items = others n items'; tries = n + 1 }
      ]
  trylock_rounds (suc rounds) lock timeout n items =
      let (ret, items') = nfb_lock_try_lock (memory n) kernel_app lock items in
      let again = trylock_rounds rounds lock timeout (n + 1) (others n items') in
      elim (settled ret timeout) [
        | some status ↦ record { status = status; items = items'; tries = n + 1 }
        | none ↦ again
      ]

  unfoldable pub nfb_comp_trylock : String → ℕ → ℕ → List LockItem → Attempt
  unfolding trylock_rounds
  nfb_comp_trylock path features timeout items =
      trylock_rounds (timeout * 20) (record { path = path; features = features }) timeout 0 items

  -- 1 for a lock taken within 100 ms, 0 for any error.
  unfoldable pub nfb_comp_lock : String → ℕ → List LockItem → ℕ × List LockItem
  nfb_comp_lock path features items =
      let attempt = nfb_comp_trylock path features 100 items in
      elim attempt.status [ ok ↦ (1, attempt.items) | err e ↦ (0, attempt.items) ]

  unfoldable pub nfb_comp_unlock : String → ℕ → List LockItem → List LockItem
  nfb_comp_unlock path features items =
      (nfb_lock_unlock kernel_app (record { path = path; features = features }) items).1
