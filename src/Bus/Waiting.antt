-- ===== src/Bus/Waiting.antt =====
-- How `nfb_comp_trylock` of bus.c waits: how often it tries, and what each answer means.
use ndk_sw_bachelor_thesis.Common.{
  ℕ, zero, suc, ◌+◌, ◌*◌, ◌≤◌, ◌≡◌, ◌≢◌, Bool, true, none, some, List, String, Status, ok, err,
  ebusy, etimedout, arith, str_eq_iff,
}
use ndk_sw_bachelor_thesis.Common.Bits.{bit}
use ndk_sw_bachelor_thesis.Lock.{LockItem, LockRequest, nfb_lock_try_lock}
use ndk_sw_bachelor_thesis.Lock.Table.{holds, asks, try_lock_grants}
use ndk_sw_bachelor_thesis.Bus.{settled, trylock_rounds, nfb_comp_trylock}

module _ (memory : ℕ → Bool) (others : ℕ → List LockItem → List LockItem) (kernel_app : ℕ) where
  rounds_bound :
      (rounds : ℕ) (lock : LockRequest) (timeout n : ℕ) (items : List LockItem)
      → (trylock_rounds memory others kernel_app rounds lock timeout n items).tries ≤ n + rounds + 1
  unfolding trylock_rounds
  rounds_bound zero lock timeout n items = ground arith
  rounds_bound (suc rounds) lock timeout n items = ground (
    arith,
    rounds_bound rounds lock timeout (n + 1)
        (others n (nfb_lock_try_lock (memory n) kernel_app lock items).1),
  )

  settled_ok : (s : Status) (timeout : ℕ) → settled s timeout ≡ some ok → s ≡ ok
  unfolding settled
  settled_ok s timeout e = ground arith

  settled_busy : (s : Status) (timeout : ℕ) → settled s timeout ≡ some (err ebusy) → timeout ≡ 0
  unfolding settled
  settled_busy s timeout e = ground arith

  settled-none : (s : Status) (timeout : ℕ) → settled s timeout ≡ none → timeout ≢ 0
  unfolding settled
  settled-none s timeout e = ground arith

  not_timed_out :
      (mem : Bool) (lock : LockRequest) (timeout : ℕ) (items : List LockItem)
      → settled (nfb_lock_try_lock mem kernel_app lock items).0 timeout ≢ some (err etimedout)
  unfolding settled nfb_lock_try_lock
  not_timed_out mem lock timeout items e = ground arith

  rounds_ok :
      (rounds : ℕ) (lock : LockRequest) (timeout n : ℕ) (items : List LockItem) (path : String)
      (j : ℕ)
      → asks kernel_app lock kernel_app path j ≡ true
      → (trylock_rounds memory others kernel_app rounds lock timeout n items).status ≡ ok
      → holds
          (trylock_rounds memory others kernel_app rounds lock timeout n items).items
          kernel_app
          path
          j
        ≡ true
  unfolding trylock_rounds
  rounds_ok zero lock timeout n items path j a e = ground (
    arith,
    settled_ok (nfb_lock_try_lock (memory n) kernel_app lock items).0 timeout,
    try_lock_grants (memory n) kernel_app lock items kernel_app path j,
  )
  rounds_ok (suc rounds) lock timeout n items path j a e = ground (
    arith,
    settled_ok (nfb_lock_try_lock (memory n) kernel_app lock items).0 timeout,
    try_lock_grants (memory n) kernel_app lock items kernel_app path j,
    rounds_ok rounds lock timeout (n + 1)
        (others n (nfb_lock_try_lock (memory n) kernel_app lock items).1) path j a,
  )

  rounds_timed_out :
      (rounds : ℕ) (lock : LockRequest) (timeout n : ℕ) (items : List LockItem)
      → (trylock_rounds memory others kernel_app rounds lock timeout n items).status ≡ err etimedout
      → (timeout ≢ 0)
        × ((trylock_rounds memory others kernel_app rounds lock timeout n items).tries
            ≡ n + rounds + 1)
  unfolding trylock_rounds
  rounds_timed_out zero lock timeout n items e =
      let s = (nfb_lock_try_lock (memory n) kernel_app lock items).0 in
      ground (arith, not_timed_out (memory n) lock timeout items, settled-none s timeout)
  rounds_timed_out (suc rounds) lock timeout n items e =
      let s = (nfb_lock_try_lock (memory n) kernel_app lock items).0 in
      ground (
        arith,
        not_timed_out (memory n) lock timeout items,
        settled-none s timeout,
        rounds_timed_out rounds lock timeout (n + 1)
            (others n (nfb_lock_try_lock (memory n) kernel_app lock items).1),
      )

  -- However long the component stays locked, `nfb_comp_trylock` asks at most `timeout * 20 + 1`
  -- times and returns.
  pub trylock_bound :
      (path : String) (features timeout : ℕ) (items : List LockItem)
      → (nfb_comp_trylock memory others kernel_app path features timeout items).tries
        ≤ timeout * 20 + 1
  unfolding nfb_comp_trylock
  trylock_bound path features timeout items = omega (
    arith,
    rounds_bound (timeout * 20) (record { path = path; features = features }) timeout 0 items,
  )

  -- Success means that the kernel holds every bit that it asked for, whatever other applications did
  -- while it slept.
  trylock_holds :
      (path : String) (features timeout : ℕ) (items : List LockItem) (j : ℕ)
      → (nfb_comp_trylock memory others kernel_app path features timeout items).status ≡ ok
      → bit features j ≡ 1
      → holds
          (nfb_comp_trylock memory others kernel_app path features timeout items).items
          kernel_app
          path
          j
        ≡ true
  unfolding nfb_comp_trylock
  trylock_holds path features timeout items j e b =
      rounds_ok (timeout * 20) (record { path = path; features = features }) timeout 0 items path j
        (ground (arith, str_eq_iff path path)) e

  -- ETIMEDOUT comes only with a timeout, and only after every attempt that the timeout allows.
  pub trylock_timed_out :
      (path : String) (features timeout : ℕ) (items : List LockItem)
      → (nfb_comp_trylock memory others kernel_app path features timeout items).status
        ≡ err etimedout
      → (timeout ≢ 0)
        × ((nfb_comp_trylock memory others kernel_app path features timeout items).tries
            ≡ timeout * 20 + 1)
  unfolding nfb_comp_trylock
  trylock_timed_out path features timeout items e =
      let request : LockRequest = record { path = path; features = features } in
      omega (arith, rounds_timed_out (timeout * 20) request timeout 0 items e)
