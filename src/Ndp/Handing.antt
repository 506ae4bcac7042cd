-- ===== src/Ndp/Handing.antt =====
-- The lock of a controller in dma_ctrl_ndp.h, taken for it and given back, and its test for powers of two.
use ndk_sw_bachelor_thesis.Common.{
  ℕ, zero, suc, ◌-◌, ◌/◌, ◌%◌, ◌^◌, ◌≤◌, ◌<◌, ◌≡◌, ◌≢◌, refl, sym, ◌∙◌, ap, ◌⊎◌, inl, inr, bit_and,
  Bool, true, false, ◌||◌, List, String, ok, arith, Bool-cases, ◌==◌, str_eq_iff,
}
use ndk_sw_bachelor_thesis.Common.Bits.{bit, bit-and, zero_of_bits, bit_zero, and_digit}
use native.Mathlib.Nat.{pow-suc, le_refl}
use native.Mathlib.Decide.{ℕ_discrete}
use ndk_sw_bachelor_thesis.Lock.{LockItem, LockRequest, nfb_lock_try_lock}
use ndk_sw_bachelor_thesis.Lock.Exclusion.{Exclusive}
use ndk_sw_bachelor_thesis.Lock.Table.{holds, asks, try_lock_grants, busy_iff}
use ndk_sw_bachelor_thesis.Lock.Unlock.{unlock_takes}
use ndk_sw_bachelor_thesis.Bus.{settled, trylock_rounds, nfb_comp_trylock, nfb_comp_unlock}
use ndk_sw_bachelor_thesis.Ndp.{minus_one, is_pow2}

pub and_self_zero : (a : ℕ) → bit_and a a ≡ 0 → a ≡ 0
and_self_zero a e =
    zero_of_bits a (λ i. omega (arith, bit-and a a i, ap (λ x. bit x i) e, bit_zero i))

power_fuel : (fuel n : ℕ) → n ≤ fuel → n ≢ 0 → bit_and n (n - 1) ≡ 0 → (k : ℕ) × (n ≡ 2 ^ k)
power_fuel zero n h ne e = absurd (omega arith)
power_fuel (suc fuel) n h ne e = elim (Bool-cases (n % 2 == 1)) [
  | inl odd ↦
      let both : (n - 1) / 2 ≡ n / 2 = ground arith in
      let half : n / 2 ≡ 0 =
        and_self_zero (n / 2) (omega (arith, e, and_digit n (n - 1), ap (bit_and (n / 2)) both)) in
      (0, ground (arith, half))
  | inr even ↦
      let below : (n - 1) / 2 ≡ n / 2 - 1 = ground arith in
      let (k, p) =
        power_fuel fuel (n / 2) (omega arith) (ground arith)
          (omega (arith, e, and_digit n (n - 1), ap (bit_and (n / 2)) below)) in
      (suc k, ground (arith, p, pow-suc 2 k))
]

-- The test of the source accepts a power of two, and 0.
pub is_pow2_lem : (n : ℕ) → n < 2 ^ 32 → is_pow2 n ≡ true → (n ≡ 0) ⊎ ((k : ℕ) × (n ≡ 2 ^ k))
is_pow2_lem n h e = elim (ℕ_discrete n 0) [
  | yes zeroed ↦ inl zeroed
  | no ne ↦
      let less : minus_one n ≡ n - 1 = omega arith in
      let apart : bit_and n (minus_one n) ≡ 0 = ground arith in
      inr (power_fuel n n (le_refl n) ne (sym (ap (bit_and n) less) ∙ apart))
]

module _ (memory : ℕ → Bool) (others : ℕ → List LockItem → List LockItem) (kernel_app : ℕ)
    (path : String) where
  abbrev pub request : LockRequest
  request = record { path = path; features = 1 }

  -- With no time to wait there is one attempt.
  pub one_attempt :
      (items : List LockItem)
      → let attempt = nfb_comp_trylock memory others kernel_app path 1 0 items in
        let tried = nfb_lock_try_lock (memory 0) kernel_app request items in
        (attempt.status ≡ tried.0) × (attempt.items ≡ tried.1)
  unfolding nfb_comp_trylock trylock_rounds settled
  one_attempt items = ground arith

  -- Nobody's locks have changed.
  abbrev pub Unchanged : List LockItem → List LockItem → Type 0
  Unchanged before after =
      (app : ℕ) (component : String) (j : ℕ)
      → j < 32
      → holds after app component j ≡ holds before app component j

  -- The kernel has the component's lock in addition, which nobody had.
  abbrev pub Taken : List LockItem → List LockItem → Type 0
  Taken before after =
      ((app : ℕ) → holds before app path 0 ≡ false)
      × ((app : ℕ) (component : String) (j : ℕ)
          → holds after app component j
            ≡ (holds before app component j || asks kernel_app request app component j))

  one_bit : (j : ℕ) → bit 1 j ≡ 1 → j ≡ 0
  one_bit zero e = refl
  one_bit (suc j) e = absurd (omega (arith, e, bit_zero j))

  pub granted :
      (items : List LockItem)
      → (nfb_lock_try_lock (memory 0) kernel_app request items).0 ≡ ok
      → Taken items ((nfb_lock_try_lock (memory 0) kernel_app request items).1)
  granted items e = (
    λ app. elim (Bool-cases (holds items app path 0)) [
      | inl held ↦
          absurd
            (ground (arith, (busy_iff (memory 0) kernel_app request items).1 (app, 0, held, refl)))
      | inr not_held ↦ not_held
    ],
    λ app component j. try_lock_grants (memory 0) kernel_app request items app component j e,
  )

  pub given_back :
      (before after : List LockItem)
      → Exclusive after
      → Taken before after
      → Unchanged before (nfb_comp_unlock memory others kernel_app path 1 after)
  unfolding nfb_comp_unlock
  given_back before after x t app component j hj =
      unlock_takes kernel_app request after (omega arith) x app component j hj
      ∙ elim (Bool-cases (asks kernel_app request app component j)) [
        | inl asked ↦
            let bit_is : bit 1 j ≡ 1 = ground (arith, str_eq_iff path component) in
            let same : path ≡ component = ground (arith, str_eq_iff path component) in
            let nobody : holds before app component j ≡ false =
              ap (λ q. holds before app q j) (sym same)
              ∙ ap (holds before app path) (one_bit j bit_is)
              ∙ t.0 app in
            ground arith
        | inr not_asked ↦ ground (arith, t.1 app component j)
      ]
