-- ===== src/Ndp/Start.antt =====
-- What `nc_ndp_ctrl_start` of dma_ctrl_ndp.h leaves: the controller, the registers and the lock.
use native.Mathlib.Nat.{pow-suc}
use native.Mathlib.Decide.{ℕ_discrete, dec_le}
use ndk_sw_bachelor_thesis.Common.{
  ℕ, zero, suc, ◌*◌, ◌/◌, ◌%◌, ◌^◌, ◌≤◌, ◌<◌, ◌≡◌, ◌≢◌, refl, sym, ◌∙◌, ap, subst, ◌⊎◌, inl, inr,
  Bool, true, false, ◌||◌, not, some, List, [], ◌∷◌, ◌++◌, String, Status, ok, err, ealready,
  enomem, einval, arith, Option-cases, ◌==◌, if◌then◌else◌,
}
use ndk_sw_bachelor_thesis.Common.Bits.{low_mask}
use ndk_sw_bachelor_thesis.Lock.{LockItem, nfb_lock_try_lock}
use ndk_sw_bachelor_thesis.Lock.Exclusion.{Exclusive, try_lock-Exclusive}
use ndk_sw_bachelor_thesis.Lock.Table.{holds, try_lock_refused}
use ndk_sw_bachelor_thesis.Bus.{nfb_comp_trylock, nfb_comp_unlock}
use ndk_sw_bachelor_thesis.Ndp.{
  medusa, calypte, other, NdpCtrl, StartParams, Registers, Write, write32, write64, reg_control,
  reg_mdp, Outcome, minus_one, is_pow2, is_running, is_calypte_tx, write_bases, write_start,
  write_masks, max_ptr_mask, nb_of, is_valid, reset, masks_fit, program, lock_error, under_lock,
  nc_ndp_ctrl_start, ones64,
}
use ndk_sw_bachelor_thesis.Ndp.Handing.{
  is_pow2_lem, request, one_attempt, Unchanged, Taken, granted, given_back,
}

-- `m` masks pointers into a ring of `n` slots, `n` a power of two that 31 bits hold.
abbrev pub IsMask : ℕ → ℕ → Type 0
IsMask n m = (k : ℕ) × (k ≤ 31) × (n ≡ 2 ^ k) × (m ≡ low_mask k)

big_power : (k : ℕ) → 32 ≤ k → 2 ^ 32 ≤ 2 ^ k
big_power zero h = absurd (omega arith)
big_power (suc k) h = elim (dec_le 32 k) [
  | yes p ↦ omega (arith, big_power k p, pow-suc 2 k)
  | no p ↦ omega (arith, ap (λ x. 2 ^ x) {x = suc k} {y = 32} (omega arith))
]

exponent_bound : (k : ℕ) → 2 ^ k ≤ 2 ^ 31 → k ≤ 31
exponent_bound k h = elim (dec_le 32 k) [
  | yes p ↦ absurd (omega (arith, big_power k p))
  | no p ↦ omega arith
]

fits-IsMask :
    (n max : ℕ)
    → n < 2 ^ 32
    → is_pow2 n ≡ true
    → max < 2 ^ 31
    → minus_one n ≤ max
    → IsMask n (minus_one n)
fits-IsMask n max hn pow small fits = elim (is_pow2_lem n hn pow) [
  | inl zeroed ↦ absurd (omega arith)
  | inr (k, e) ↦ (k, exponent_bound k (omega arith), e, omega arith)
]

abbrev is_start : Write → Bool
is_start (write32 reg_control v) = v == 1
is_start w = false

abbrev any_start : List Write → Bool
any_start [] = false
any_start (w ∷ ws) = is_start w || any_start ws

-- The number of slots asked for.
abbrev pub size : NdpCtrl → StartParams → ℕ
size ctrl sp = elim ctrl.ty [ medusa ↦ sp.nb_desc | calypte ↦ sp.nb_data | other ↦ 0 ]

-- All pointers are 0, and the masks are those of the sizes asked for: that of the descriptors except in a
-- Calypte controller that transmits, that of the headers in a controller that receives.
abbrev pub Ready : StartParams → NdpCtrl → NdpCtrl → Type 0
Ready sp before after =
    (after.sdp ≡ 0)
    × (after.hdp ≡ 0)
    × (after.shp ≡ 0)
    × (after.hhp ≡ 0)
    × (after.last_upper_addr ≡ ones64)
    × ((is_calypte_tx before ≡ true) ⊎ IsMask (size before sp) after.mdp)
    × ((before.dir ≢ 0) ⊎ IsMask sp.nb_hdr after.mhp)

any_start-append : (xs ys : List Write) → any_start (xs ++ ys) ≡ (any_start xs || any_start ys)
any_start-append [] ys = refl
any_start-append (x ∷ xs) ys = ground (arith, any_start-append xs ys)

no_start_before : (xs ys : List Write) → any_start xs ≡ false → any_start (xs ++ ys) ≡ any_start ys
no_start_before xs ys e = rw (any_start-append xs ys, e) refl

bases_lem :
    (sp : StartParams) (d_buffer : ℕ) (ctrl : NdpCtrl)
    → any_start (write_bases sp d_buffer ctrl) ≡ false
bases_lem sp d_buffer ctrl = ground arith

start_lem : (ctrl : NdpCtrl) → any_start (write_start ctrl) ≡ true
start_lem ctrl = ground arith

-- The masks are not above those of the card, which it gives as twice the mask and 1 in the low and the high half of
-- the register: the descriptors' in the low half, the headers' in the high half, read where it receives.
abbrev pub Accepted : Registers → NdpCtrl → NdpCtrl → Type 0
Accepted regs before after =
    (is_calypte_tx before ≡ true)
    ⊎ ((2 * after.mdp ≤ regs.val_max % 2 ^ 32)
        × ((before.dir ≢ 0) ⊎ (2 * after.mhp ≤ regs.val_max / 2 ^ 32 % 2 ^ 32)))

-- What the part behind the lock has done by its result.
abbrev Programmed : Registers → StartParams → NdpCtrl → NdpCtrl → Status × List Write → Type 0
Programmed regs sp before ctrl (ok, writes) =
    Ready sp before ctrl × Accepted regs before ctrl × (any_start writes ≡ true)
Programmed regs sp before ctrl (err e, writes) = any_start writes ≡ false

module _ (regs : Registers) (sp : StartParams) (ctrl : NdpCtrl) (hd : size ctrl sp < 2 ^ 32)
    (hh : sp.nb_hdr < 2 ^ 32) (valid : is_valid ctrl sp (size ctrl sp) ≡ true) where
  abbrev ready : NdpCtrl
  ready = reset regs sp (size ctrl sp) ctrl

  tx_Ready : is_calypte_tx ctrl ≡ true → Ready sp ctrl ready
  tx_Ready tx = (refl, refl, refl, refl, refl, inl tx, inl (ground arith))

  header-IsMask :
      is_calypte_tx ctrl ≡ false
      → masks_fit regs ready ≡ true
      → (ctrl.dir ≢ 0) ⊎ IsMask sp.nb_hdr ready.mhp
  header-IsMask not_tx fit = elim (ℕ_discrete ctrl.dir 0) [
    | no e ↦ inl e
    | yes e ↦ inr (
        rw not_tx (
          fits-IsMask sp.nb_hdr (max_ptr_mask regs.val_max).1 hh (ground arith) (omega arith)
            (ground arith)))
  ]

  masks_Ready : is_calypte_tx ctrl ≡ false → masks_fit regs ready ≡ true → Ready sp ctrl ready
  masks_Ready not_tx fit = (
    refl,
    refl,
    refl,
    refl,
    refl,
    inr (
        rw not_tx (
          fits-IsMask (size ctrl sp) (max_ptr_mask regs.val_max).0 hd (ground arith) (omega arith)
            (ground arith))),
    header-IsMask not_tx fit,
  )

  masks_Accepted : masks_fit regs ready ≡ true → Accepted regs ctrl ready
  masks_Accepted fit = inr (ground arith, headers (ℕ_discrete ctrl.dir 0))
    where
      headers :
          Dec (ctrl.dir ≡ 0) → (ctrl.dir ≢ 0) ⊎ (2 * ready.mhp ≤ regs.val_max / 2 ^ 32 % 2 ^ 32)
      headers (no e) = inl e
      headers (yes e) = inr (ground arith)

  by_branch :
      (running tx fit : Bool) (plain masked refused : List Write)
      → (tx ≡ true → Ready sp ctrl ready × Accepted regs ctrl ready)
      → (tx ≡ false → fit ≡ true → Ready sp ctrl ready × Accepted regs ctrl ready)
      → any_start plain ≡ true
      → any_start masked ≡ true
      → any_start refused ≡ false
      → Programmed regs sp ctrl ready (
          if running
          then (err ealready, [])
          else (if tx then (ok, plain) else (if fit then (ok, masked) else (err enomem, refused))))
  by_branch true tx fit plain masked refused a b p q r = refl
  by_branch false true fit plain masked refused a b p q r = ((a refl).0, (a refl).1, p)
  by_branch false false true plain masked refused a b p q r = ((b refl refl).0, (b refl refl).1, q)
  by_branch false false false plain masked refused a b p q r = r

  program-Programmed :
      (d_buffer : ℕ) → Programmed regs sp ctrl ready (program regs sp d_buffer ready)
  unfolding program
  program-Programmed d_buffer =
      let bases = write_bases sp d_buffer ready in
      by_branch (is_running (regs.status 0)) (is_calypte_tx ctrl) (masks_fit regs ready)
        (bases ++ write_start ready)
        (bases ++ (write64 reg_mdp ones64 ∷ (write_masks ready ++ write_start ready)))
        (bases ++ (write64 reg_mdp ones64 ∷ [])) (λ tx. (tx_Ready tx, inl tx))
        (λ not_tx fit. (masks_Ready not_tx fit, masks_Accepted fit))
        (behind_bases (write_start ready) ∙ start_lem ready)
        (behind_bases (write64 reg_mdp ones64 ∷ (write_masks ready ++ write_start ready))
          ∙ start_lem ready)
        (behind_bases (write64 reg_mdp ones64 ∷ []))
    where
      behind_bases :
          (ws : List Write) → any_start (write_bases sp d_buffer ready ++ ws) ≡ any_start ws
      behind_bases ws =
          no_start_before (write_bases sp d_buffer ready) ws (bases_lem sp d_buffer ready)

module _ (memory : ℕ → Bool) (others : ℕ → List LockItem → List LockItem) (kernel_app : ℕ)
    (path : String) where
  abbrev pub LeftBy : Registers → StartParams → NdpCtrl → List LockItem → Outcome → Status → Type 0
  LeftBy regs sp before items o ok =
      Ready sp before o.ctrl
      × Accepted regs before o.ctrl
      × Taken memory others kernel_app path items o.items
      × (any_start o.writes ≡ true)
  LeftBy regs sp before items o (err e) =
      Unchanged memory others kernel_app path items o.items × (any_start o.writes ≡ false)

  abbrev pub Left : Registers → StartParams → NdpCtrl → List LockItem → Outcome → Type 0
  Left regs sp before items o = LeftBy regs sp before items o o.result

  ended :
      (regs : Registers) (sp : StartParams) (before final : NdpCtrl) (items items' : List LockItem)
      (p : Status × List Write)
      → Exclusive items'
      → Taken memory others kernel_app path items items'
      → Programmed regs sp before final p
      → Left regs sp before items (record {
        result = p.0;
        ctrl = final;
        items = elim (p.0) [
          | ok ↦ items'
          | err e ↦ nfb_comp_unlock memory others kernel_app path 1 items'
        ];
        writes = p.1;
      })
  ended regs sp before final items items' (ok, writes) x t (r, a, s) = (r, a, t, s)
  ended regs sp before final items items' (err e, writes) x t s =
      (given_back memory others kernel_app path items items' x t, s)

  under_lock-Left :
      (regs : Registers) (sp : StartParams) (d_buffer : ℕ) (ctrl : NdpCtrl)
      (items items' : List LockItem)
      → size ctrl sp < 2 ^ 32
      → sp.nb_hdr < 2 ^ 32
      → is_valid ctrl sp (size ctrl sp) ≡ true
      → Exclusive items'
      → Taken memory others kernel_app path items items'
      → Left regs sp ctrl items
          (under_lock memory others kernel_app path regs sp (size ctrl sp) d_buffer ctrl items')
  unfolding under_lock
  under_lock-Left regs sp d_buffer ctrl items items' hd hh valid x t =
      ended regs sp ctrl (reset regs sp (size ctrl sp) ctrl) items items'
        (program regs sp d_buffer (reset regs sp (size ctrl sp) ctrl)) x t
        (program-Programmed regs sp ctrl hd hh valid d_buffer)

  -- What the lock's answer makes of it.
  locked-Left :
      (regs : Registers) (sp : StartParams) (d_buffer : ℕ) (ctrl : NdpCtrl)
      (items items' : List LockItem) (s : Status)
      → size ctrl sp < 2 ^ 32
      → sp.nb_hdr < 2 ^ 32
      → is_valid ctrl sp (size ctrl sp) ≡ true
      → Exclusive items'
      → (s ≡ ok → Taken memory others kernel_app path items items')
      → (s ≢ ok → items' ≡ items)
      → Left regs sp ctrl items (elim s [
        | err e ↦ record { result = err (lock_error e); ctrl = ctrl; items = items'; writes = [] }
        | ok ↦ under_lock memory others kernel_app path regs sp (size ctrl sp) d_buffer ctrl items'
      ])
  locked-Left regs sp d_buffer ctrl items items' ok hd hh valid x taken refused =
      under_lock-Left regs sp d_buffer ctrl items items' hd hh valid x (taken refl)
  locked-Left regs sp d_buffer ctrl items items' (err e) hd hh valid x taken refused = (
    λ app component j h. ap (λ l. holds l app component j) (refused (λ same. ground (arith, same))),
    refl,
  )

  sized :
      (ctrl : NdpCtrl) (sp : StartParams) (n b : ℕ) → nb_of ctrl sp ≡ some (n, b) → n ≡ size ctrl sp
  sized ctrl sp n b e = ground arith

  checked :
      (regs : Registers) (sp : StartParams) (ctrl : NdpCtrl) (items : List LockItem) (valid : Bool)
      (rest : Outcome)
      → (valid ≡ true → Left regs sp ctrl items rest)
      → Left regs sp ctrl items (
          if not valid
          then record { result = err einval; ctrl = ctrl; items = items; writes = [] }
          else rest)
  checked regs sp ctrl items true rest r = r refl
  checked regs sp ctrl items false rest r = (λ app component j h. refl, refl)

  pub start-Left :
      (regs : Registers) (sp : StartParams) (ctrl : NdpCtrl) (items : List LockItem)
      → size ctrl sp < 2 ^ 32
      → sp.nb_hdr < 2 ^ 32
      → Exclusive items
      → Left regs sp ctrl items (nc_ndp_ctrl_start memory others kernel_app path regs sp ctrl items)
  unfolding nc_ndp_ctrl_start
  start-Left regs sp ctrl items hd hh x = elim (Option-cases (nb_of ctrl sp)) [
    | inl e ↦ rw (e, nc_ndp_ctrl_start) (λ app component j h. refl, refl)
    | inr ((n, b), e) ↦
        let at_size : nb_of ctrl sp ≡ some (size ctrl sp, b) =
          e ∙ ap (λ m. some (m, b)) (sized ctrl sp n b e) in
        let attempt = nfb_comp_trylock memory others kernel_app path 1 0 items in
        let (status_is, items_are) = one_attempt memory others kernel_app path items in
        let tried =
          nfb_lock_try_lock (memory 0) kernel_app (request memory others kernel_app path) items in
        rw (at_size, nc_ndp_ctrl_start)
          (checked regs sp ctrl items (is_valid ctrl sp (size ctrl sp)) _ (λ valid.
            locked-Left regs sp b ctrl items attempt.items attempt.status hd hh valid
              (subst Exclusive (sym items_are) (try_lock-Exclusive (memory 0) kernel_app _ items x))
              (λ s.
                subst (Taken memory others kernel_app path items) (sym items_are)
                  (granted memory others kernel_app path items (sym status_is ∙ s)))
              (λ s.
                items_are
                ∙ try_lock_refused (memory 0) kernel_app _ items (λ t. s (status_is ∙ t)))))
  ]
