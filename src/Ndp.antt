-- ===== src/Ndp.antt =====
-- libnfb/include/netcope/dma_ctrl_ndp.h: opening, starting and stopping one DMA controller. What the
-- controller's registers answer is an argument; what is written to them is a list. The component's lock
-- is the one of bus.c, taken with no time to wait.
pub mod Handing
pub mod Start
pub mod Stop
pub mod Restart
mod Tests
use ndk_sw_bachelor_thesis.Common.{
  ℕ, zero, suc, ◌+◌, ◌-◌, ◌*◌, ◌/◌, ◌%◌, ◌^◌, bit_and, bit_or, Bool, true, false, ◌&&◌, ◌||◌, not,
  Option, none, some, List, [], ◌∷◌, ◌++◌, String, Status, Errno, ok, err, ebusy, eexist, enodev,
  einval, enomem, ealready, eagain, einprogress, ltb, ◌==◌, if◌then◌else◌,
}
use ndk_sw_bachelor_thesis.Lock.{LockItem}
use ndk_sw_bachelor_thesis.Bus.{nfb_comp_trylock, nfb_comp_unlock}

-- `DMA_TYPE_*`, and any other number
pub data DmaType : Type 0 where
  medusa calypte other : DmaType

-- `struct nc_ndp_ctrl`, with the two words of its update buffer.
pub record NdpCtrl : Type 0 where
  pub ty : DmaType
  pub dir : ℕ
  pub last_upper_addr : ℕ
  pub mdp : ℕ
  pub mhp : ℕ
  pub sdp : ℕ
  pub hdp : ℕ
  pub shp : ℕ
  pub hhp : ℕ
  pub update0 : ℕ
  pub update1 : ℕ

-- `struct nc_ndp_ctrl_start_params`
pub record StartParams : Type 0 where
  pub desc_buffer : ℕ
  pub data_buffer : ℕ
  pub hdr_buffer : ℕ
  pub update_buffer : ℕ
  pub nb_data : ℕ
  pub nb_desc : ℕ
  pub nb_hdr : ℕ

-- What the registers answer: the status at each read, the pointers, the masks, and the pair of masks that
-- is read back when all ones were written.
pub record Registers : Type 0 where
  pub status : ℕ → ℕ
  pub hdp_reg : ℕ
  pub hhp_reg : ℕ
  pub mdp_reg : ℕ
  pub mhp_reg : ℕ
  pub val_max : ℕ

pub data Register : Type 0 where
  reg_control reg_sdp reg_shp reg_desc_base reg_hdr_base reg_update_base reg_mdp reg_mhp
        reg_timeout :
      Register

-- `nfb_comp_write32` and `nfb_comp_write64`
pub data Write : Type 0 where
  write32 write64 : Register → ℕ → Write

abbrev pub ones64 : ℕ
ones64 = 2 ^ 64 - 1

-- `n - 1` in 32 bits
abbrev pub minus_one : ℕ → ℕ
minus_one n = (n + 2 ^ 32 - 1) % 2 ^ 32

-- `(n & (n - 1)) == 0`
abbrev pub is_pow2 : ℕ → Bool
is_pow2 n = bit_and n (minus_one n) == 0

abbrev pub is_running : ℕ → Bool
is_running status = not (bit_and status 1 == 0)

abbrev pub is_calypte_tx : NdpCtrl → Bool
is_calypte_tx ctrl = elim ctrl.ty [ medusa ↦ false | calypte ↦ ctrl.dir == 1 | other ↦ false ]

-- The two halves of what is read back, shifted right by one.
abbrev pub max_ptr_mask : ℕ → ℕ × ℕ
max_ptr_mask val_max = (val_max % 2 ^ 32 / 2, val_max / 2 ^ 32 % 2 ^ 32 / 2)

abbrev pub nc_ndp_ctrl_hdp_update : Registers → NdpCtrl → NdpCtrl
nc_ndp_ctrl_hdp_update regs ctrl = elim ctrl.ty [
  | medusa ↦ record ctrl { hdp = ctrl.update0 }
  | calypte ↦ record ctrl { hdp = bit_and regs.hdp_reg ctrl.mdp }
  | other ↦ ctrl
]

-- The position, among the four compatible strings, of the first that the node has: the type and direction.
abbrev pub kind_of : (ℕ → Bool) → Option (DmaType × ℕ)
kind_of compatible =
    if compatible 0
    then some (medusa, 0)
    else (if compatible 1
        then some (medusa, 1)
        else (if compatible 2
            then some (calypte, 0)
            else (if compatible 3 then some (calypte, 1) else none)))

-- `opened` tells whether `nfb_comp_open` gives a component.
unfoldable pub nc_ndp_ctrl_open : Bool → (ℕ → Bool) → Bool → NdpCtrl → Status × NdpCtrl
nc_ndp_ctrl_open has_device compatible opened ctrl =
    if not has_device then (err einval, ctrl) else elim (kind_of compatible) [
      | none ↦ (err einval, ctrl)
      | some (ty, dir) ↦
          if opened
          then (ok, record ctrl { ty = ty; dir = dir })
          else (err enodev, record ctrl { ty = ty })
    ]

-- The sizes that `nc_ndp_ctrl_start` is to use, with the tests on them.
abbrev pub nb_of : NdpCtrl → StartParams → Option (ℕ × ℕ)
nb_of ctrl sp = elim ctrl.ty [
  | medusa ↦ some (sp.nb_desc, sp.desc_buffer)
  | calypte ↦ some (sp.nb_data, sp.data_buffer)
  | other ↦ none
]

abbrev pub is_valid : NdpCtrl → StartParams → ℕ → Bool
is_valid ctrl sp nb_d = is_pow2 nb_d && (not (ctrl.dir == 0) || is_pow2 sp.nb_hdr)

-- The controller's fields once the lock is taken.
abbrev pub reset : Registers → StartParams → ℕ → NdpCtrl → NdpCtrl
reset regs sp nb_d ctrl = record ctrl {
  last_upper_addr = ones64;
  mdp = if is_calypte_tx ctrl then regs.mdp_reg else minus_one nb_d;
  mhp = if is_calypte_tx ctrl then regs.mhp_reg else minus_one sp.nb_hdr;
  sdp = 0;
  hdp = 0;
  shp = 0;
  hhp = 0;
  update0 = elim ctrl.ty [ medusa ↦ 0 | calypte ↦ ctrl.update0 | other ↦ ctrl.update0 ];
  update1 = elim ctrl.ty [
    | medusa ↦ if ctrl.dir == 0 then 0 else ctrl.update1
    | calypte ↦ ctrl.update1
    | other ↦ ctrl.update1
  ];
}

-- The masks fit what the controller can take.
abbrev pub masks_fit : Registers → NdpCtrl → Bool
masks_fit regs ctrl =
    let (mdp_max, mhp_max) = max_ptr_mask regs.val_max in
    not (ltb mdp_max ctrl.mdp || ctrl.dir == 0 && ltb mhp_max ctrl.mhp)

abbrev pub write_bases : StartParams → ℕ → NdpCtrl → List Write
write_bases sp d_buffer ctrl =
    (if is_calypte_tx ctrl then [] else write64 reg_desc_base d_buffer ∷ [])
    ++ elim ctrl.ty [
      | medusa ↦ write64 reg_update_base sp.update_buffer ∷ []
      | calypte ↦ []
      | other ↦ []
    ]
    ++ (if ctrl.dir == 0 then write64 reg_hdr_base sp.hdr_buffer ∷ [] else [])

abbrev pub write_masks : NdpCtrl → List Write
write_masks ctrl = write32 reg_mdp ctrl.mdp ∷ write32 reg_mhp ctrl.mhp ∷ []

abbrev pub write_start : NdpCtrl → List Write
write_start ctrl =
    (write64 reg_sdp 0 ∷ [])
    ++ elim ctrl.ty [ medusa ↦ write32 reg_timeout 16384 ∷ [] | calypte ↦ [] | other ↦ [] ]
    ++ (write32 reg_control 1 ∷ [])

-- What a start or a stop leaves behind.
pub record Outcome : Type 0 where
  pub result : Status
  pub ctrl : NdpCtrl
  pub items : List LockItem
  pub writes : List Write

-- The part of `nc_ndp_ctrl_start` behind the lock: what it returns, and what it writes.
unfoldable pub program : Registers → StartParams → ℕ → NdpCtrl → Status × List Write
program regs sp d_buffer ctrl =
    if is_running (regs.status 0)
    then (err ealready, [])
    else (if is_calypte_tx ctrl
        then (ok, write_bases sp d_buffer ctrl ++ write_start ctrl)
        else (if masks_fit regs ctrl
            then (
              ok,
              write_bases sp d_buffer ctrl
                  ++ (write64 reg_mdp ones64 ∷ (write_masks ctrl ++ write_start ctrl)),
            )
            else (err enomem, write_bases sp d_buffer ctrl ++ (write64 reg_mdp ones64 ∷ []))))

-- EBUSY of the lock is answered as EEXIST.
abbrev pub lock_error : Errno → Errno
lock_error ebusy = eexist
lock_error e = e

module _ (memory : ℕ → Bool) (others : ℕ → List LockItem → List LockItem) (kernel_app : ℕ)
    (path : String) where
  -- The part behind the lock, which gives the lock back on an error.
  unfoldable pub under_lock : Registers → StartParams → ℕ → ℕ → NdpCtrl → List LockItem → Outcome
  unfolding program
  under_lock regs sp nb_d d_buffer ctrl items =
      let ready = reset regs sp nb_d ctrl in
      let (ret, writes) = program regs sp d_buffer ready in
      record {
        result = ret;
        ctrl = ready;
        items = elim ret [
          | ok ↦ items
          | err e ↦ nfb_comp_unlock memory others kernel_app path 1 items
        ];
        writes = writes;
      }

  unfoldable pub nc_ndp_ctrl_start : Registers → StartParams → NdpCtrl → List LockItem → Outcome
  unfolding under_lock
  nc_ndp_ctrl_start regs sp ctrl items = elim (nb_of ctrl sp) [
    | none ↦ record { result = err enodev; ctrl = ctrl; items = items; writes = [] }
    | some (nb_d, d_buffer) ↦
        let attempt = nfb_comp_trylock memory others kernel_app path 1 0 items in
        if not (is_valid ctrl sp nb_d)
        then record { result = err einval; ctrl = ctrl; items = items; writes = [] }
        else elim attempt.status [
          | err e ↦ record {
            result = err (lock_error e);
            ctrl = ctrl;
            items = attempt.items;
            writes = [];
          }
          | ok ↦ under_lock regs sp nb_d d_buffer ctrl attempt.items
        ]
  ]

  -- The loop on the status: `rounds` is what `100 - counter` leaves.
  unfoldable pub await_stopped : (ℕ → ℕ) → ℕ → ℕ → Bool
  await_stopped status zero n = not (is_running (status n))
  await_stopped status (suc rounds) n =
      let later = await_stopped status rounds (n + 1) in
      if is_running (status n) then later else true

  -- The part of `_nc_ndp_ctrl_stop` from the write of STOP on; `ret` is its value there.
  unfoldable pub halt : Registers → Bool → Status → NdpCtrl → List LockItem → Outcome
  unfolding await_stopped
  halt regs force ret ctrl items =
      let writes = (write32 reg_control 0 ∷ []) ++ elim ctrl.ty [
        | medusa ↦ []
        | calypte ↦
            if ctrl.dir == 0
            then write32 reg_sdp regs.hdp_reg ∷ write32 reg_shp regs.hhp_reg ∷ []
            else []
        | other ↦ []
      ] in
      if await_stopped regs.status 100 0
      then record {
        result = ok;
        ctrl = ctrl;
        items = nfb_comp_unlock memory others kernel_app path 1 items;
        writes = writes;
      }
      else record {
        result = elim ret [ ok ↦ err eagain | err e ↦ err e ];
        ctrl = ctrl;
        items = if force then nfb_comp_unlock memory others kernel_app path 1 items else items;
        writes = writes;
      }

  unfoldable pub stop_with : Registers → Bool → NdpCtrl → List LockItem → Outcome
  unfolding halt
  stop_with regs force ctrl items =
      let fresh = nc_ndp_ctrl_hdp_update regs ctrl in
      if ctrl.dir == 0
      then halt regs force ok ctrl items
      else (if fresh.sdp == fresh.hdp
          then halt regs force ok fresh items
          else (if force then halt regs force (err ebusy) fresh items else record {
            result = if ctrl.hdp == fresh.hdp then err eagain else err einprogress;
            ctrl = fresh;
            items = items;
            writes = [];
          }))

  unfoldable pub nc_ndp_ctrl_stop_force : Registers → NdpCtrl → List LockItem → Outcome
  unfolding stop_with
  nc_ndp_ctrl_stop_force regs = stop_with regs true

  unfoldable pub nc_ndp_ctrl_stop : Registers → NdpCtrl → List LockItem → Outcome
  unfolding stop_with
  nc_ndp_ctrl_stop regs = stop_with regs false
