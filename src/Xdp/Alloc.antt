-- ===== src/Xdp/Alloc.antt =====
-- drivers/kernel/drivers/nfb/xdp/ctrl_xdp_pp.c and ctrl_xdp_xsk.c: what the allocation of a queue's
-- controller acquires, in which order, and what each error label gives back. Whether an acquisition
-- succeeds is decided by the kernel, the parameter `grants`; `found` is the lookup of the controller's
-- node. The labels fall through, so each is the code from its place to the end of the function.
pub mod Balance
use ndk_sw_bachelor_thesis.Common.{ℕ, Bool, true, false, List, [], ◌∷◌, ◌++◌, if◌then◌else◌}

-- `enum xdp_ctrl_type`
pub data QueueType : Type 0 where
  rx tx : QueueType

pub data Resource : Type 0 where
  ctrl_struct xdp_ring xdp_buffs tx_buffers : Resource
  desc_buffer update_buffer hdr_buffer : Resource
  page_pool rxq_info mem_model ndp_ctrl : Resource

-- `garbage` is `kfree` of a pointer that was never assigned.
pub data Event : Type 0 where
  acquired released : Resource → Event
  garbage : Event

abbrev pub Outcome : Type 0
Outcome = Bool × List Event

-- One allocation with the label that its failure jumps to.
abbrev pub acquire : (Resource → Bool) → Resource → List Event → Outcome → Outcome
acquire grants r fail rest = if grants r then (rest.0, acquired r ∷ rest.1) else (false, fail)

abbrev pub for_rx : QueueType → List Event → List Event
for_rx rx events = events
for_rx tx events = []

-- The labels of `nfb_xctrl_alloc_pp`, the last one first.
abbrev pub buff_fail : List Event
buff_fail = released ctrl_struct ∷ []

abbrev pub buffs_fail : QueueType → List Event
buffs_fail rx = released xdp_ring ∷ buff_fail
buffs_fail tx = released tx_buffers ∷ buff_fail

-- `kfree(buffs)`: on a TX queue the variable holds nothing.
abbrev pub data_fail_pp : QueueType → List Event
data_fail_pp rx = released xdp_buffs ∷ buffs_fail rx
data_fail_pp tx = garbage ∷ buffs_fail tx

abbrev pub update_fail_pp : QueueType → List Event
update_fail_pp type = released desc_buffer ∷ data_fail_pp type

abbrev pub hdr_fail_pp : QueueType → List Event
hdr_fail_pp type = released update_buffer ∷ update_fail_pp type

abbrev pub pool_fail_pp : QueueType → List Event
pool_fail_pp type = for_rx type (released hdr_buffer ∷ []) ++ hdr_fail_pp type

abbrev pub reg_fail_pp : QueueType → List Event
reg_fail_pp type = for_rx type (released page_pool ∷ []) ++ pool_fail_pp type

abbrev pub model_fail_pp : QueueType → List Event
model_fail_pp type = for_rx type (released rxq_info ∷ []) ++ reg_fail_pp type

abbrev pub open_fail_pp : QueueType → List Event
open_fail_pp type = for_rx type (released mem_model ∷ []) ++ model_fail_pp type

unfoldable pub nfb_xctrl_alloc_pp : (Resource → Bool) → Bool → QueueType → Outcome
nfb_xctrl_alloc_pp grants false type = (false, [])
nfb_xctrl_alloc_pp grants true rx = acquire grants ctrl_struct [] (
    acquire grants xdp_ring buff_fail (
      acquire grants xdp_buffs (buffs_fail rx) (
        acquire grants desc_buffer (data_fail_pp rx) (
          acquire grants update_buffer (update_fail_pp rx) (
            acquire grants hdr_buffer (hdr_fail_pp rx) (
              acquire grants page_pool (pool_fail_pp rx) (
                acquire grants rxq_info (reg_fail_pp rx) (
                  acquire grants mem_model (model_fail_pp rx)
                    (acquire grants ndp_ctrl (open_fail_pp rx) (true, []))))))))))
nfb_xctrl_alloc_pp grants true tx = acquire grants ctrl_struct [] (
    acquire grants tx_buffers buff_fail (
      acquire grants desc_buffer (data_fail_pp tx) (
        acquire grants update_buffer (update_fail_pp tx)
          (acquire grants ndp_ctrl (open_fail_pp tx) (true, [])))))

-- The labels of `nfb_xctrl_alloc_xsk`, the last one first.
abbrev pub update_fail_xsk : QueueType → List Event
update_fail_xsk type = released desc_buffer ∷ buffs_fail type

abbrev pub hdr_fail_xsk : QueueType → List Event
hdr_fail_xsk type = released update_buffer ∷ update_fail_xsk type

abbrev pub reg_fail_xsk : QueueType → List Event
reg_fail_xsk type = for_rx type (released hdr_buffer ∷ []) ++ hdr_fail_xsk type

abbrev pub model_fail_xsk : QueueType → List Event
model_fail_xsk type = for_rx type (released rxq_info ∷ []) ++ reg_fail_xsk type

abbrev pub open_fail_xsk : QueueType → List Event
open_fail_xsk type = for_rx type (released mem_model ∷ []) ++ model_fail_xsk type

unfoldable pub nfb_xctrl_alloc_xsk : (Resource → Bool) → Bool → QueueType → Outcome
nfb_xctrl_alloc_xsk grants false type = (false, [])
nfb_xctrl_alloc_xsk grants true rx = acquire grants ctrl_struct [] (
    acquire grants xdp_ring buff_fail (
      acquire grants desc_buffer (buffs_fail rx) (
        acquire grants update_buffer (update_fail_xsk rx) (
          acquire grants hdr_buffer (hdr_fail_xsk rx) (
            acquire grants rxq_info (reg_fail_xsk rx) (
              acquire grants mem_model (model_fail_xsk rx)
                (acquire grants ndp_ctrl (open_fail_xsk rx) (true, []))))))))
nfb_xctrl_alloc_xsk grants true tx = acquire grants ctrl_struct [] (
    acquire grants tx_buffers buff_fail (
      acquire grants desc_buffer (buffs_fail tx) (
        acquire grants update_buffer (update_fail_xsk tx)
          (acquire grants ndp_ctrl (open_fail_xsk tx) (true, [])))))

-- What the two destructors give back, behind the stop of a running controller.
unfoldable pub nfb_xctrl_destroy_pp : QueueType → List Event
nfb_xctrl_destroy_pp rx =
    released ndp_ctrl
    ∷ released desc_buffer
    ∷ released update_buffer
    ∷ released hdr_buffer
    ∷ released mem_model
    ∷ released rxq_info
    ∷ released xdp_buffs
    ∷ released xdp_ring
    ∷ released ctrl_struct
    ∷ []
nfb_xctrl_destroy_pp tx =
    released ndp_ctrl
    ∷ released desc_buffer
    ∷ released update_buffer
    ∷ released tx_buffers
    ∷ released ctrl_struct
    ∷ []

unfoldable pub nfb_xctrl_destroy_xsk : QueueType → List Event
nfb_xctrl_destroy_xsk rx =
    released ndp_ctrl
    ∷ released desc_buffer
    ∷ released update_buffer
    ∷ released hdr_buffer
    ∷ released mem_model
    ∷ released rxq_info
    ∷ released xdp_ring
    ∷ released ctrl_struct
    ∷ []
nfb_xctrl_destroy_xsk tx =
    released ndp_ctrl
    ∷ released desc_buffer
    ∷ released update_buffer
    ∷ released tx_buffers
    ∷ released ctrl_struct
    ∷ []
