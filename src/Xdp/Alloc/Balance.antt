-- ===== src/Xdp/Alloc/Balance.antt =====
-- Allocation and destruction of an XDP controller (ctrl_xdp_pp.c, ctrl_xdp_xsk.c) as a ledger: what is
-- live after a run, and whether anything was given back that was not live.
use ndk_sw_bachelor_thesis.Common.{
  ℕ, ◌≡◌, refl, Bool, true, false, ◌&&◌, not, Option, none, some, List, [], ◌∷◌, ◌++◌, arith, ◌==◌,
  if◌then◌else◌,
}
use ndk_sw_bachelor_thesis.Xdp.Alloc.{
  QueueType, rx, tx, Resource, ctrl_struct, xdp_ring, xdp_buffs, tx_buffers, desc_buffer,
  update_buffer, hdr_buffer, page_pool, rxq_info, mem_model, ndp_ctrl, Event, acquired, released,
  garbage, nfb_xctrl_alloc_pp, nfb_xctrl_alloc_xsk, nfb_xctrl_destroy_pp, nfb_xctrl_destroy_xsk,
}

abbrev number : Resource → ℕ
number ctrl_struct = 0
number xdp_ring = 1
number xdp_buffs = 2
number tx_buffers = 3
number desc_buffer = 4
number update_buffer = 5
number hdr_buffer = 6
number page_pool = 7
number rxq_info = 8
number mem_model = 9
number ndp_ctrl = 10

-- Takes a resource off the live ones; `none`: it is not live.
abbrev pub give_back : Resource → List Resource → Option (List Resource)
give_back r [] = none
give_back r (l ∷ ls) =
    let rest = give_back r ls in
    if number l == number r then some ls else elim rest [ none ↦ none | some ls' ↦ some (l ∷ ls') ]

-- In page pool mode the unregistration of the memory model destroys the pool too, as the driver's
-- comment in the destructor says.
abbrev pub give_back_pp : Resource → List Resource → Option (List Resource)
give_back_pp mem_model live = elim (give_back mem_model live) [
  | none ↦ none
  | some rest ↦ give_back page_pool rest
]
give_back_pp r live = give_back r live

abbrev pub replay :
    (Resource → List Resource → Option (List Resource))
    → List Event
    → List Resource
    → Option (List Resource)
replay free [] live = some live
replay free (acquired r ∷ events) live = replay free events (r ∷ live)
replay free (garbage ∷ events) live = none
replay free (released r ∷ events) live = elim (free r live) [
  | none ↦ none
  | some rest ↦ replay free events rest
]

-- A failed allocation in AF_XDP mode gives back all that it acquired, and nothing twice; a successful
-- one followed by the destructor does so too.
xsk_balanced :
    (grants : Resource → Bool) (found : Bool) (type : QueueType)
    → let (success, events) = nfb_xctrl_alloc_xsk grants found type in
      replay give_back (if success then events ++ nfb_xctrl_destroy_xsk type else events) []
      ≡ some []
unfolding nfb_xctrl_alloc_xsk nfb_xctrl_destroy_xsk
xsk_balanced grants false type = refl
xsk_balanced grants true rx = ground arith
xsk_balanced grants true tx = ground arith

-- The failures that `nfb_xctrl_alloc_pp` does not undo: on an RX queue an error of `nc_ndp_ctrl_open`,
-- with all else acquired; on a TX queue every error behind the allocation of the buffers.
abbrev pub undone_badly : (Resource → Bool) → Bool → QueueType → Bool
undone_badly grants false type = false
undone_badly grants true rx =
    grants ctrl_struct
    && grants xdp_ring
    && grants xdp_buffs
    && grants desc_buffer
    && grants update_buffer
    && grants hdr_buffer
    && grants page_pool
    && grants rxq_info
    && grants mem_model
    && not (grants ndp_ctrl)
undone_badly grants true tx =
    grants ctrl_struct
    && grants tx_buffers
    && not (grants desc_buffer && grants update_buffer && grants ndp_ctrl)

-- In page pool mode an allocation, followed by the destructor if it succeeds, gives back exactly what it
-- acquired, except in the failures of `undone_badly`: there something is freed that is not live, the
-- page pool a second time on an RX queue, an unassigned pointer on a TX queue.
pub pp_balanced_unless :
    (grants : Resource → Bool) (found : Bool) (type : QueueType)
    → let (success, events) = nfb_xctrl_alloc_pp grants found type in
      replay give_back_pp (if success then events ++ nfb_xctrl_destroy_pp type else events) []
      ≡ (if undone_badly grants found type then none else some [])
unfolding nfb_xctrl_alloc_pp nfb_xctrl_destroy_pp
pp_balanced_unless grants false type = refl
pp_balanced_unless grants true rx = ground arith
pp_balanced_unless grants true tx = ground arith
