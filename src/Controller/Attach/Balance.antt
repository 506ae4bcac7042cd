-- ===== src/Controller/Attach/Balance.antt =====
-- Attaching and detaching a ring (ndp/ctrl_ndp.c) as a ledger: what is live afterwards.
use ndk_sw_bachelor_thesis.Common.{
  ℕ, ◌≡◌, Bool, true, false, ◌&&◌, ◌||◌, not, Option, some, List, [], ◌∷◌, ◌++◌, ◌==◌,
  if◌then◌else◌, Status, ok, err, arith,
}
use ndk_sw_bachelor_thesis.Common.Ledger.{Entry, balance}
use ndk_sw_bachelor_thesis.Controller.Attach.{
  Resource, update_buffer, desc_buffer, desc_map, off_buffer, off_map, off_mmap, hdr_buffer,
  hdr_map, hdr_mmap, Attached, ndp_ctrl_medusa_attach_ring, ndp_ctrl_rx_calypte_attach_ring,
  ndp_ctrl_tx_calypte_attach_ring, ndp_ctrl_medusa_detach_ring, ndp_ctrl_calypte_detach_ring,
}

abbrev number : Resource → ℕ
number update_buffer = 0
number desc_buffer = 1
number desc_map = 2
number off_buffer = 3
number off_map = 4
number off_mmap = 5
number hdr_buffer = 6
number hdr_map = 7
number hdr_mmap = 8

-- What is live after a ring was attached and, whatever was answered, detached.
abbrev pub left : Attached → (Bool → List (Entry Resource)) → Option (List Resource)
left a detach = balance number (a.entries ++ detach a.is_set) []

abbrev pub is_ok : Status → Bool
is_ok ok = true
is_ok (err e) = false

-- The headers could not be had after the mapping of the offsets was registered.
abbrev pub is_headerless : (Resource → Bool) → (Resource → Status) → ℕ → Status → Bool
is_headerless grants register ring_size requested =
    not (ring_size == 0)
    && is_ok requested
    && grants update_buffer
    && grants desc_buffer
    && grants desc_map
    && grants off_buffer
    && grants off_map
    && is_ok (register off_mmap)
    && not (grants hdr_buffer && grants hdr_map)

-- Attaching a Medusa ring and detaching it, whatever was answered, gives back what was acquired and nothing twice, but
-- for the registration of the offsets' mapping, which is left when the attachment was complete. The answer is 0 when it
-- was complete, and also when the memory or the mapping of the headers failed, with all given back.
pub medusa_attach-Balanced :
    (grants : Resource → Bool) (register : Resource → Status) (ring_size : ℕ) (requested : Status)
    → let attached = ndp_ctrl_medusa_attach_ring grants register ring_size requested in
      (left attached ndp_ctrl_medusa_detach_ring
        ≡ some (if attached.is_set then off_mmap ∷ [] else []))
      × (is_ok attached.ret
          ≡ (attached.is_set || is_headerless grants register ring_size requested))
unfolding ndp_ctrl_medusa_attach_ring ndp_ctrl_medusa_detach_ring
medusa_attach-Balanced grants register ring_size ok = ground arith
medusa_attach-Balanced grants register ring_size (err e) = ground arith

-- Attaching a Calypte ring, for reception or transmission, and detaching it gives back exactly what was acquired, and
-- the answer is 0 exactly when all was acquired.
calypte_attach-Balanced :
    (grants : Resource → Bool) (register : Resource → Status) (page_size ring_size block_count : ℕ)
    (found : Bool)
    → let received =
        ndp_ctrl_rx_calypte_attach_ring grants register page_size ring_size block_count in
      let sent = ndp_ctrl_tx_calypte_attach_ring grants register found in
      (left received ndp_ctrl_calypte_detach_ring ≡ some [])
      × (left sent ndp_ctrl_calypte_detach_ring ≡ some [])
      × (is_ok received.ret ≡ received.is_set)
      × (is_ok sent.ret ≡ sent.is_set)
unfolding ndp_ctrl_rx_calypte_attach_ring ndp_ctrl_tx_calypte_attach_ring
    ndp_ctrl_calypte_detach_ring
calypte_attach-Balanced grants register page_size ring_size block_count found = ground arith
