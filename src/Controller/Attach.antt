-- ===== src/Controller/Attach.antt =====
-- drivers/kernel/drivers/nfb/ndp/ctrl_ndp.c: what attaching a ring to a controller acquires, what each error label gives
-- back, and what detaching gives back. Whether an acquisition succeeds is decided by the kernel: `grants` for memory and
-- mappings, `register` for what `nfb_char_register_mmap` returns. The labels fall through, so each is the code from its
-- place to the end of the function.
pub mod Balance
use ndk_sw_bachelor_thesis.Common.{
  ℕ, ◌*◌, ◌/◌, ◌<◌, Bool, true, false, not, ◌||◌, List, [], ◌∷◌, ◌++◌, ◌==◌, ltb, min,
  if◌then◌else◌, Status, ok, err, einval, enomem, ebadfd,
}
use ndk_sw_bachelor_thesis.Common.Ledger.{Entry, taken, given}

pub data Resource : Type 0 where
  update_buffer desc_buffer desc_map off_buffer off_map off_mmap hdr_buffer hdr_map hdr_mmap :
      Resource

-- What is returned, what was acquired and given back, and whether the buffers are set in the end: a label that frees a
-- buffer sets it to NULL, so that all are set or none.
pub record Attached : Type 0 where
  pub ret : Status
  pub entries : List (Entry Resource)
  pub is_set : Bool

abbrev pub failed : Status → List (Entry Resource) → Attached
failed ret entries = record { ret = ret; entries = entries; is_set = false }

abbrev pub finished : Attached
finished = record { ret = ok; entries = []; is_set = true }

abbrev pub having : Resource → Attached → Attached
having r rest = record { ret = rest.ret; entries = taken r ∷ rest.entries; is_set = rest.is_set }

-- The labels of `ndp_ctrl_medusa_attach_ring`, the last one first
abbrev pub err_alloc_desc : List (Entry Resource)
err_alloc_desc = given update_buffer ∷ []

abbrev pub err_vmap_desc : List (Entry Resource)
err_vmap_desc = given desc_buffer ∷ err_alloc_desc

abbrev pub err_alloc_off : List (Entry Resource)
err_alloc_off = given desc_map ∷ err_vmap_desc

abbrev pub err_vmap_off_buffer : List (Entry Resource)
err_vmap_off_buffer = given off_buffer ∷ err_alloc_off

abbrev pub err_register_mmap_off : List (Entry Resource)
err_register_mmap_off = given off_map ∷ err_vmap_off_buffer

abbrev pub err_alloc_hdr : List (Entry Resource)
err_alloc_hdr = given off_mmap ∷ err_register_mmap_off

abbrev pub err_vmap_hdr_buffer : List (Entry Resource)
err_vmap_hdr_buffer = given hdr_buffer ∷ err_alloc_hdr

abbrev pub err_register_mmap_hdr : List (Entry Resource)
err_register_mmap_hdr = given hdr_map ∷ err_vmap_hdr_buffer

module _ (grants : Resource → Bool) (register : Resource → Status) where
  -- An allocation or a mapping; `ret` is what the variable holds when it fails.
  abbrev pub acquire : Resource → Status → List (Entry Resource) → Attached → Attached
  acquire r ret label rest = if grants r then having r rest else failed ret label

  -- A registration, whose result `ret` is.
  abbrev pub enlist : Resource → List (Entry Resource) → Attached → Attached
  enlist r label rest = elim (register r) [ ok ↦ having r rest | err e ↦ failed (err e) label ]

  -- `requested` is the answer of `ndp_ctrl_medusa_req_block_update`. Once the mapping of the offsets is registered, the
  -- variable holds 0.
  unfoldable pub ndp_ctrl_medusa_attach_ring : (ring_size : ℕ) → (requested : Status) → Attached
  ndp_ctrl_medusa_attach_ring ring_size requested =
      if ring_size == 0 then failed (err einval) [] else elim requested [
        | err e ↦ failed (err einval) []
        | ok ↦ acquire update_buffer (err enomem) [] (
            acquire desc_buffer (err enomem) err_alloc_desc (
              acquire desc_map (err enomem) err_vmap_desc (
                acquire off_buffer (err enomem) err_alloc_off (
                  acquire off_map (err enomem) err_vmap_off_buffer (
                    enlist off_mmap err_register_mmap_off (
                      acquire hdr_buffer ok err_alloc_hdr (
                        acquire hdr_map ok err_vmap_hdr_buffer
                          (enlist hdr_mmap err_register_mmap_hdr finished))))))))
      ]

  -- The part of the Calypte functions that they share: the headers alone.
  abbrev pub headers : Status → Attached
  headers no_buffer = acquire hdr_buffer no_buffer [] (
      acquire hdr_map (err enomem) (given hdr_buffer ∷ [])
        (enlist hdr_mmap (given hdr_map ∷ given hdr_buffer ∷ []) finished))

  -- NDP_RX_CALYPTE_BLOCK_SIZE is 128, and a header has 8 bytes.
  unfoldable pub ndp_ctrl_rx_calypte_attach_ring : (page_size ring_size block_count : ℕ) → Attached
  ndp_ctrl_rx_calypte_attach_ring page_size ring_size block_count =
      if ring_size == 0 || not (block_count == 1) || ltb (ring_size / 128 * min 128 8) page_size
      then failed (err einval) []
      else headers (err einval)

  -- `found` tells whether the nodes and sizes of the buffers are in the device tree.
  unfoldable pub ndp_ctrl_tx_calypte_attach_ring : (found : Bool) → Attached
  ndp_ctrl_tx_calypte_attach_ring found =
      if found then headers (err enomem) else failed (err ebadfd) []

unfoldable pub ndp_ctrl_medusa_detach_ring : Bool → List (Entry Resource)
ndp_ctrl_medusa_detach_ring false = []
ndp_ctrl_medusa_detach_ring true =
    given hdr_mmap
    ∷ given hdr_map
    ∷ given hdr_buffer
    ∷ given off_map
    ∷ given off_buffer
    ∷ given desc_map
    ∷ given desc_buffer
    ∷ given update_buffer
    ∷ []

unfoldable pub ndp_ctrl_calypte_detach_ring : Bool → List (Entry Resource)
ndp_ctrl_calypte_detach_ring false = []
ndp_ctrl_calypte_detach_ring true = given hdr_mmap ∷ given hdr_map ∷ given hdr_buffer ∷ []
