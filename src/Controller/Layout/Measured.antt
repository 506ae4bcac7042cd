-- ===== src/Controller/Layout/Measured.antt =====
-- The ring that was measured for a number of buffers (ndp/ctrl_ndp.c) holds them all, with none over another.
use ndk_sw_bachelor_thesis.Common.{
  ℕ, zero, suc, ◌+◌, ◌-◌, ◌*◌, ◌%◌, ◌^◌, ◌<◌, ◌≤◌, ◌≡◌, refl, ap, sym, subst, ◌∙◌, inl, inr, false,
  Bool-cases, some, List, length, ◌==◌, ltb, leb, if◌then◌else◌, ok, arith,
}
use ndk_sw_bachelor_thesis.Controller.Layout.{
  Cfg, StateMps, ndp_ctrl_medusa_mps_meta_init, ndp_ctrl_medusa_mps_meta_first, walk, needed,
  ndp_ctrl_medusa_req_block_update, write_offsets, min_buffer_items,
}
use ndk_sw_bachelor_thesis.Controller.Layout.Virtual.{Fits, slot, state, slot-le, walk_lem}
use ndk_sw_bachelor_thesis.Controller.Layout.Folded.{blocks, offsets_from, write_offsets_lem}
use ndk_sw_bachelor_thesis.Controller.Layout.Apart.{AllApart, some_block, offsets-AllApart}

-- The beginning of the walk through a ring of this configuration.
abbrev pub at_first : Cfg → StateMps
at_first cfg =
    ndp_ctrl_medusa_mps_meta_first
      (record { cfg = cfg; block_offset = 0; block_index = 0; buffer_index = 0 })

-- The ring as `ndp_ctrl_medusa_start` lays it out: an offset for each buffer, in the ring and apart from all others;
-- the walk is back at the first buffer.
abbrev pub Laid : ℕ → Cfg → Type 0
Laid page cfg =
    (offsets : List ℕ) × (write_offsets page cfg.buffer_count (at_first cfg)
      ≡ some (offsets, at_first cfg))
    × (length offsets ≡ cfg.buffer_count)
    × AllApart cfg.buffer_size (cfg.block_count * cfg.block_size) offsets

module _ (page size start block_size count : ℕ) (f : Fits page size start block_size)
    (enough : min_buffer_items page ≤ count) (some_buffer : 0 < count)
    (word : count + 1 < 2 ^ 32) where
  -- The configuration that the walk leads to.
  abbrev measured : Cfg
  measured =
      (state page size start block_size count (blocks page size start block_size count f) 0
        (0, start)).cfg

  minus_plus :
      (b o : ℕ)
      → 0 < (if leb o start then b else b + 1)
      → b ≤ count
      → ((if leb o start then (b + 2 ^ 32 - 1) % 2 ^ 32 else b) + 1) % 2 ^ 32
        ≡ (if leb o start then b else b + 1)
  minus_plus b o positive few = elim (Bool-cases (leb o start)) [
    | inl e ↦ let some_b : 0 < b = ground (arith, e, positive) in rw e (omega arith)
    | inr e ↦ rw e (omega arith)
  ]

  needed_lem :
      needed page
        (state page size start block_size 0 0 count (slot page size start block_size count))
      ≡ measured
  needed_lem =
      let few = slot-le page size start block_size count in
      let positive = some_block page size start block_size count f some_buffer in
      ap
        (λ b. record {
          buffer_count = count;
          buffer_size = size;
          block_count = b;
          block_size = block_size;
          initial_offset = start;
        })
        (minus_plus (slot page size start block_size count).0
          (slot page size start block_size count).1 positive few)

  zero_put : (b : ℕ) → ◌≡◌ {A = ℕ} (if 0 == b then 0 else 0) 0
  zero_put b = ground arith

  update_lem :
      ndp_ctrl_medusa_req_block_update page (suc count) block_size size count start
      ≡ some (ok, some measured)
  unfolding ndp_ctrl_medusa_req_block_update slot
  update_lem =
      let positive : size == 0 ≡ false = (let p = f.some_size in ground arith) in
      let items : ltb count (min_buffer_items page) ≡ false = ground (arith, enough) in
      let size' : size % 2 ^ 32 ≡ size = omega (arith, f.first, f.word) in
      let start' : start % 2 ^ 32 ≡ start = omega (arith, f.first, f.word) in
      let block' : block_size % 2 ^ 32 ≡ block_size = omega (arith, f.word) in
      let init : ndp_ctrl_medusa_mps_meta_init block_size 0 size 0 start
          ≡ state page size start block_size 0 0 0 (0, start) =
        rw (size', start', block') refl in
      let same : 0 + count ≡ count = omega arith in
      let walked =
        subst
          (λ c.
            walk page (suc count) c (state page size start block_size 0 0 0 (0, start))
            ≡ some (state page size start block_size 0 0 c (slot page size start block_size c)))
          same
          (walk_lem page size start block_size count 0 (suc count) f (omega arith)
            (omega (arith, word))) in
      rw
        (
          positive,
          items,
          ap (walk page (suc count) count) init ∙ walked,
          ndp_ctrl_medusa_req_block_update,
        )
        (ap (λ c. some (ok, some c)) needed_lem)

  length-offsets_from : (n m : ℕ) → length (offsets_from page size start block_size count f n m) ≡ m
  length-offsets_from n zero = refl
  length-offsets_from n (suc m) = ap suc (length-offsets_from (suc n) m)

  measured-Laid :
      blocks page size start block_size count f * block_size ≤ 2 ^ 32 → Laid page measured
  unfolding slot
  measured-Laid room =
      let last : suc (count - 1) ≡ count = omega (arith, some_buffer) in
      (
        offsets_from page size start block_size count f 0 count,
        (subst
            (λ c.
              write_offsets page count (at_first measured)
              ≡ some (offsets_from page size start block_size count f 0 c, at_first measured))
            last
            (ap
                (λ z. write_offsets page count (
                  state page size start block_size count (blocks page size start block_size count f)
                    0 (z, start)))
                (sym (zero_put (blocks page size start block_size count f)))
              ∙ write_offsets_lem page size start block_size count f (count - 1) 0 count
                  (omega arith) (omega (arith, some_buffer)) (omega (arith, some_buffer)))),
        length-offsets_from 0 count,
        offsets-AllApart page size start block_size count f some_buffer room 0 count (omega arith),
      )

-- Let a buffer behind the longest offset in a page, and the first buffer behind its own offset, fit into a block of
-- fewer than `2 ^ 31` bytes, and let the buffers number at least one, at least the headers in a page, and fewer than
-- `2 ^ 32 - 1`. If the ring that `ndp_ctrl_medusa_req_block_update` measures has at most `2 ^ 32` bytes,
-- `ndp_ctrl_medusa_start` lays it out with one offset for each buffer, all in the ring, and no two buffers overlap.
pub update-Laid :
    (page size start block_size count : ℕ) (cfg : Cfg)
    → Fits page size start block_size
    → min_buffer_items page ≤ count
    → 0 < count
    → count + 1 < 2 ^ 32
    → ndp_ctrl_medusa_req_block_update page (suc count) block_size size count start
      ≡ some (ok, some cfg)
    → cfg.block_count * cfg.block_size ≤ 2 ^ 32
    → Laid page cfg
update-Laid page size start block_size count cfg f enough some_buffer word e room =
    let found = update_lem page size start block_size count f enough some_buffer word in
    let same : measured page size start block_size count f enough some_buffer word ≡ cfg = cc in
    subst (Laid page) same (
      measured-Laid page size start block_size count f enough some_buffer word
        (subst (λ (c : Cfg). c.block_count * c.block_size ≤ 2 ^ 32) (sym same) room))
