-- ===== src/Boot/Image.antt =====
-- What `nfb_fw_open_rbf` (boot.c) answers: the loop that may fail, and the image.
use native.Mathlib.Nat.{le_refl, suc-mul, add_comm}
use ndk_sw_bachelor_thesis.Common.{
  ℕ, zero, suc, ◌+◌, ◌*◌, ◌/◌, ◌%◌, ◌^◌, ◌≤◌, ◌<◌, ◌≡◌, refl, ap, ◌∙◌, subst, Bool, true, false,
  not, ◌⊎◌, inl, inr, Errno, enomem, enobufs, Option, none, some, List, [], ◌∷◌, ◌++◌, length,
  arith, if◌then◌else◌,
}
use ndk_sw_bachelor_thesis.Boot.{
  take, drop, block_header, full_block, start_addr, write_blocks, RbfImage, rbf_total, rbf_words,
  nfb_fw_open_rbf,
}
use ndk_sw_bachelor_thesis.Boot.Blocks.{
  blocks, next_size, next_size_bounds, length-drop, read_blocks, read-blocks, length-blocks,
  block_count,
}

-- What the loop does by its result: a read failed, or every block was read and written.
abbrev Written : (ℕ → Bool) → ℕ → ℕ → ℕ → List ℕ → Option (List ℕ) → Type 0
Written reads fuel block_size offset file none =
    (o : ℕ) × (o < offset + length file) × (reads o ≡ false)
Written reads fuel block_size offset file (some body) =
    (body ≡ blocks fuel block_size file)
    × ((k : ℕ) → k * block_size < length file → reads (offset + k * block_size) ≡ true)

-- One round, by whether its block is read, whatever the rounds behind it do.
round-Written :
    (reads : ℕ → Bool) (fuel block_size offset b : ℕ) (file : List ℕ) (rest : Option (List ℕ))
    (here : Bool)
    → let left = b ∷ file in
      let now = next_size block_size left in
      0 < block_size
      → reads offset ≡ here
      → Written reads fuel now (offset + now) (drop now left) rest
      → Written reads (suc fuel) block_size offset left (
          if here
          then elim rest [
            | none ↦ none
            | some behind ↦ some (block_header now ++ take now left ++ behind)
          ]
          else none)
unfolding blocks
round-Written reads fuel block_size offset b file rest false h e w = (offset, omega arith, e)
round-Written reads fuel block_size offset b file none true h e (o, inside, failed) =
    let (some_bytes, small, fits) = next_size_bounds block_size b file h in
    let left_over = length-drop (next_size block_size (b ∷ file)) (b ∷ file) fits in
    (o, omega (arith, left_over), failed)
round-Written reads fuel block_size offset b file (some behind) true h e (w, all) =
    let left = b ∷ file in
    let now = next_size block_size left in
    let (some_bytes, small, fits) = next_size_bounds block_size b file h in
    let left_over = length-drop now left fits in
    (ap (λ r. block_header now ++ take now left ++ r) w, each left_over)
  where
    times : (k : ℕ) → suc k * block_size ≡ block_size + k * block_size
    times k = suc-mul k block_size ∙ add_comm (k * block_size) block_size

    full : block_size < length (b ∷ file) → next_size block_size (b ∷ file) ≡ block_size
    full large = ground arith

    each :
        length (drop (next_size block_size (b ∷ file)) (b ∷ file)) + next_size block_size (b ∷ file)
          ≡ length (b ∷ file)
        → (k : ℕ) → k * block_size < length (b ∷ file)
        → reads (offset + k * block_size) ≡ true
    each left_over zero inside =
        ap reads {x = offset + 0 * block_size} {y = offset} (omega arith) ∙ e
    each left_over (suc k) inside =
        let n = b ∷ file in
        let size_is = full (omega (arith, times k)) in
        let later =
          subst (λ m. (k : ℕ) → k * m < length (drop m n) → reads (offset + m + k * m) ≡ true)
            size_is all in
        let left_behind = subst (λ m. length (drop m n) + m ≡ length n) size_is left_over in
        ap reads {x = offset + suc k * block_size} {y = offset + block_size + k * block_size}
          (omega (arith, times k))
        ∙ later k (omega (arith, left_behind, times k))

loop-Written :
    (reads : ℕ → Bool) (fuel block_size offset : ℕ) (file : List ℕ)
    → length file ≤ fuel
    → 0 < block_size
    → Written reads fuel block_size offset file (write_blocks reads fuel block_size offset file)
unfolding write_blocks blocks
loop-Written reads zero block_size offset [] h p = (refl, λ k inside. absurd (omega arith))
loop-Written reads zero block_size offset (b ∷ file) h p = absurd (omega arith)
loop-Written reads (suc fuel) block_size offset [] h p = (refl, λ k inside. absurd (omega arith))
loop-Written reads (suc fuel) block_size offset (b ∷ file) h p =
    let now = next_size block_size (b ∷ file) in
    let (some_bytes, small, fits) = next_size_bounds block_size b file p in
    round-Written reads fuel block_size offset b file
      (write_blocks reads fuel now (offset + now) (drop now (b ∷ file))) (reads offset) p refl
      (loop-Written reads fuel now (offset + now) (drop now (b ∷ file))
        (omega (arith, length-drop now (b ∷ file) fits)) some_bytes)

-- What `nfb_fw_open_rbf` answers: -ENOMEM without memory, -ENOBUFS if a part of the file could not be read. Else it
-- got its memory and every block, the blocks of the image can be read back as the file, and the header of the
-- image gives its start and its total size in words of 32 bits. All that is returned, which is the size of the
-- header, the file and the blocks' own headers, is inside the memory allocated, which ends at a multiple of a
-- block behind it.
abbrev pub OpenedRbf : Bool → (ℕ → Bool) → List ℕ → Errno ⊎ RbfImage → Type 0
OpenedRbf allocates reads file (inl e) =
    ((e ≡ enomem) × (allocates ≡ false))
    ⊎ ((e ≡ enobufs) × (allocates ≡ true) × ((o : ℕ) × (o < length file) × (reads o ≡ false)))
OpenedRbf allocates reads file (inr image) =
    (allocates ≡ true)
    × ((k : ℕ) → k * full_block < length file → reads (k * full_block) ≡ true)
    × (read_blocks (length file) image.body ≡ some file)
    × (image.words 0 + 2 ^ 16 * image.words 1 ≡ start_addr / 4)
    × ((image.words 2 + 2 ^ 16 * image.words 3) * 4 ≡ image.size_total)
    × (image.returned ≡ start_addr + length file + 4 * block_count (length file))
    × (image.returned < image.size_total)
    × (image.size_total ≤ image.returned + full_block)
    × (image.size_total % full_block ≡ 0)

by_memory :
    (allocates : Bool) (reads : ℕ → Bool) (file : List ℕ) (written : Option (List ℕ))
    → rbf_total (length file) < 2 ^ 31
    → Written reads (length file) full_block 0 file written
    → OpenedRbf allocates reads file (
        if not allocates then inl enomem else elim written [
          | none ↦ inl enobufs
          | some body ↦ inr (record {
            size_total = rbf_total (length file);
            words = rbf_words (rbf_total (length file));
            body = body;
            returned = (start_addr + length body) % 2 ^ 32;
          })
        ])
by_memory false reads file written h w = inl (refl, refl)
by_memory true reads file none h (o, inside, failed) = inr (refl, refl, (o, omega arith, failed))
by_memory true reads file (some body) h (w, all) =
    let size_is = ap length w ∙ length-blocks (length file) file (le_refl _) in
    (
      refl,
      λ k inside.
          ap reads {x = k * full_block} {y = 0 + k * full_block} (omega arith) ∙ all k inside,
      ap (read_blocks (length file)) w
          ∙ read-blocks (length file) full_block file (omega arith) (omega arith) (omega arith),
      refl,
      omega arith,
      omega (arith, size_is),
      omega (arith, size_is),
      omega (arith, size_is),
      omega arith,
    )

-- What `nfb_fw_open_rbf` answers for any file, as `OpenedRbf` describes it: the blocks of an image can be read back
-- as the file, whatever its bytes, and the errors are for memory and for reads that failed. The image has less than
-- 2^31 bytes, so that the index of the source, an `int`, can count them.
pub open_rbf-Opened :
    (allocates : Bool) (reads : ℕ → Bool) (file : List ℕ)
    → rbf_total (length file) < 2 ^ 31
    → OpenedRbf allocates reads file (nfb_fw_open_rbf allocates reads file)
unfolding nfb_fw_open_rbf
open_rbf-Opened allocates reads file h =
    by_memory allocates reads file (write_blocks reads (length file) full_block 0 file) h
      (loop-Written reads (length file) full_block 0 file (le_refl _) (omega arith))
