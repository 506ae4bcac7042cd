-- ===== src/Boot.antt =====
-- libnfb/src/boot: the formats of firmware files. Bytes are numbers; a file is its list of bytes, or its size
-- and its bytes by position. Whether `fread` delivers is a parameter. `malloc` is taken to succeed where the source does not test it.
pub mod Table
pub mod Reverse
pub mod Scan
pub mod Blocks
pub mod Image
mod Tests
use ndk_sw_bachelor_thesis.Common.{
  ℕ, zero, suc, ◌+◌, ◌-◌, ◌*◌, ◌/◌, ◌%◌, ◌^◌, bit_and, bit_or, Bool, true, false, ◌&&◌, ◌||◌, not,
  Errno, enomem, enobufs, ◌⊎◌, inl, inr, Option, none, some, List, [], ◌∷◌, ◌++◌, get_or, length,
  ltb, leb, ◌==◌, if◌then◌else◌,
}
use ndk_sw_bachelor_thesis.Boot.Table.{bit_reverse_table}

-- bit_reverse_table.c
unfoldable pub bit_reverse : ℕ → ℕ
bit_reverse b = get_or bit_reverse_table b 0

-- `reverseBits16`: `ret` starts as 0.
unfoldable pub reverse_bits16 : ℕ → ℕ
unfolding bit_reverse
reverse_bits16 num =
    let high = bit_or 0 (bit_reverse (bit_and num 255) * 2 ^ 8 % 2 ^ 16) in
    bit_or high (bit_reverse (bit_and (num / 2 ^ 8) 255))

unfoldable pub nfb_fw_bitstream_reverse_bits_8 : List ℕ → List ℕ
nfb_fw_bitstream_reverse_bits_8 [] = []
nfb_fw_bitstream_reverse_bits_8 (b ∷ bytes) = bit_reverse b ∷ nfb_fw_bitstream_reverse_bits_8 bytes

-- The words of the data in the order of bytes of a little-endian host; an odd byte at the end is left alone.
unfoldable pub nfb_fw_bitstream_reverse_bits_16 : List ℕ → List ℕ
unfolding reverse_bits16
nfb_fw_bitstream_reverse_bits_16 [] = []
nfb_fw_bitstream_reverse_bits_16 (b ∷ []) = b ∷ []
nfb_fw_bitstream_reverse_bits_16 (low ∷ high ∷ bytes) =
    let word = reverse_bits16 (low + 2 ^ 8 * high) in
    word % 2 ^ 8 ∷ word / 2 ^ 8 ∷ nfb_fw_bitstream_reverse_bits_16 bytes

-- filetype_bit.c: how many of the `n` bytes from `from` on are 0xFF.
unfoldable pub count_ff : (ℕ → ℕ) → ℕ → ℕ → ℕ
count_ff bytes from zero = 0
count_ff bytes from (suc n) =
    let rest = count_ff bytes (from + 1) n in if bytes from == 255 then rest + 1 else rest

-- One position of the search: `i` behind the two rows of dummy words, if they are there.
unfoldable pub valid_at : (ℕ → ℕ) → ℕ → Option ℕ
valid_at bytes i =
    let j = i + 32 in
    let second_valid = if count_ff bytes i 32 == 32 then count_ff bytes (j + 8) 8 else 0 in
    if bytes i == 255 then (if second_valid == 8 then some (j + 16) else none) else none

-- The loop over the positions; `rounds` is what `512 - i` leaves.
unfoldable pub search : (ℕ → ℕ) → ℕ → ℕ → Option ℕ
search bytes zero i = none
search bytes (suc rounds) i =
    let later = search bytes rounds (i + 1) in
    elim (valid_at bytes i) [ none ↦ later | some end ↦ some end ]

pub record Loaded : Type 0 where
  pub returned : ℕ
  pub loaded : ℕ
  pub content : ℕ → ℕ

-- `none`: -1. `size` and `byte` are the file; `first` and `second` tell whether the two calls of `fread` get
-- what the file has.
unfoldable pub nfb_fw_open_bit_raw : (first second : Bool) → (ℕ → ℕ) → ℕ → Option Loaded
nfb_fw_open_bit_raw first second byte size =
    if ltb size 1024 || not first then none else elim (search byte 512 0) [
      | none ↦ none
      | some i ↦
          let offset = i - 48 in
          let left = size - offset in
          if not second
          then none
          else some
              (record { returned = left - offset; loaded = left; content = λ p. byte (offset + p) })
    ]

-- boot.c, `nfb_fw_open_rbf`: one block's four bytes of header, of a little-endian host.
abbrev pub start_addr : ℕ
start_addr = 131072

abbrev pub full_block : ℕ
full_block = 4096

abbrev pub block_header : ℕ → List ℕ
block_header block_size = 1 ∷ 4 ∷ block_size % 2 ^ 8 ∷ block_size / 2 ^ 8 ∷ []

abbrev pub take {ℓ} : {A : Type ℓ} → ℕ → List A → List A
take zero xs = []
take (suc n) [] = []
take (suc n) (x ∷ xs) = x ∷ take n xs

abbrev pub drop {ℓ} : {A : Type ℓ} → ℕ → List A → List A
drop zero xs = xs
drop (suc n) [] = []
drop (suc n) (x ∷ xs) = drop n xs

-- The loop: `offset`, what is left of the file, and `block_size`. `reads` tells of each offset whether `fread`
-- delivers the block there; `none` is the error. `fuel` bounds the rounds.
unfoldable pub write_blocks : (ℕ → Bool) → ℕ → ℕ → ℕ → List ℕ → Option (List ℕ)
write_blocks reads zero block_size offset file = some []
write_blocks reads (suc fuel) block_size offset [] = some []
write_blocks reads (suc fuel) block_size offset (b ∷ file) =
    let left = b ∷ file in
    let now = if ltb (length left) block_size then length left else block_size in
    let rest = write_blocks reads fuel now (offset + now) (drop now left) in
    if reads offset
    then elim rest [
      | none ↦ none
      | some blocks ↦ some (block_header now ++ take now left ++ blocks)
    ]
    else none

pub record RbfImage : Type 0 where
  pub size_total : ℕ
  pub words : ℕ → ℕ
  pub body : List ℕ
  pub returned : ℕ

abbrev pub rbf_total : ℕ → ℕ
rbf_total size_file =
    let block_count = (size_file + full_block - 1) / full_block in
    let unpadded = start_addr + size_file + 4 * block_count in
    unpadded + full_block - unpadded % full_block

-- The words of the header; all others in it are 0xFFFF. Behind the header is `body`, then 0xFF.
abbrev pub rbf_words : ℕ → ℕ → ℕ
rbf_words size_total zero = start_addr / 4 % 2 ^ 16
rbf_words size_total (suc zero) = start_addr / 4 / 2 ^ 16 % 2 ^ 16
rbf_words size_total (suc (suc zero)) = size_total / 4 % 2 ^ 16
rbf_words size_total (suc (suc (suc zero))) = size_total / 4 / 2 ^ 16 % 2 ^ 16
rbf_words size_total n = if n == 64 then 65285 else 65535

-- `allocates`: `malloc` succeeds. The index `i`, which is returned, is a word of 32 bits.
unfoldable pub nfb_fw_open_rbf : (allocates : Bool) → (ℕ → Bool) → List ℕ → Errno ⊎ RbfImage
nfb_fw_open_rbf allocates reads file =
    let size_total = rbf_total (length file) in
    let written = write_blocks reads (length file) full_block 0 file in
    if not allocates then inl enomem else elim written [
      | none ↦ inl enobufs
      | some body ↦ inr (record {
        size_total = size_total;
        words = rbf_words size_total;
        body = body;
        returned = (start_addr + length body) % 2 ^ 32;
      })
    ]
