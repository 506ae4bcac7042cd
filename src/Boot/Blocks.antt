-- ===== src/Boot/Blocks.antt =====
-- The blocks that `nfb_fw_open_rbf` (boot.c) makes of a file, and their reading.
use native.Mathlib.Decide.{dec_le}
use ndk_sw_bachelor_thesis.Common.{
  ℕ, zero, suc, ◌+◌, ◌-◌, ◌*◌, ◌/◌, ◌%◌, ◌^◌, ◌≤◌, ◌<◌, ◌≡◌, refl, sym, ap, ◌∙◌, true, ◌&&◌, Option,
  none, some, List, [], ◌∷◌, ◌++◌, length, length-append, arith, ltb, leb, ◌==◌, if◌then◌else◌,
}
use ndk_sw_bachelor_thesis.Boot.{take, drop, block_header, full_block}

-- A reader of the blocks: the header, the length in it, the bytes.
abbrev pub read_blocks : ℕ → List ℕ → Option (List ℕ)
read_blocks zero [] = some []
read_blocks (suc fuel) [] = some []
read_blocks zero (a ∷ bytes) = none
read_blocks (suc fuel) (a ∷ []) = none
read_blocks (suc fuel) (a ∷ b ∷ []) = none
read_blocks (suc fuel) (a ∷ b ∷ low ∷ []) = none
read_blocks (suc fuel) (a ∷ b ∷ low ∷ high ∷ bytes) =
    let n = low + 2 ^ 8 * high in
    let rest = read_blocks fuel (drop n bytes) in
    if a == 1 && (b == 4 && leb n (length bytes))
    then elim rest [ none ↦ none | some more ↦ some (take n bytes ++ more) ]
    else none

module _ {ℓ} {A : Type ℓ} where
  length-take : (n : ℕ) (xs : List A) → n ≤ length xs → length (take n xs) ≡ n
  length-take zero xs h = refl
  length-take (suc n) [] h = absurd (omega arith)
  length-take (suc n) (x ∷ xs) h = omega (arith, length-take n xs (omega arith))

  pub length-drop : (n : ℕ) (xs : List A) → n ≤ length xs → length (drop n xs) + n ≡ length xs
  length-drop zero xs h = omega arith
  length-drop (suc n) [] h = absurd (omega arith)
  length-drop (suc n) (x ∷ xs) h = omega (arith, length-drop n xs (omega arith))

  append_take-drop : (n : ℕ) (xs : List A) → take n xs ++ drop n xs ≡ xs
  append_take-drop zero xs = refl
  append_take-drop (suc n) [] = refl
  append_take-drop (suc n) (x ∷ xs) = ap (λ r. x ∷ r) (append_take-drop n xs)

  take-append : (xs ys : List A) → take (length xs) (xs ++ ys) ≡ xs
  take-append [] ys = refl
  take-append (x ∷ xs) ys = ap (λ r. x ∷ r) (take-append xs ys)

  drop-append : (xs ys : List A) → drop (length xs) (xs ++ ys) ≡ ys
  drop-append [] ys = refl
  drop-append (x ∷ xs) ys = drop-append xs ys

-- The size of the next block.
abbrev pub next_size : ℕ → List ℕ → ℕ
next_size block_size left = if ltb (length left) block_size then length left else block_size

-- The blocks of a file, of `block_size` bytes each but the last.
unfoldable pub blocks : ℕ → ℕ → List ℕ → List ℕ
blocks zero block_size file = []
blocks (suc fuel) block_size [] = []
blocks (suc fuel) block_size (b ∷ file) =
    let left = b ∷ file in
    let now = next_size block_size left in
    block_header now ++ take now left ++ blocks fuel now (drop now left)

-- One block is read back.
one_block :
    (fuel n : ℕ) (block rest file : List ℕ)
    → n < 2 ^ 16
    → length block ≡ n
    → read_blocks fuel rest ≡ some file
    → read_blocks (suc fuel) (block_header n ++ block ++ rest) ≡ some (block ++ file)
one_block fuel n block rest file h e r =
    rw (whole, enough, dropped, r)
      (ap (λ m. some (take m (block ++ rest) ++ file)) whole ∙ ap (λ t. some (t ++ file)) taken)
  where
    whole : n % 2 ^ 8 + 2 ^ 8 * (n / 2 ^ 8) ≡ n
    whole = omega arith

    enough : leb n (length (block ++ rest)) ≡ true
    enough = ground (arith, length-append block rest)

    dropped : drop n (block ++ rest) ≡ rest
    dropped = ap (λ m. drop m (block ++ rest)) (sym e) ∙ drop-append block rest

    taken : take n (block ++ rest) ≡ block
    taken = ap (λ m. take m (block ++ rest)) (sym e) ∙ take-append block rest

pub next_size_bounds :
    (block_size : ℕ) (b : ℕ) (file : List ℕ)
    → 0 < block_size
    → let now = next_size block_size (b ∷ file) in
      (0 < now) × (now ≤ block_size) × (now ≤ length (b ∷ file))
next_size_bounds block_size b file h = ground arith

pub read-blocks :
    (fuel block_size : ℕ) (file : List ℕ)
    → length file ≤ fuel
    → 0 < block_size
    → block_size < 2 ^ 16
    → read_blocks fuel (blocks fuel block_size file) ≡ some file
unfolding blocks
read-blocks zero block_size [] h p q = refl
read-blocks zero block_size (b ∷ file) h p q = absurd (omega arith)
read-blocks (suc fuel) block_size [] h p q = refl
read-blocks (suc fuel) block_size (b ∷ file) h p q =
    let left = b ∷ file in
    let now = next_size block_size left in
    let (some_bytes, small, fits) = next_size_bounds block_size b file p in
    one_block fuel now (take now left) (blocks fuel now (drop now left)) (drop now left)
      (omega arith) (length-take now left fits)
      (read-blocks fuel now (drop now left) (omega (arith, length-drop now left fits)) some_bytes
        (omega arith))
    ∙ ap some (append_take-drop now left)

empty_blocks :
    (fuel block_size : ℕ) (file : List ℕ)
    → length file ≡ 0
    → length (blocks fuel block_size file) ≡ 0
unfolding blocks
empty_blocks zero block_size file e = refl
empty_blocks (suc fuel) block_size [] e = refl
empty_blocks (suc fuel) block_size (b ∷ file) e = absurd (omega arith)

abbrev pub block_count : ℕ → ℕ
block_count size = (size + full_block - 1) / full_block

block_length :
    (n : ℕ) (block rest : List ℕ)
    → length block ≡ n
    → length (block_header n ++ block ++ rest) ≡ 4 + n + length rest
block_length n block rest e = omega (arith, length-append block rest)

-- A round of the loop adds its header and its block, of the size `n` that it finds.
round_length :
    (fuel block_size n b : ℕ) (file : List ℕ)
    → 0 < block_size
    → next_size block_size (b ∷ file) ≡ n
    → length (blocks (suc fuel) block_size (b ∷ file))
      ≡ 4 + n + length (blocks fuel n (drop n (b ∷ file)))
unfolding blocks
round_length fuel block_size n b file h e =
    let left = b ∷ file in
    let now = next_size block_size left in
    let (some_bytes, small, fits) = next_size_bounds block_size b file h in
    block_length now (take now left) (blocks fuel now (drop now left)) (length-take now left fits)
    ∙ ap (λ m. 4 + m + length (blocks fuel m (drop m left))) e

next_full : (file : List ℕ) → full_block ≤ length file → next_size full_block file ≡ full_block
next_full file h = ground arith

next_part : (file : List ℕ) → length file < full_block → next_size full_block file ≡ length file
next_part file h = ground arith

pub length-blocks :
    (fuel : ℕ) (file : List ℕ)
    → length file ≤ fuel
    → length (blocks fuel full_block file) ≡ length file + 4 * block_count (length file)
unfolding blocks
length-blocks zero [] h = refl
length-blocks zero (b ∷ file) h = absurd (omega arith)
length-blocks (suc fuel) [] h = refl
length-blocks (suc fuel) (b ∷ file) h = elim (dec_le full_block (length (b ∷ file))) [
  | yes large ↦
      let left_over = length-drop full_block (b ∷ file) large in
      omega (
        arith,
        round_length fuel full_block full_block b file (omega arith) (next_full (b ∷ file) large),
        left_over,
        length-blocks fuel (drop full_block (b ∷ file)) (omega (arith, left_over)),
      )
  | no small ↦
      let n = length (b ∷ file) in
      omega (
        arith,
        round_length fuel full_block n b file (omega arith) (next_part (b ∷ file) (omega arith)),
        empty_blocks fuel n (drop n (b ∷ file))
            (omega (arith, length-drop n (b ∷ file) (omega arith))),
      )
]
