-- ===== src/Boot/Scan.antt =====
-- Where filetype_bit.c finds the data of a Xilinx bitstream, and what it returns.
use native.Mathlib.Nat.{le_refl}
use native.Mathlib.Decide.{ℕ_discrete, dec_le}
use ndk_sw_bachelor_thesis.Common.{
  ℕ, zero, suc, ◌+◌, ◌-◌, ◌≤◌, ◌<◌, ◌≡◌, ◌≢◌, refl, ap, subst, ◌∙◌, ◌⊎◌, inl, inr, true, false,
  Bool, not, if◌then◌else◌, Option, none, some, arith, ltb, ◌==◌,
}
use ndk_sw_bachelor_thesis.Boot.{count_ff, valid_at, search, Loaded, nfb_fw_open_bit_raw}

abbrev pub AllFf : (ℕ → ℕ) → ℕ → ℕ → Type 0
AllFf byte from n = (p : ℕ) → p < n → byte (from + p) ≡ 255

-- A row of 32 bytes 0xFF, and 8 bytes later one of 8.
abbrev pub Matches : (ℕ → ℕ) → ℕ → Type 0
Matches byte s = AllFf byte s 32 × AllFf byte (s + 40) 8

count_bound : (byte : ℕ → ℕ) (from n : ℕ) → count_ff byte from n ≤ n
unfolding count_ff
count_bound byte from zero = omega arith
count_bound byte from (suc n) = ground (arith, count_bound byte (from + 1) n)

count_all : (byte : ℕ → ℕ) (from n : ℕ) → count_ff byte from n ≡ n → AllFf byte from n
unfolding count_ff
count_all byte from zero e p h = absurd (omega arith)
count_all byte from (suc n) e zero h =
    ap byte {x = from + 0} {y = from} (omega arith) ∙ ground (arith, count_bound byte (from + 1) n)
count_all byte from (suc n) e (suc p) h =
    ap byte {x = from + suc p} {y = from + 1 + p} (omega arith)
    ∙ count_all byte (from + 1) n (ground (arith, count_bound byte (from + 1) n)) p (omega arith)

all_count : (byte : ℕ → ℕ) (from n : ℕ) → AllFf byte from n → count_ff byte from n ≡ n
unfolding count_ff
all_count byte from zero all = refl
all_count byte from (suc n) all =
    let first : byte from ≡ 255 =
      ap byte {x = from} {y = from + 0} (omega arith) ∙ all 0 (omega arith) in
    let rest = all_count byte (from + 1) n (λ p h.
      ap byte {x = from + 1 + p} {y = from + suc p} (omega arith) ∙ all (suc p) (omega arith)) in
    ground (arith, rest)

valid_cases :
    (byte : ℕ → ℕ) (i : ℕ)
    → ((valid_at byte i ≡ some (i + 48)) × Matches byte i)
      ⊎ ((valid_at byte i ≡ none) × ¬ (Matches byte i))
unfolding valid_at
valid_cases byte i = elim (ℕ_discrete (count_ff byte i 32) 32) [
  | yes a ↦ elim (ℕ_discrete (count_ff byte (i + 40) 8) 8) [
    | yes b ↦ inl (found a b, (count_all byte i 32 a, count_all byte (i + 40) 8 b))
    | no b ↦ inr (less a b, λ m. b (all_count byte (i + 40) 8 (m.1)))
  ]
  | no a ↦ inr (none_here a, λ m. a (all_count byte i 32 (m.0)))
]
  where
    first : count_ff byte i 32 ≡ 32 → (byte i == 255) ≡ true
    first a =
        let at : byte (i + 0) ≡ 255 = count_all byte i 32 a 0 (omega arith) in
        let here : byte i ≡ 255 = ap byte {x = i} {y = i + 0} (omega arith) ∙ at in
        ground (arith, here)

    moved : count_ff byte (i + 32 + 8) 8 ≡ count_ff byte (i + 40) 8
    moved = ap (λ x. count_ff byte x 8) (omega arith)

    found : count_ff byte i 32 ≡ 32 → count_ff byte (i + 40) 8 ≡ 8 → valid_at byte i ≡ some (i + 48)
    found a b = ground (arith, first a, moved)

    less : count_ff byte i 32 ≡ 32 → count_ff byte (i + 40) 8 ≢ 8 → valid_at byte i ≡ none
    less a b = ground (arith, moved)

    none_here : count_ff byte i 32 ≢ 32 → valid_at byte i ≡ none
    none_here a = ground arith

-- What each result of the search says of the positions tried.
abbrev Searched : (ℕ → ℕ) → ℕ → ℕ → Option ℕ → Type 0
Searched byte from to none = (s : ℕ) → from ≤ s → s < to → ¬ (Matches byte s)
Searched byte from to (some end) =
    (s : ℕ) × (end ≡ s + 48)
    × (from ≤ s)
    × (s < to)
    × Matches byte s
    × ((t : ℕ) → from ≤ t → t < s → ¬ (Matches byte t))

later_Searched :
    (byte : ℕ → ℕ) (i to : ℕ) (r : Option ℕ)
    → ¬ (Matches byte i)
    → Searched byte (i + 1) to r
    → Searched byte i to r
later_Searched byte i to none not_here all = λ s h k. elim (ℕ_discrete s i) [
  | yes e ↦ λ m. not_here (subst (Matches byte) e m)
  | no ne ↦ all s (omega arith) k
]
later_Searched byte i to (some end) not_here (s, e, h, k, m, before) = (
  s,
  e,
  omega arith,
  k,
  m,
  λ t a b. elim (ℕ_discrete t i) [
    | yes same ↦ λ found. not_here (subst (Matches byte) same found)
    | no ne ↦ before t (omega arith) b
  ],
)

chosen_Searched :
    (byte : ℕ → ℕ) (i to : ℕ) (v r : Option ℕ)
    → ((v ≡ some (i + 48)) × Matches byte i) ⊎ ((v ≡ none) × ¬ (Matches byte i))
    → i < to
    → Searched byte (i + 1) to r
    → Searched byte i to (elim v [ none ↦ r | some end ↦ some end ])
chosen_Searched byte i to none r (inl (e, m)) h later = absurd (ground (arith, e))
chosen_Searched byte i to none r (inr (e, m)) h later = later_Searched byte i to r m later
chosen_Searched byte i to (some end) r (inr (e, m)) h later = absurd (ground (arith, e))
chosen_Searched byte i to (some end) r (inl (e, m)) h later =
    (i, ground (arith, e), le_refl i, h, m, λ t a b. absurd (omega arith))

search-Searched :
    (byte : ℕ → ℕ) (rounds i to : ℕ) → i + rounds ≡ to → Searched byte i to (search byte rounds i)
unfolding search
search-Searched byte zero i to e = λ s h k. absurd (omega arith)
search-Searched byte (suc rounds) i to e =
    chosen_Searched byte i to (valid_at byte i) (search byte rounds (i + 1)) (valid_cases byte i)
      (omega arith) (search-Searched byte rounds (i + 1) to (omega arith))

-- What `nfb_fw_open_bit_raw` makes of a file, by whether the two calls of `fread` deliver. It refuses a file of
-- less than 1024 bytes or that cannot be read, and one with no match below position 512. Otherwise it loads the
-- file from its first match `s` on, to the end; what it returns is less than the length loaded, by `s`.
abbrev pub OpenedBit : (first second : Bool) → (ℕ → ℕ) → ℕ → Option Loaded → Type 0
OpenedBit first second byte size none =
    (first ≡ false) ⊎ (size < 1024) ⊎ ((s : ℕ) → s < 512 → ¬ (Matches byte s)) ⊎ (second ≡ false)
OpenedBit first second byte size (some file) =
    (first ≡ true)
    × (second ≡ true)
    × (1024 ≤ size)
    × ((s : ℕ) × (s < 512)
        × Matches byte s
        × ((t : ℕ) → t < s → ¬ (Matches byte t))
        × (file.loaded + s ≡ size)
        × (file.returned + s ≡ file.loaded)
        × ((p : ℕ) → file.content p ≡ byte (s + p)))

found_Opened :
    (second : Bool) (byte : ℕ → ℕ) (size : ℕ) (r : Option ℕ)
    → 1024 ≤ size
    → Searched byte 0 512 r
    → OpenedBit true second byte size (elim r [
      | none ↦ none
      | some i ↦
          let offset = i - 48 in
          let left = size - offset in
          if not second
          then none
          else some
              (record { returned = left - offset; loaded = left; content = λ p. byte (offset + p) })
    ])
found_Opened second byte size none h all = inr (inr (inl (λ s k. all s (omega arith) k)))
found_Opened false byte size (some end) h found = inr (inr (inr refl))
found_Opened true byte size (some end) h (s, e, a, k, m, before) = (
  refl,
  refl,
  h,
  (s, k, m, λ t b. before t (omega arith) b, omega arith, omega arith, λ p. ap byte (omega arith)),
)

-- The two results of `nfb_fw_open_bit_raw`, as `OpenedBit` describes them: it refuses a file that is too short,
-- cannot be read or has no match; otherwise the file has at least 1024 bytes, and is loaded from its first match
-- on, and less is returned than was loaded.
pub open_bit_raw-Opened :
    (first second : Bool) (byte : ℕ → ℕ) (size : ℕ)
    → OpenedBit first second byte size (nfb_fw_open_bit_raw first second byte size)
unfolding nfb_fw_open_bit_raw
open_bit_raw-Opened first second byte size = elim (dec_le 1024 size) [
  | no small ↦ rw (is_small small, nfb_fw_open_bit_raw) (inr (inl (omega arith)))
  | yes large ↦ rw (is_large large, nfb_fw_open_bit_raw) (by_first first large)
]
  where
    is_small : ¬ (1024 ≤ size) → ltb size 1024 ≡ true
    is_small h = ground arith

    is_large : 1024 ≤ size → ltb size 1024 ≡ false
    is_large h = ground arith

    by_first :
        (first : Bool)
        → 1024 ≤ size
        → OpenedBit first second byte size (
            if not first then none else elim (search byte 512 0) [
              | none ↦ none
              | some i ↦
                  let offset = i - 48 in
                  let left = size - offset in
                  if not second
                  then none
                  else some (record {
                    returned = left - offset;
                    loaded = left;
                    content = λ p. byte (offset + p);
                  })
            ])
    by_first false large = inl refl
    by_first true large =
        found_Opened second byte size (search byte 512 0) large
          (search-Searched byte 512 0 512 refl)
