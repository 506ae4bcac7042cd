-- ===== src/Boot/Tests.antt =====
-- The theorems on firmware files at concrete inputs.
use ndk_sw_bachelor_thesis.Common.{
  ℕ, ◌≡◌, ◌&&◌, ◌||◌, true, false, ◌==◌, [], ◌∷◌, leb, arith, if◌then◌else◌,
}
use ndk_sw_bachelor_thesis.Common.Bits.{bit}
use ndk_sw_bachelor_thesis.Boot.{reverse_bits16, nfb_fw_open_bit_raw, nfb_fw_open_rbf}
use ndk_sw_bachelor_thesis.Boot.Reverse.{bit-reverse_bits16}
use ndk_sw_bachelor_thesis.Boot.Scan.{OpenedBit, open_bit_raw-Opened}
use ndk_sw_bachelor_thesis.Boot.Image.{OpenedRbf, open_rbf-Opened}

-- Bit 15 of the reversed word is bit 0 of the word.
bit-reverse_bits16_example : bit (reverse_bits16 1) 15 ≡ 1
bit-reverse_bits16_example = bit-reverse_bits16 1 15 (omega arith) (omega arith)

-- The two rows of dummy words from position 100 on.
abbrev dummy_words : ℕ → ℕ
dummy_words p = if leb 100 p && leb p 131 || leb 140 p && leb p 147 then 255 else 0

open_bit_raw-Opened_example :
    OpenedBit true true dummy_words 5000 (nfb_fw_open_bit_raw true true dummy_words 5000)
open_bit_raw-Opened_example = open_bit_raw-Opened true true dummy_words 5000

-- Every block but the one at 4096 can be read.
open_rbf-Opened_example :
    OpenedRbf true
      (λ o. if o == 4096 then false else true)
      (7 ∷ 8 ∷ 9 ∷ [])
      (nfb_fw_open_rbf true (λ o. if o == 4096 then false else true) (7 ∷ 8 ∷ 9 ∷ []))
open_rbf-Opened_example =
    open_rbf-Opened true (λ o. if o == 4096 then false else true) (7 ∷ 8 ∷ 9 ∷ []) (omega arith)
