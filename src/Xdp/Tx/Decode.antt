-- ===== src/Xdp/Tx/Decode.antt =====
-- What the hardware reads from the transmit ring (libnfb/include/netcope/dma_ctrl_ndp.h): a descriptor
-- of type 0 sets the upper address bits, one of type 2 sends a packet at those bits and its own 30.
use ndk_sw_bachelor_thesis.Common.{
  ℕ, ◌+◌, ◌*◌, ◌/◌, ◌%◌, ◌^◌, ◌<◌, ◌≡◌, List, [], ◌∷◌, ◌==◌, if◌then◌else◌, arith,
}
use ndk_sw_bachelor_thesis.Xdp.Tx.{Desc, type0, type2, upper_addr}

-- One descriptor: the upper bits after it, and the packets it sends.
abbrev pub decode_one : Desc → ℕ → ℕ × List (ℕ × ℕ)
decode_one (type0 lo hi) upper = ((lo + hi * 2 ^ 32) * 2 ^ 30, [])
decode_one (type2 phys len meta next0) upper = (upper, (upper + phys, len) ∷ [])

-- The number of descriptors that an address takes.
abbrev pub needed : ℕ → ℕ → ℕ
needed upper dma = if upper_addr dma == upper then 1 else 2

pub upper_round :
    (dma : ℕ)
    → dma < 2 ^ 64
    → (dma / 2 ^ 30 % 2 ^ 32 + dma / 2 ^ 62 % 2 ^ 2 * 2 ^ 32) * 2 ^ 30 ≡ upper_addr dma
upper_round dma h = omega arith

pub upper_split : (dma : ℕ) → upper_addr dma + dma % 2 ^ 30 ≡ dma
upper_split dma = omega arith
