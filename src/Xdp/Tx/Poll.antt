-- ===== src/Xdp/Tx/Poll.antt =====
-- ctrl_xdp_xsk.c: `nfb_xctrl_napi_poll_tx_xsk`, which sends what an AF_XDP socket has ready. A ready
-- descriptor is the address and the length of its buffer.
pub mod Owed
pub mod Whole
use ndk_sw_bachelor_thesis.Common.{
  ℕ, ◌+◌, ◌-◌, ◌%◌, ◌^◌, Bool, Option, none, some, List, [], ◌∷◌, Status, ok, err, length, ◌==◌,
  ltb, if◌then◌else◌,
}
use ndk_sw_bachelor_thesis.Xdp.Tx.{
  Xctrl, Release, xsk, upper_addr, announce, emit, place, min_len, free_slots,
}
use ndk_sw_bachelor_thesis.Xdp.Tx.Callers.{reclaim, sdp_flush}

-- A short packet is padded with zeros.
abbrev pub padded : ℕ → ℕ
padded len = if ltb len min_len then min_len else len

-- The loop over the ready descriptors: `i`, `last_napi_xsk_drops` and the controller, in which the local
-- `sdp` is written at the label `out`.
unfoldable pub send_ready : List (ℕ × ℕ) → (sdp upper free drops : ℕ) → Xctrl → ℕ × ℕ × Xctrl
unfolding announce emit
send_ready [] sdp upper free drops ctrl = (0, drops, record ctrl { sdp = sdp })
send_ready (b ∷ buffs) sdp upper free drops ctrl =
    let (ret, placed) = place (xsk ((1 + drops) % 2 ^ 32)) b.0 (padded b.1) sdp upper free ctrl in
    let used = if upper_addr b.0 == upper then 1 else 2 in
    let (i, drops', after) = send_ready buffs placed.sdp (upper_addr b.0) (free - used) 0 placed in
    elim ret [ ok ↦ (i + 1, drops', after) | err e ↦ (0, drops, record placed { sdp = sdp }) ]

pub record Polled : Type 0 where
  pub sent : ℕ
  pub completed : ℕ
  pub drops : ℕ
  pub ctrl : Xctrl
  pub log : List Release

-- `sdp0` and `upper0` are read before `tx_lock` is taken; `completed` is what `xsk_tx_completed` is told.
unfoldable pub nfb_xctrl_napi_poll_tx_xsk :
    (sdp0 upper0 hdp' : ℕ) → List (ℕ × ℕ) → ℕ → Xctrl → Option Polled
unfolding send_ready
nfb_xctrl_napi_poll_tx_xsk sdp0 upper0 hdp' ready drops ctrl = elim (reclaim hdp' ctrl) [
  | none ↦ none
  | some (log, freed) ↦
      let cleared = record freed { completed_xsk_tx = 0 } in
      let free = free_slots freed.mdp freed.fdp sdp0 in
      let (i, left, after) = send_ready ready sdp0 upper0 free drops cleared in
      some (record {
        sent = i;
        completed = freed.completed_xsk_tx;
        drops = (left + length ready - i) % 2 ^ 32;
        ctrl = sdp_flush after;
        log = log;
      })
]
