-- ===== src/Controller/Send/One.antt =====
-- One packet into the ring of a Medusa controller (ndp/ctrl_ndp.c), and the wait for room before it.
use native.Mathlib.Nat.{mod-add-mod}
use ndk_sw_bachelor_thesis.Common.{
  ℕ, zero, suc, ◌+◌, ◌-◌, ◌*◌, ◌%◌, ◌^◌, ◌<◌, ◌≤◌, ◌≡◌, refl, ap, sym, subst, ◌∙◌, inl, inr, Bool,
  true, false, Bool-cases, ◌==◌, ltb, Option, none, some, List, [], ◌∷◌, ◌++◌, bit_and, arith,
}
use ndk_sw_bachelor_thesis.Common.Bits.{and-low_mask}
use ndk_sw_bachelor_thesis.Xdp.Tx.{Desc, upper_addr, put, nc_ndp_tx_desc0, nc_ndp_tx_desc2}
use ndk_sw_bachelor_thesis.Xdp.Tx.Decode.{decode_one, upper_round, upper_split}
use ndk_sw_bachelor_thesis.Xdp.Tx.Pending.{sent, sent_one_more, append_nil}
use ndk_sw_bachelor_thesis.Controller.User.{forward}
use ndk_sw_bachelor_thesis.Controller.Layout.{StateMps, ndp_ctrl_medusa_mps_inc}
use ndk_sw_bachelor_thesis.Controller.Send.{
  TxMedusa, ndp_ctrl_medusa_tx_get_hwptr, ndp_ctrl_medusa_tx_wait_for_free_desc, push, send_one,
}
use ndk_sw_bachelor_thesis.Controller.Send.Consumed.{Packets, InFlight, Account, get_hwptr-Account}

abbrev pub Reads : Type 0
Reads = List (ℕ × Bool)

module _ (k h : ℕ) (fits : k ≤ 32) (fits' : h ≤ 32) where
  -- The card's pointer moves on, within the `n` descriptors that it was told of.
  abbrev pub Legal : ℕ → ℕ → Reads → Type 0
  Legal hdp n [] = true ≡ true
  Legal hdp n ((new, is_killed) ∷ reads) =
      (d : ℕ) × (d ≤ n) × (new ≡ (hdp + d) % 2 ^ k) × Legal new (n - d) reads

  -- No kill signal comes.
  abbrev pub Alive : Reads → Type 0
  Alive [] = true ≡ true
  Alive ((new, is_killed) ∷ reads) = (is_killed ≡ false) × Alive reads

  -- The state of the loop: `known` of the `n` descriptors are the ones that the card was told of.
  abbrev pub Flow : ℕ → Packets → ℕ → Reads → TxMedusa → Type 0
  Flow first all sdp reads ctrl =
      (n : ℕ) × (known : ℕ) × (known ≤ n)
      × Legal ctrl.hdp known reads
      × Account k h fits fits' first all n sdp ctrl

  abbrev pub Unmoved : TxMedusa → TxMedusa → Type 0
  Unmoved before after =
      (after.mps ≡ before.mps) × (after.shp ≡ before.shp) × (after.mhp ≡ before.mhp)

  abbrev pub Waited : ℕ → Packets → ℕ → TxMedusa → Option (Bool × Reads × TxMedusa) → Type 0
  Waited first all sdp before none = before.free_desc < 2
  Waited first all sdp before (some (is_killed, reads, after)) =
      (is_killed ≡ false)
      × (2 ≤ after.free_desc)
      × (before.free_desc ≤ after.free_desc)
      × Alive reads
      × Flow first all sdp reads after
      × Unmoved before after

  pub wait-Waited :
      (first : ℕ) (all : Packets) (sdp : ℕ) (reads : Reads) (ctrl : TxMedusa)
      → Alive reads
      → Flow first all sdp reads ctrl
      → Waited first all sdp ctrl (ndp_ctrl_medusa_tx_wait_for_free_desc reads 2 ctrl)
  unfolding ndp_ctrl_medusa_tx_wait_for_free_desc ndp_ctrl_medusa_tx_get_hwptr
  wait-Waited first all sdp [] ctrl alive flow = elim (Bool-cases (ltb ctrl.free_desc 2)) [
    | inl few ↦ rw (few, ndp_ctrl_medusa_tx_wait_for_free_desc) (ground (arith, few))
    | inr enough ↦
        rw (enough, ndp_ctrl_medusa_tx_wait_for_free_desc)
          (refl, ground (arith, enough), omega arith, alive, flow, (refl, refl, refl))
  ]
  wait-Waited first all sdp ((hdp, is_killed) ∷ reads) ctrl (living, alive)
        (n, known, le, (d, few, at, legal), account) =
      elim (Bool-cases (ltb ctrl.free_desc 2)) [
        | inr enough ↦
            rw (enough, ndp_ctrl_medusa_tx_wait_for_free_desc)
              (
                refl,
                ground (arith, enough),
                omega arith,
                (living, alive),
                (n, known, le, (d, few, at, legal), account),
                (refl, refl, refl),
              )
        | inl wanting ↦
            let account' =
              get_hwptr-Account k h fits fits' first all n sdp d hdp ctrl (omega arith) at
                account in
            let ih =
              wait-Waited first all sdp reads (ndp_ctrl_medusa_tx_get_hwptr hdp ctrl) alive
                (n - d, known - d, omega arith, legal, account') in
            rw (wanting, living, ndp_ctrl_medusa_tx_wait_for_free_desc)
              (later
                (ndp_ctrl_medusa_tx_wait_for_free_desc reads 2
                  (ndp_ctrl_medusa_tx_get_hwptr hdp ctrl))
                (ground (arith, wanting)) ih)
      ]
    where
      later :
          (o : Option (Bool × Reads × TxMedusa))
          → ctrl.free_desc < 2
          → Waited first all sdp (ndp_ctrl_medusa_tx_get_hwptr hdp ctrl) o
          → Waited first all sdp ctrl o
      later none few w = few
      later (some (is_killed, reads, after)) few (living, enough, more, alive', flow, same) =
          (living, enough, omega arith, alive', flow, same)

  -- One descriptor, in the slot behind the last one.
  push-InFlight :
      (n sdp upper last : ℕ) (packets more : Packets) (desc : Desc) (ctrl : TxMedusa)
      → decode_one desc ctrl.last_upper_addr ≡ (last, more)
      → 0 < ctrl.free_desc
      → sdp < 2 * 2 ^ k
      → InFlight k h fits fits' n sdp upper packets ctrl
      → InFlight k h fits fits'
          (suc n)
          (sdp + 1)
          upper
          (packets ++ more)
          (push sdp desc (record ctrl { last_upper_addr = last })).1
  push-InFlight n sdp upper last packets more desc ctrl decoded room within
        (mask, hmask, in_ring, free, ahead, queue, inside) =
      let is_inside : ltb sdp (2 * (ctrl.mdp + 1)) ≡ true = ground (arith, mask, within, free) in
      let slot : bit_and sdp ctrl.mdp ≡ (ctrl.hdp + n) % 2 ^ k =
        ap (λ m. bit_and sdp m) mask ∙ and-low_mask sdp k ∙ ahead in
      let stored : (push sdp desc (record ctrl { last_upper_addr = last })).1.descs
          ≡ put ((ctrl.hdp + n) % 2 ^ k) desc ctrl.descs =
        rw (is_inside, slot) refl in
      (
        mask,
        hmask,
        in_ring,
        omega (arith, free, room),
        sym (mod-add-mod sdp (2 ^ k) 1)
            ∙ ap (λ q. (q + 1) % 2 ^ k) ahead
            ∙ mod-add-mod (ctrl.hdp + n) (2 ^ k) 1
            ∙ ap (λ x. x % 2 ^ k) {x = ctrl.hdp + n + 1} {y = ctrl.hdp + suc n} (omega arith),
        ap (λ ds. sent k ds (suc n) ctrl.hdp upper) stored
            ∙ (sent_one_more k n ctrl.hdp upper ctrl.last_upper_addr packets desc ctrl.descs in_ring
                  (omega (arith, free, room)) queue
                ∙ ap (λ (r : ℕ × Packets). (r.0, packets ++ r.1)) decoded),
        rw is_inside inside,
      )

  module _ (page : ℕ) (phys frame_len meta : ℕ → ℕ) where
    abbrev pub packet_addr : StateMps → ℕ
    packet_addr s = (phys s.block_index + s.block_offset) % 2 ^ 64

    -- The packets of `rounds` headers from the slot on: where the card finds them, and their lengths.
    abbrev pub packets_from : ℕ → ℕ → ℕ → ℕ → StateMps → Packets
    packets_from mhp shp zero i s = []
    packets_from mhp shp (suc rounds) i s =
        (packet_addr s, frame_len (forward mhp shp i) % 2 ^ 16)
        ∷ packets_from mhp shp rounds (i + 1) (ndp_ctrl_medusa_mps_inc page s).1

    -- One packet more in flight, by two descriptors at most.
    abbrev pub One : ℕ → ℕ → ℕ → Packets → ℕ → TxMedusa → ℕ × TxMedusa → Type 0
    One n sdp upper packets slot before (sdp', after) =
        (n' : ℕ) × (n ≤ n')
        × (n' ≤ n + 2)
        × (sdp' ≤ sdp + 2)
        × InFlight k h fits fits' n' sdp' upper
            (packets ++ ((packet_addr before.mps, frame_len slot % 2 ^ 16) ∷ [])) after
        × (after.mps ≡ (ndp_ctrl_medusa_mps_inc page before.mps).1)
        × (after.shp ≡ before.shp)
        × (after.hhp ≡ before.hhp)
        × (after.hdp ≡ before.hdp)

    pub send_one-One :
        (n sdp upper slot : ℕ) (packets : Packets) (ctrl : TxMedusa)
        → 2 ≤ ctrl.free_desc
        → sdp + 2 ≤ 2 * 2 ^ k
        → InFlight k h fits fits' n sdp upper packets ctrl
        → One n sdp upper packets slot ctrl (send_one page phys frame_len meta slot sdp ctrl)
    unfolding send_one
    send_one-One n sdp upper slot packets ctrl room within flight =
        let addr = packet_addr ctrl.mps in
        let desc = nc_ndp_tx_desc2 addr (frame_len slot) (meta slot) 0 in
        let packet : Packets = (addr, frame_len slot % 2 ^ 16) ∷ [] in
        let read : decode_one desc (upper_addr addr) ≡ (upper_addr addr, packet) =
          rw (upper_split addr) refl in
        elim (Bool-cases (upper_addr addr == ctrl.last_upper_addr)) [
          | inl same ↦
              let at : upper_addr addr ≡ ctrl.last_upper_addr = ground (arith, same) in
              let read' : decode_one desc ctrl.last_upper_addr ≡ (ctrl.last_upper_addr, packet) =
                subst (λ u. decode_one desc u ≡ (u, packet)) at read in
              rw (same, send_one)
                (
                  suc n,
                  omega arith,
                  omega arith,
                  omega arith,
                  push-InFlight n sdp upper ctrl.last_upper_addr packets packet desc ctrl read'
                      (omega arith) (omega arith) flight,
                  refl,
                  refl,
                  refl,
                  refl,
                )
          | inr new ↦
              let set : decode_one (nc_ndp_tx_desc0 addr) ctrl.last_upper_addr
                  ≡ (upper_addr addr, []) =
                rw (upper_round addr (omega arith)) refl in
              let first =
                push-InFlight n sdp upper (upper_addr addr) packets [] (nc_ndp_tx_desc0 addr) ctrl
                  set (omega arith) (omega arith) flight in
              let ready =
                (push sdp (nc_ndp_tx_desc0 addr)
                  (record ctrl { last_upper_addr = upper_addr addr })).1 in
              let first' =
                subst (λ l. InFlight k h fits fits' (suc n) (sdp + 1) upper l ready)
                  (append_nil packets) first in
              rw (new, send_one)
                (
                  suc (suc n),
                  omega arith,
                  omega arith,
                  omega arith,
                  push-InFlight (suc n) (sdp + 1) upper (upper_addr addr) packets packet desc ready
                      read (omega arith) (omega arith) first',
                  refl,
                  refl,
                  refl,
                  refl,
                )
        ]
