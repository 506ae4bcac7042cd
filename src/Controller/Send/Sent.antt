-- ===== src/Controller/Send/Sent.antt =====
-- Sending the packets up to a new pointer (ndp/ctrl_ndp.c): every packet follows the ones before it into the ring, and
-- none is lost while the function waits for the card.
use native.Mathlib.Nat.{mod-mod}
use ndk_sw_bachelor_thesis.Common.{
  append_assoc, ℕ, zero, suc, ◌+◌, ◌*◌, ◌%◌, ◌^◌, ◌<◌, ◌≤◌, ◌≡◌, refl, ap, sym, subst, ◌∙◌, Bool,
  Option, none, some, [], ◌∷◌, ◌++◌, bit_and, if◌then◌else◌, arith,
}
use ndk_sw_bachelor_thesis.Common.Bits.{low_mask, and-low_mask}
use ndk_sw_bachelor_thesis.Xdp.Tx.Pending.{sent, append_nil}
use ndk_sw_bachelor_thesis.Controller.User.{gap, forward}
use ndk_sw_bachelor_thesis.Controller.Layout.{ndp_ctrl_medusa_mps_inc}
use ndk_sw_bachelor_thesis.Controller.Send.{
  TxMedusa, ndp_ctrl_medusa_tx_wait_for_free_desc, send_one, send_rounds,
  ndp_ctrl_medusa_tx_set_swptr,
}
use ndk_sw_bachelor_thesis.Controller.Send.Consumed.{Packets, Account}
use ndk_sw_bachelor_thesis.Controller.Send.One.{
  Reads, Legal, Alive, Flow, Waited, wait-Waited, packet_addr, packets_from, send_one-One,
}

module _ (k h : ℕ) (fits : k ≤ 32) (fits' : h ≤ 32) (page : ℕ) (phys frame_len meta : ℕ → ℕ) where
  -- The packets of the headers follow into the ring; if the readings do not suffice, there was not room for all.
  abbrev Rounds : ℕ → Packets → ℕ → ℕ → ℕ → TxMedusa → Option (ℕ × TxMedusa) → Type 0
  Rounds first all rounds shp i before none = before.free_desc < 2 * rounds
  Rounds first all rounds shp i before (some (sdp, after)) =
      (n : ℕ) × Account k h fits fits' first
        (all
          ++ packets_from k h fits fits' page phys frame_len meta (low_mask h) shp rounds i
              before.mps)
        n sdp after

  one_Account :
      (first n sdp slot : ℕ) (all : Packets) (ctrl : TxMedusa)
      → 2 ≤ ctrl.free_desc
      → sdp + 2 ≤ 2 * 2 ^ k
      → Account k h fits fits' first all n sdp ctrl
      → let (sdp', after) = send_one page phys frame_len meta slot sdp ctrl in
        (n' : ℕ) × (n ≤ n')
        × (ctrl.free_desc ≤ after.free_desc + 2)
        × (sdp' ≤ sdp + 2)
        × Account k h fits fits' first
            (all
              ++ ((
                packet_addr k h fits fits' page phys frame_len meta ctrl.mps,
                frame_len slot % 2 ^ 16,
              )
                  ∷ []))
            n'
            sdp'
            after
        × (after.mps ≡ (ndp_ctrl_medusa_mps_inc page ctrl.mps).1)
        × (after.shp ≡ ctrl.shp)
        × (after.hdp ≡ ctrl.hdp)
  one_Account first n sdp slot all ctrl room within (upper, done, rest, split, flight, count) =
      let (n', ge, le, few, flight', mps, shp, hhp, hdp) =
        send_one-One k h fits fits' page phys frame_len meta n sdp upper slot rest ctrl room within
          flight in
      let packet : Packets =
        (packet_addr k h fits fits' page phys frame_len meta ctrl.mps, frame_len slot % 2 ^ 16)
        ∷ [] in
      (
        n',
        ge,
        omega (arith, flight.3, flight'.3, le),
        few,
        (
          upper,
          done,
          rest ++ packet,
          ap (λ l. l ++ packet) split ∙ append_assoc done rest packet,
          flight',
          hhp ∙ count,
        ),
        mps,
        shp,
        hdp,
      )

  send_rounds-Rounds :
      (first : ℕ) (all : Packets) (rounds shp i sdp : ℕ) (reads : Reads) (ctrl : TxMedusa)
      → Alive k h fits fits' reads
      → sdp + 2 * rounds ≤ 2 * 2 ^ k
      → ctrl.shp ≡ shp
      → Flow k h fits fits' first all sdp reads ctrl
      → Rounds first all rounds shp i ctrl
          (send_rounds page phys frame_len meta rounds i reads sdp ctrl)
  unfolding send_rounds
  send_rounds-Rounds first all zero shp i sdp reads ctrl alive within at
        (n, known, le, legal, account) =
      (n, subst (λ l. Account k h fits fits' first l n sdp ctrl) (sym (append_nil all)) account)
  send_rounds-Rounds first all (suc rounds) shp i sdp reads ctrl alive within at flow =
      by_wait (ndp_ctrl_medusa_tx_wait_for_free_desc reads 2 ctrl)
        (wait-Waited k h fits fits' first all sdp reads ctrl alive flow)
        (λ all' sdp' reads' after.
          send_rounds-Rounds first all' rounds shp (i + 1) sdp' reads' after)
    where
      Rest : Type 0
      Rest =
          (all' : Packets) (sdp' : ℕ) (reads' : Reads) (after : TxMedusa)
          → Alive k h fits fits' reads'
          → sdp' + 2 * rounds ≤ 2 * 2 ^ k
          → after.shp ≡ shp
          → Flow k h fits fits' first all' sdp' reads' after
          → Rounds first all' rounds shp (i + 1) after
              (send_rounds page phys frame_len meta rounds (i + 1) reads' sdp' after)

      behind :
          (slot : ℕ) (ready after : TxMedusa) (o : Option (ℕ × TxMedusa))
          → slot ≡ forward (low_mask h) shp i
          → ready.mps ≡ ctrl.mps
          → after.mps ≡ (ndp_ctrl_medusa_mps_inc page ready.mps).1
          → ctrl.free_desc ≤ after.free_desc + 2
          → Rounds first
              (all
                ++ ((
                  packet_addr k h fits fits' page phys frame_len meta ready.mps,
                  frame_len slot % 2 ^ 16,
                )
                    ∷ []))
              rounds
              shp
              (i + 1)
              after
              o
          → Rounds first all (suc rounds) shp i ctrl o
      behind slot ready after none place mps mps' free r = omega (arith, r, free)
      behind slot ready after (some (sdp', last)) place mps mps' free (n, account) =
          let packets =
            ap
              (λ s.
                packets_from k h fits fits' page phys frame_len meta (low_mask h) shp rounds (i + 1)
                  s)
              (mps' ∙ ap (λ s. (ndp_ctrl_medusa_mps_inc page s).1) mps) in
          (
            n,
            subst (λ l. Account k h fits fits' first l n sdp' last)
                (append_assoc all
                    ((
                      packet_addr k h fits fits' page phys frame_len meta ready.mps,
                      frame_len slot % 2 ^ 16,
                    )
                      ∷ [])
                    (packets_from k h fits fits' page phys frame_len meta (low_mask h) shp rounds
                      (i + 1) after.mps)
                  ∙ ap
                      (λ l.
                        all
                        ++ ((
                          packet_addr k h fits fits' page phys frame_len meta ready.mps,
                          frame_len slot % 2 ^ 16,
                        )
                            ∷ l))
                      packets
                  ∙ ap
                      (λ s.
                        all
                        ++ ((
                          packet_addr k h fits fits' page phys frame_len meta s,
                          frame_len slot % 2 ^ 16,
                        )
                            ∷ packets_from k h fits fits' page phys frame_len meta (low_mask h) shp
                                rounds (i + 1) (ndp_ctrl_medusa_mps_inc page ctrl.mps).1))
                      mps
                  ∙ ap
                      (λ q.
                        all
                        ++ ((
                          packet_addr k h fits fits' page phys frame_len meta ctrl.mps,
                          frame_len q % 2 ^ 16,
                        )
                            ∷ packets_from k h fits fits' page phys frame_len meta (low_mask h) shp
                                rounds (i + 1) (ndp_ctrl_medusa_mps_inc page ctrl.mps).1))
                      place)
                account,
          )

      by_wait :
          (o : Option (Bool × Reads × TxMedusa))
          → Waited k h fits fits' first all sdp ctrl o
          → Rest
          → Rounds first all (suc rounds) shp i ctrl (elim o as (λ x. Option (ℕ × TxMedusa)) [
            | none ↦ none
            | some (is_killed, reads', ready) ↦
                let (sdp', after) =
                  send_one page phys frame_len meta (forward ready.mhp ready.shp i) sdp ready in
                let rest = send_rounds page phys frame_len meta rounds (i + 1) reads' sdp' after in
                if is_killed then some (sdp, ready) else rest
          ])
      by_wait none w later = omega (arith, w)
      by_wait (some (is_killed, reads', ready))
            (living, enough, more, alive', (n, known, le, legal, account), (mps, shp', mhp)) later =
          let slot = forward ready.mhp ready.shp i in
          let sent = send_one page phys frame_len meta slot sdp ready in
          let (n', ge, free, few, account', mps', shp'', hdp) =
            one_Account first n sdp slot all ready enough (omega arith) account in
          let mask = account.4.1 in
          let place : slot ≡ forward (low_mask h) shp i =
            ap (λ m. forward m ready.shp i) mask ∙ ap (λ q. forward (low_mask h) q i) (shp' ∙ at) in
          let rest =
            later
              (all
                ++ ((
                  packet_addr k h fits fits' page phys frame_len meta ready.mps,
                  frame_len slot % 2 ^ 16,
                )
                    ∷ []))
              sent.0 reads' sent.1 alive' (omega (arith, few, within)) (shp'' ∙ shp' ∙ at)
              (
                n',
                known,
                omega (arith, le, ge),
                subst (λ q. Legal k h fits fits' q known reads') (sym hdp) legal,
                account',
              ) in
          rw living (
            behind slot ready sent.1
              (send_rounds page phys frame_len meta rounds (i + 1) reads' sent.0 sent.1) place mps
              mps' (omega (arith, more, free)) rest)

  -- The packets of the headers up to `ptr`.
  abbrev pub count_of : ℕ → TxMedusa → ℕ
  count_of ptr ctrl = gap ctrl.mhp (ptr % 2 ^ 32) ctrl.shp

  -- The outcome of a new pointer: the packets of its headers are behind all others, and the card is told; or the
  -- function still waits.
  abbrev pub Queued : ℕ → Packets → ℕ → TxMedusa → Option TxMedusa → Type 0
  Queued first all ptr before none = before.free_desc < 2 * count_of ptr before
  Queued first all ptr before (some after) =
      ((n : ℕ) × Account k h fits fits' first
          (all
            ++ packets_from k h fits fits' page phys frame_len meta (low_mask h) before.shp
                (count_of ptr before) 0 before.mps)
          n after.sdp after)
      × (after.shp ≡ ptr % 2 ^ 32)
      × (after.sdp_register ≡ after.sdp)

  -- Let the card have sent the packets in front of `hhp` and have the others still to send, all descriptors in flight
  -- being known to it, let its pointer move on within them, let no kill signal come, and let two descriptors for each
  -- new packet fit into the mapping behind `sdp`. Then the packets of the headers up to `ptr` follow the others into the
  -- ring in their order, nothing is written behind the mapping, `hhp` still divides what is sent from what is not, free
  -- descriptors and those in flight are all but one, and the card is told of the new end. The function waits for
  -- more readings only if there were less than two free descriptors for each new packet.
  pub set_swptr-Queued :
      (first : ℕ) (all : Packets) (n : ℕ) (reads : Reads) (ptr : ℕ) (ctrl : TxMedusa)
      → Account k h fits fits' first all n ctrl.sdp ctrl
      → Legal k h fits fits' ctrl.hdp n reads
      → Alive k h fits fits' reads
      → ctrl.sdp + 2 * count_of ptr ctrl ≤ 2 * 2 ^ k
      → Queued first all ptr ctrl
          (ndp_ctrl_medusa_tx_set_swptr page phys frame_len meta reads ptr ctrl)
  unfolding ndp_ctrl_medusa_tx_set_swptr
  set_swptr-Queued first all n reads ptr ctrl account legal alive within =
      by_rounds (send_rounds page phys frame_len meta (count_of ptr ctrl) 0 reads ctrl.sdp ctrl) (
        send_rounds-Rounds first all (count_of ptr ctrl) ctrl.shp 0 ctrl.sdp reads ctrl alive within
          refl (n, n, omega arith, legal, account))
    where
      by_rounds :
          (o : Option (ℕ × TxMedusa))
          → Rounds first all (count_of ptr ctrl) ctrl.shp 0 ctrl o
          → Queued first all ptr ctrl (elim o as (λ x. Option TxMedusa) [
            | none ↦ none
            | some (sdp, sent) ↦
                let sdp' = bit_and sdp sent.mdp in
                some (record sent { sdp = sdp'; shp = ptr % 2 ^ 32; sdp_register = sdp' })
          ])
      by_rounds none r = r
      by_rounds (some (sdp, sent))
            (
              m,
              (upper, done, rest, split, (mask, hmask, in_ring, free, ahead, queue, inside), count),
            ) =
          let end : bit_and sdp sent.mdp % 2 ^ k ≡ sdp % 2 ^ k =
            ap (λ w. bit_and sdp w % 2 ^ k) mask
            ∙ ap (λ x. x % 2 ^ k) (and-low_mask sdp k)
            ∙ mod-mod sdp (2 ^ k) in
          (
            (
              m,
              (
                upper,
                done,
                rest,
                split,
                (mask, hmask, in_ring, free, end ∙ ahead, queue, inside),
                count,
              ),
            ),
            refl,
            refl,
          )
