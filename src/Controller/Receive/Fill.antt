-- ===== src/Controller/Receive/Fill.antt =====
-- The empty buffers of a Medusa controller (ndp/ctrl_ndp.c) as the queue that its descriptors name: one filling.
use native.Mathlib.Nat.{mod-add-mod}
use ndk_sw_bachelor_thesis.Common.{
  append_assoc, ℕ, zero, suc, ◌+◌, ◌%◌, ◌^◌, ◌<◌, ◌≤◌, ◌≡◌, refl, ap, sym, subst, ◌∙◌, inl, inr,
  Bool-cases, ◌==◌, List, [], ◌∷◌, ◌++◌, arith,
}
use ndk_sw_bachelor_thesis.Common.Bits.{low_mask}
use ndk_sw_bachelor_thesis.Common.Rings.{masked_word}
use ndk_sw_bachelor_thesis.Xdp.Tx.{upper_addr, put}
use ndk_sw_bachelor_thesis.Xdp.Tx.Decode.{upper_round}
use ndk_sw_bachelor_thesis.Xdp.Tx.Pending.{sent, sent_one_more, one_written, append_nil}
use ndk_sw_bachelor_thesis.Xdp.Rx.{nc_ndp_rx_desc0, nc_ndp_rx_desc2}
use ndk_sw_bachelor_thesis.Controller.User.{forward}
use ndk_sw_bachelor_thesis.Controller.Layout.{Cfg, StateMps, ndp_ctrl_medusa_mps_inc}
use ndk_sw_bachelor_thesis.Controller.Receive.{
  RxMedusa, buffer_addr, fill_one, fill_rounds, ndp_ctrl_mps_fill_rx_descs,
}

abbrev pub Packets : Type 0
Packets = List (ℕ × ℕ)

module _ (page : ℕ) (phys : ℕ → ℕ) where
  -- The walk through the ring, `m` buffers on, and the buffers on the way: where the card finds them, and their size.
  abbrev pub walked : ℕ → StateMps → StateMps
  walked zero s = s
  walked (suc m) s = walked m (ndp_ctrl_medusa_mps_inc page s).1

  abbrev pub buffers : ℕ → StateMps → Packets
  buffers zero s = []
  buffers (suc m) s =
      (buffer_addr page phys s, s.cfg.buffer_size) ∷ buffers m (ndp_ctrl_medusa_mps_inc page s).1

  inc_cfg : (s : StateMps) → (ndp_ctrl_medusa_mps_inc page s).1.cfg ≡ s.cfg
  unfolding ndp_ctrl_medusa_mps_inc
  inc_cfg s = ground arith

  -- All that a round leaves as it was.
  abbrev Kept : RxMedusa → RxMedusa → Type 0
  Kept before after =
      ◌≡◌ {A = RxMedusa}
        (record after {
          last_upper_addr = before.last_upper_addr;
          mps = before.mps;
          descs = before.descs;
        })
        before

  module _ (k : ℕ) (fits : k ≤ 32) (p : ℕ) (in_ring : p < 2 ^ k) (upper size : ℕ)
      (short : size < 2 ^ 16) where
    slot_lem : (n i : ℕ) → forward (low_mask k) ((p + n) % 2 ^ k) i ≡ (p + (n + i)) % 2 ^ k
    slot_lem n i =
        masked_word k 32 fits ((p + n) % 2 ^ k + i)
        ∙ mod-add-mod (p + n) (2 ^ k) i
        ∙ ap (λ x. x % 2 ^ k) {x = p + n + i} {y = p + (n + i)} (omega arith)

    -- The loop's descriptors name the next buffers of the ring.
    abbrev Loop : ℕ → ℕ → Packets → RxMedusa → RxMedusa → Type 0
    Loop total rounds given before after =
        (m : ℕ) × (m ≤ rounds)
        × (after.mps ≡ walked m before.mps)
        × (sent k after.descs total p upper
            ≡ (after.last_upper_addr, given ++ buffers m before.mps))
        × Kept before after

    -- A descriptor of type 0, and one of type 2 at the upper bits that the card knows.
    upper_written :
        (n a : ℕ) (given : Packets) (ctrl : RxMedusa)
        → a < 2 ^ 64
        → n < 2 ^ k
        → sent k ctrl.descs n p upper ≡ (ctrl.last_upper_addr, given)
        → sent k (put ((p + n) % 2 ^ k) (nc_ndp_rx_desc0 a) ctrl.descs) (suc n) p upper
          ≡ (upper_addr a, given)
    upper_written n a given ctrl ha room e =
        sent_one_more k n p upper ctrl.last_upper_addr given (nc_ndp_rx_desc0 a) ctrl.descs in_ring
          room e
        ∙ rw (upper_round a ha, append_nil given) refl

    buffer_written :
        (n a len : ℕ) (given : Packets) (ctrl : RxMedusa)
        → n < 2 ^ k
        → len ≡ size
        → upper_addr a ≡ ctrl.last_upper_addr
        → sent k ctrl.descs n p upper ≡ (ctrl.last_upper_addr, given)
        → sent k (put ((p + n) % 2 ^ k) (nc_ndp_rx_desc2 a len 0) ctrl.descs) (suc n) p upper
          ≡ (ctrl.last_upper_addr, given ++ ((a, len) ∷ []))
    buffer_written n a len given ctrl room sized same e =
        one_written k fits n p upper given ctrl.descs a len in_ring room (omega arith)
          (e ∙ ap (λ u. (u, given)) (sym same))
        ∙ ap (λ u. (u, given ++ ((a, len) ∷ []))) same

    fill_rounds_lem :
        (rounds n i : ℕ) (given : Packets) (ctrl : RxMedusa)
        → ctrl.mdp ≡ low_mask k
        → ctrl.sdp ≡ (p + n) % 2 ^ k
        → ctrl.mps.cfg.buffer_size ≡ size
        → n + i + rounds ≤ 2 ^ k
        → sent k ctrl.descs (n + i) p upper ≡ (ctrl.last_upper_addr, given)
        → Loop (n + i + rounds) rounds given ctrl (fill_rounds page phys rounds i ctrl)
    unfolding fill_one
    fill_rounds_lem zero n i given ctrl mask at cfg room e =
        let same : n + i + 0 ≡ n + i = omega arith in
        (
          0,
          omega arith,
          refl,
          ap (λ t. sent k ctrl.descs t p upper) same
              ∙ e
              ∙ ap (λ l. (ctrl.last_upper_addr, l)) (sym (append_nil given)),
          refl,
        )
    fill_rounds_lem (suc rounds) n i given ctrl mask at cfg room e =
        let addr = buffer_addr page phys ctrl.mps in
        let slot = forward ctrl.mdp ctrl.sdp i in
        let place : slot ≡ (p + (n + i)) % 2 ^ k =
          ap (λ m. forward m ctrl.sdp i) mask
          ∙ ap (λ q. forward (low_mask k) q i) at
          ∙ slot_lem n i in
        let one : suc (n + i) ≡ n + (i + 1) = omega arith in
        let total : n + (i + 1) + rounds ≡ n + i + suc rounds = omega arith in
        elim (Bool-cases (upper_addr addr == ctrl.last_upper_addr)) [
          | inl same ↦
              let next = record ctrl {
                descs = put slot (nc_ndp_rx_desc2 addr ctrl.mps.cfg.buffer_size 0) ctrl.descs;
                mps = (ndp_ctrl_medusa_mps_inc page ctrl.mps).1;
              } in
              let stepped : fill_one page phys i ctrl ≡ next = rw (same, fill_one) refl in
              let given' = given ++ ((addr, ctrl.mps.cfg.buffer_size) ∷ []) in
              let written : sent k next.descs (n + (i + 1)) p upper
                  ≡ (ctrl.last_upper_addr, given') =
                ap (λ t. sent k next.descs t p upper) (sym one)
                ∙ ap
                    (λ q.
                      sent k (put q (nc_ndp_rx_desc2 addr ctrl.mps.cfg.buffer_size 0) ctrl.descs)
                        (suc (n + i)) p upper)
                    place
                ∙ buffer_written (n + i) addr ctrl.mps.cfg.buffer_size given ctrl (omega arith) cfg
                    (ground (arith, same)) e in
              let (m, le, mps, s, kept) =
                fill_rounds_lem rounds n (i + 1) given' next mask at
                  (ap (λ (c : Cfg). c.buffer_size) (inc_cfg ctrl.mps) ∙ cfg) (omega arith)
                  written in
              subst
                (λ c.
                  Loop (n + i + suc rounds) (suc rounds) given ctrl
                    (fill_rounds page phys rounds (i + 1) c))
                (sym stepped)
                (
                  suc m,
                  omega arith,
                  mps,
                  ap (λ t. sent k (fill_rounds page phys rounds (i + 1) next).descs t p upper)
                        (sym total)
                      ∙ s
                      ∙ ap (λ l. ((fill_rounds page phys rounds (i + 1) next).last_upper_addr, l))
                          (append_assoc given ((addr, ctrl.mps.cfg.buffer_size) ∷ [])
                            (buffers m (ndp_ctrl_medusa_mps_inc page ctrl.mps).1)),
                  ap
                      (λ (c : RxMedusa). record c {
                        last_upper_addr = ctrl.last_upper_addr;
                        mps = ctrl.mps;
                        descs = ctrl.descs;
                      })
                      kept,
                )
          | inr new ↦
              let next = record ctrl {
                last_upper_addr = upper_addr addr;
                descs = put slot (nc_ndp_rx_desc0 addr) ctrl.descs;
              } in
              let stepped : fill_one page phys i ctrl ≡ next = rw (new, fill_one) refl in
              let written : sent k next.descs (n + (i + 1)) p upper ≡ (upper_addr addr, given) =
                ap (λ t. sent k next.descs t p upper) (sym one)
                ∙ ap (λ q. sent k (put q (nc_ndp_rx_desc0 addr) ctrl.descs) (suc (n + i)) p upper)
                    place
                ∙ upper_written (n + i) addr given ctrl (omega arith) (omega arith) e in
              let (m, le, mps, s, kept) =
                fill_rounds_lem rounds n (i + 1) given next mask at cfg (omega arith) written in
              subst
                (λ c.
                  Loop (n + i + suc rounds) (suc rounds) given ctrl
                    (fill_rounds page phys rounds (i + 1) c))
                (sym stepped)
                (
                  m,
                  omega arith,
                  mps,
                  ap (λ t. sent k (fill_rounds page phys rounds (i + 1) next).descs t p upper)
                        (sym total)
                      ∙ s,
                  ap
                      (λ (c : RxMedusa). record c {
                        last_upper_addr = ctrl.last_upper_addr;
                        mps = ctrl.mps;
                        descs = ctrl.descs;
                      })
                      kept,
                )
        ]

    -- `n` descriptors from the card's pointer to `sdp`, which name the buffers `given`.
    abbrev pub Queue : ℕ → Packets → RxMedusa → Type 0
    Queue n given ctrl =
        (ctrl.mdp ≡ low_mask k)
        × (ctrl.sdp ≡ (p + n) % 2 ^ k)
        × (ctrl.mps.cfg.buffer_size ≡ size)
        × (sent k ctrl.descs n p upper ≡ (ctrl.last_upper_addr, given))

    -- The queue is longer by `count` descriptors and the next buffers of the ring.
    abbrev pub Longer : ℕ → ℕ → Packets → RxMedusa → RxMedusa → Type 0
    Longer n count given before after =
        (m : ℕ) × (m ≤ count)
        × (after.mps ≡ walked m before.mps)
        × Queue (n + count) (given ++ buffers m before.mps) after

    walked_cfg : (m : ℕ) (s : StateMps) → (walked m s).cfg ≡ s.cfg
    walked_cfg zero s = refl
    walked_cfg (suc m) s = walked_cfg m (ndp_ctrl_medusa_mps_inc page s).1 ∙ inc_cfg s

    pub walked-add : (m n : ℕ) (s : StateMps) → walked n (walked m s) ≡ walked (m + n) s
    walked-add zero n s = ap (λ t. walked t s) {x = n} {y = 0 + n} (omega arith)
    walked-add (suc m) n s =
        walked-add m n (ndp_ctrl_medusa_mps_inc page s).1
        ∙ ap (λ t. walked t s) {x = suc (m + n)} {y = suc m + n} (omega arith)

    pub buffers-add :
        (m n : ℕ) (s : StateMps) → buffers m s ++ buffers n (walked m s) ≡ buffers (m + n) s
    buffers-add zero n s = ap (λ t. buffers t s) {x = n} {y = 0 + n} (omega arith)
    buffers-add (suc m) n s =
        ap (λ l. (buffer_addr page phys s, s.cfg.buffer_size) ∷ l)
          (buffers-add m n (ndp_ctrl_medusa_mps_inc page s).1)
        ∙ ap (λ t. buffers t s) {x = suc (m + n)} {y = suc m + n} (omega arith)

    -- What a filling leaves as it was, but for the pointer to the descriptors.
    abbrev pub Account : RxMedusa → RxMedusa → Type 0
    Account before after =
        (after.free_desc ≡ before.free_desc)
        × (after.shp ≡ before.shp)
        × (after.sp_register ≡ before.sp_register)

    pub fill_lem :
        (count n : ℕ) (given : Packets) (ctrl : RxMedusa)
        → n + count ≤ 2 ^ k
        → Queue n given ctrl
        → Longer n count given ctrl (ndp_ctrl_mps_fill_rx_descs page phys ctrl count)
          × Account ctrl (ndp_ctrl_mps_fill_rx_descs page phys ctrl count)
    fill_lem count n given ctrl room (mask, at, cfg, e) =
        let none_yet : n + 0 ≡ n = omega arith in
        let total : n + 0 + count ≡ n + count = omega arith in
        let filled = fill_rounds page phys count 0 ctrl in
        let (m, le, mps, s, kept) =
          fill_rounds_lem count n 0 given ctrl mask at cfg (omega (arith, room))
            (ap (λ t. sent k ctrl.descs t p upper) none_yet ∙ e) in
        let mask' : filled.mdp ≡ low_mask k = ap (λ (c : RxMedusa). c.mdp) kept ∙ mask in
        let at' : filled.sdp ≡ (p + n) % 2 ^ k = ap (λ (c : RxMedusa). c.sdp) kept ∙ at in
        (
          (
            m,
            le,
            mps,
            (
              mask',
              ap (λ w. forward w filled.sdp count) mask'
                  ∙ ap (λ q. forward (low_mask k) q count) at'
                  ∙ slot_lem n count,
              ap (λ (z : StateMps). z.cfg.buffer_size) mps
                  ∙ ap (λ (c : Cfg). c.buffer_size) (walked_cfg m ctrl.mps)
                  ∙ cfg,
              ap (λ t. sent k filled.descs t p upper) (sym total) ∙ s,
            ),
          ),
          (
            ap (λ (c : RxMedusa). c.free_desc) kept,
            ap (λ (c : RxMedusa). c.shp) kept,
            ap (λ (c : RxMedusa). c.sp_register) kept,
          ),
        )
