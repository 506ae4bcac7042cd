-- ===== src/Controller/Send/Consumed.antt =====
-- What the card has sent of the ring of a Medusa controller (ndp/ctrl_ndp.c), and what it has still to send.
use native.Mathlib.Nat.{mod-add-mod, mod-lt, pow-le-pow_right, one-le-pow}
use ndk_sw_bachelor_thesis.Common.{
  append_assoc, ℕ, zero, suc, ◌+◌, ◌-◌, ◌%◌, ◌^◌, ◌<◌, ◌≤◌, ◌≡◌, refl, ap, sym, subst, ◌∙◌, false,
  List, [], ◌∷◌, ◌++◌, length, length-append, arith,
}
use ndk_sw_bachelor_thesis.Common.Bits.{low_mask}
use ndk_sw_bachelor_thesis.Common.Rings.{masked_word, advance}
use ndk_sw_bachelor_thesis.Xdp.Tx.{Desc, type0, type2}
use ndk_sw_bachelor_thesis.Xdp.Tx.Decode.{decode_one}
use ndk_sw_bachelor_thesis.Xdp.Tx.Pending.{sent, append_nil}
use ndk_sw_bachelor_thesis.Controller.User.{gap, forward}
use ndk_sw_bachelor_thesis.Controller.Send.{TxMedusa, free_hdrs, ndp_ctrl_medusa_tx_get_hwptr}

abbrev pub Packets : Type 0
Packets = List (ℕ × ℕ)

module _ (k h : ℕ) (fits : k ≤ 32) (fits' : h ≤ 32) where
  -- The card reads `d` descriptors and then `m` more.
  sent-add :
      (descs : ℕ → Desc) (d m p upper : ℕ)
      → sent k descs (d + m) p upper ≡ (
        (sent k descs m ((p + d) % 2 ^ k) (sent k descs d p upper).0).0,
        (sent k descs d p upper).1
            ++ (sent k descs m ((p + d) % 2 ^ k) (sent k descs d p upper).0).1,
      )
  sent-add descs d zero p upper =
      ap (λ t. sent k descs t p upper) {x = d + 0} {y = d} (omega arith)
      ∙ ap (λ l. ((sent k descs d p upper).0, l)) (sym (append_nil (sent k descs d p upper).1))
  sent-add descs d (suc m) p upper =
      let same : (p + (d + m)) % 2 ^ k ≡ ((p + d) % 2 ^ k + m) % 2 ^ k =
        ap (λ x. x % 2 ^ k) {x = p + (d + m)} {y = p + d + m} (omega arith)
        ∙ sym (mod-add-mod (p + d) (2 ^ k) m) in
      ap (λ t. sent k descs t p upper) {x = d + suc m} {y = suc (d + m)} (omega arith)
      ∙ rw (sent-add descs d m p upper, same)
          (ap
            (λ l. (
              (decode_one (descs (((p + d) % 2 ^ k + m) % 2 ^ k))
                  (sent k descs m ((p + d) % 2 ^ k) (sent k descs d p upper).0).0).0,
              l,
            ))
            (append_assoc (sent k descs d p upper).1 _ _))

  pub forward_lem : (x i : ℕ) → forward (low_mask k) x i ≡ (x + i) % 2 ^ k
  forward_lem x i = masked_word k 32 fits (x + i)

  free_hdrs-sent :
      (descs : ℕ → Desc) (n p upper : ℕ)
      → free_hdrs descs (low_mask k) n p ≡ length (sent k descs n p upper).1
  free_hdrs-sent descs zero p upper = refl
  free_hdrs-sent descs (suc n) p upper =
      rw (free_hdrs, forward_lem p n)
        (by_desc (descs ((p + n) % 2 ^ k)) (free_hdrs-sent descs n p upper))
    where
      by_desc :
          (desc : Desc)
          → free_hdrs descs (low_mask k) n p ≡ length (sent k descs n p upper).1
          → (elim desc as (λ d. ℕ) [
            | type0 lo hi ↦ free_hdrs descs (low_mask k) n p
            | type2 phys len meta next0 ↦ free_hdrs descs (low_mask k) n p + 1
          ])
            ≡ length ((sent k descs n p upper).1 ++ (decode_one desc (sent k descs n p upper).0).1)
      by_desc (type0 lo hi) ih = ih ∙ ap length (sym (append_nil (sent k descs n p upper).1))
      by_desc (type2 phys len meta next0) ih =
          let l =
            length-append (sent k descs n p upper).1
              (((sent k descs n p upper).0 + phys, len) ∷ []) in
          omega (arith, l, ih)

  -- `n` descriptors in flight to the function's copy of `sdp`, which send `packets`.
  abbrev pub InFlight : ℕ → ℕ → ℕ → Packets → TxMedusa → Type 0
  InFlight n sdp upper packets ctrl =
      (ctrl.mdp ≡ low_mask k)
      × (ctrl.mhp ≡ low_mask h)
      × (ctrl.hdp < 2 ^ k)
      × (n + ctrl.free_desc + 1 ≡ 2 ^ k)
      × (sdp % 2 ^ k ≡ (ctrl.hdp + n) % 2 ^ k)
      × (sent k ctrl.descs n ctrl.hdp upper ≡ (ctrl.last_upper_addr, packets))
      × (ctrl.is_outside ≡ false)

  -- Of all packets, which follow the header pointer `first`, the card has sent those in front of `hhp` and has the others
  -- still to send.
  abbrev pub Account : ℕ → Packets → ℕ → ℕ → TxMedusa → Type 0
  Account first all n sdp ctrl =
      (upper : ℕ) × (done : Packets) × (rest : Packets) × (all ≡ done ++ rest)
      × InFlight n sdp upper rest ctrl
      × (ctrl.hhp ≡ (first + length done) % 2 ^ h)

  some_slots : 0 < 2 ^ k
  some_slots = one-le-pow k 2 (omega arith)

  small : 2 ^ k ≤ 2 ^ 32
  small = pow-le-pow_right {n = 2} (omega arith) fits

  gap_lem : (x d : ℕ) → x < 2 ^ k → d < 2 ^ k → gap (low_mask k) ((x + d) % 2 ^ k) x ≡ d
  gap_lem x d hx hd =
      masked_word k 32 fits ((x + d) % 2 ^ k + 2 ^ 32 - x)
      ∙ advance k 32 fits x d (omega (arith, small)) hd

  pub get_hwptr-Account :
      (first : ℕ) (all : Packets) (n sdp d hdp : ℕ) (ctrl : TxMedusa)
      → d ≤ n
      → hdp ≡ (ctrl.hdp + d) % 2 ^ k
      → Account first all n sdp ctrl
      → Account first all (n - d) sdp (ndp_ctrl_medusa_tx_get_hwptr hdp ctrl)
  unfolding ndp_ctrl_medusa_tx_get_hwptr
  get_hwptr-Account first all n sdp d hdp ctrl le at
        (upper, done, rest, split, (mask, hmask, in_ring, free, ahead, queue, inside), count) =
      let at_most : d < 2 ^ k = omega (arith, free) in
      let taken = sent k ctrl.descs d ctrl.hdp upper in
      let left = sent k ctrl.descs (n - d) hdp taken.0 in
      let all_n : d + (n - d) ≡ n = omega arith in
      let moved : gap ctrl.mdp hdp ctrl.hdp ≡ d =
        ap (λ m. gap m hdp ctrl.hdp) mask
        ∙ ap (λ q. gap (low_mask k) q ctrl.hdp) at
        ∙ gap_lem ctrl.hdp d in_ring at_most in
      let parts : ◌≡◌ {A = ℕ × Packets} (left.0, taken.1 ++ left.1) (ctrl.last_upper_addr, rest) =
        ap
          (λ q. (
            (sent k ctrl.descs (n - d) q taken.0).0,
            taken.1 ++ (sent k ctrl.descs (n - d) q taken.0).1,
          ))
          at
        ∙ sym (sent-add ctrl.descs d (n - d) ctrl.hdp upper)
        ∙ ap (λ t. sent k ctrl.descs t ctrl.hdp upper) all_n
        ∙ queue in
      let packets : free_hdrs ctrl.descs ctrl.mdp (gap ctrl.mdp hdp ctrl.hdp) ctrl.hdp
          ≡ length taken.1 =
        ap (λ c. free_hdrs ctrl.descs ctrl.mdp c ctrl.hdp) moved
        ∙ ap (λ m. free_hdrs ctrl.descs m d ctrl.hdp) mask
        ∙ free_hdrs-sent ctrl.descs d ctrl.hdp upper in
      let ahead' : (ctrl.hdp + n) % 2 ^ k ≡ (hdp + (n - d)) % 2 ^ k =
        ap (λ x. x % 2 ^ k) {x = ctrl.hdp + n} {y = ctrl.hdp + d + (n - d)} (omega (arith, all_n))
        ∙ sym (mod-add-mod (ctrl.hdp + d) (2 ^ k) (n - d))
        ∙ ap (λ q. (q + (n - d)) % 2 ^ k) (sym at) in
      (
        taken.0,
        done ++ taken.1,
        left.1,
        split
            ∙ ap (λ l. done ++ l) (sym (ap (λ (r : ℕ × Packets). r.1) parts))
            ∙ sym (append_assoc done taken.1 left.1),
        (
          mask,
          hmask,
          subst (λ q. q < 2 ^ k) (sym at) (mod-lt (ctrl.hdp + d) {m = 2 ^ k} some_slots),
          omega (arith, moved, free, small),
          ahead ∙ ahead',
          ap (λ u. (u, left.1)) (ap (λ (r : ℕ × Packets). r.0) parts),
          inside,
        ),
        ap
              (λ m.
                forward m ctrl.hhp
                  (free_hdrs ctrl.descs ctrl.mdp (gap ctrl.mdp hdp ctrl.hdp) ctrl.hdp))
              hmask
            ∙ ap (λ c. forward (low_mask h) ctrl.hhp c) packets
            ∙ masked_word h 32 fits' (ctrl.hhp + length taken.1)
            ∙ ap (λ q. (q + length taken.1) % 2 ^ h) count
            ∙ mod-add-mod (first + length done) (2 ^ h) (length taken.1)
            ∙ ap (λ x. x % 2 ^ h) {x = first + length done + length taken.1}
                {y = first + length (done ++ taken.1)} (omega (arith, length-append done taken.1)),
      )
