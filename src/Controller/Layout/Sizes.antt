-- ===== src/Controller/Layout/Sizes.antt =====
-- The loops that choose the configuration of a Medusa ring (ndp/ctrl_ndp.c): when they end, and with what.
use native.Mathlib.Nat.{pow-suc, div-mul-le_self, lt-div-mul-add, mul-le-mul_right}
use ndk_sw_bachelor_thesis.Common.{
  ℕ, zero, suc, ◌+◌, ◌*◌, ◌/◌, ◌%◌, ◌^◌, ◌<◌, ◌≤◌, ◌≡◌, ◌≢◌, refl, ap, sym, ◌∙◌, ◌⊎◌, inl, inr,
  true, false, Bool-cases, Option, none, some, ◌==◌, ltb, leb, Status, ok, err, einval, max, arith,
}
use ndk_sw_bachelor_thesis.Controller.Layout.{
  Cfg, StateMps, ndp_ctrl_medusa_mps_inc, ndp_ctrl_medusa_mps_meta_init, walk, min_buffer_items,
  ndp_ctrl_medusa_req_block_update, double_until, and_resize, ndp_ctrl_set_ring_size,
}

module _ (page : ℕ) where
  inc_index :
      (s : StateMps)
      → s.cfg.buffer_count ≡ 0
      → s.buffer_index + 1 < 2 ^ 32
      → ((ndp_ctrl_medusa_mps_inc page s).1.buffer_index ≡ s.buffer_index + 1)
        × ((ndp_ctrl_medusa_mps_inc page s).1.cfg ≡ s.cfg)
  unfolding ndp_ctrl_medusa_mps_inc
  inc_index s e h =
      let index : (s.buffer_index + 1) % 2 ^ 32 ≡ s.buffer_index + 1 = omega arith in
      let inner : s.buffer_index + 1 == 0 ≡ false = ground arith in
      rw (index, e, inner) (ground arith)

  inc_index-lt : (s : StateMps) → (ndp_ctrl_medusa_mps_inc page s).1.buffer_index < 2 ^ 32
  unfolding ndp_ctrl_medusa_mps_inc
  inc_index-lt s = ground arith

  walk_total :
      (fuel count : ℕ) (s : StateMps)
      → s.cfg.buffer_count ≡ 0
      → s.buffer_index ≤ count
      → count < s.buffer_index + fuel
      → count < 2 ^ 32
      → (r : StateMps) × (walk page fuel count s ≡ some r) × (r.buffer_index ≡ count)
  unfolding walk
  walk_total zero count s e le h word = absurd (omega arith)
  walk_total (suc fuel) count s e le h word = elim (Bool-cases (ltb s.buffer_index count)) [
    | inl more ↦
        let (next, same) = inc_index s e (ground (arith, more)) in
        rw (more, walk)
          (walk_total fuel count (ndp_ctrl_medusa_mps_inc page s).1
            (ap (λ (c : Cfg). c.buffer_count) same ∙ e) (ground (arith, next, more))
            (omega (arith, next)) word)
    | inr done ↦ (s, rw (done, walk) refl, ground (arith, done))
  ]

  walk_endless :
      (fuel count : ℕ) (s : StateMps)
      → 2 ^ 32 ≤ count
      → s.buffer_index < 2 ^ 32
      → walk page fuel count s ≡ none
  unfolding walk
  walk_endless zero count s big low = refl
  walk_endless (suc fuel) count s big low =
      let more : ltb s.buffer_index count ≡ true = ground arith in
      rw (more, walk)
        (walk_endless fuel count (ndp_ctrl_medusa_mps_inc page s).1 big (inc_index-lt s))

  -- The outcome of a request: refused for no size or too few buffers, or a configuration of as many buffers as were
  -- asked for, of the size asked for in 32 bits.
  abbrev pub Answered : ℕ → ℕ → Option (Status × Option Cfg) → Type 0
  Answered size count none = false ≡ true
  Answered size count (some (ok, some cfg)) =
      (cfg.buffer_count ≡ count)
      × (cfg.buffer_size ≡ size % 2 ^ 32)
      × (size ≢ 0)
      × (min_buffer_items page ≤ count)
  Answered size count (some (ok, none)) = false ≡ true
  Answered size count (some (err e, found)) =
      (e ≡ einval) × (found ≡ none) × ((size ≡ 0) ⊎ (count < min_buffer_items page))

  walk_cfg :
      (fuel count : ℕ) (s r : StateMps)
      → s.cfg.buffer_count ≡ 0
      → count < 2 ^ 32
      → walk page fuel count s ≡ some r
      → r.cfg ≡ s.cfg
  unfolding walk
  walk_cfg zero count s r e word found = cc
  walk_cfg (suc fuel) count s r e word found = elim (Bool-cases (ltb s.buffer_index count)) [
    | inl more ↦
        let (next, same) = inc_index s e (ground (arith, more)) in
        let found' : walk page fuel count (ndp_ctrl_medusa_mps_inc page s).1 ≡ some r =
          ground (arith, more, found) in
        walk_cfg fuel count (ndp_ctrl_medusa_mps_inc page s).1 r
          (ap (λ (c : Cfg). c.buffer_count) same ∙ e) word found'
        ∙ same
    | inr done ↦ ground (arith, done, found)
  ]

  -- A request for fewer than `2 ^ 32` buffers is answered, after one round of the walk for each buffer: it is refused
  -- for no size or too few buffers, or gives a configuration of as many buffers as were asked for.
  update-Answered :
      (fuel req_block_size size count start : ℕ)
      → count < fuel
      → count < 2 ^ 32
      → Answered size count
          (ndp_ctrl_medusa_req_block_update page fuel req_block_size size count start)
  unfolding ndp_ctrl_medusa_req_block_update
  update-Answered fuel req_block_size size count start enough_fuel word =
      elim (Bool-cases (size == 0)) [
        | inl empty ↦
            rw (empty, ndp_ctrl_medusa_req_block_update) (refl, refl, inl (ground (arith, empty)))
        | inr sized ↦ elim (Bool-cases (ltb count (min_buffer_items page))) [
          | inl few ↦
              rw (sized, few, ndp_ctrl_medusa_req_block_update)
                (refl, refl, inr (ground (arith, few)))
          | inr enough ↦
              let init = ndp_ctrl_medusa_mps_meta_init req_block_size 0 size 0 start in
              let (r, found, index) =
                walk_total fuel count init refl (omega arith) (omega arith) word in
              let same = walk_cfg fuel count init r refl word found in
              rw (sized, enough, found, ndp_ctrl_medusa_req_block_update)
                (
                  index,
                  ap (λ (c : Cfg). c.buffer_size) same,
                  ground (arith, sized),
                  ground (arith, enough),
                )
        ]
      ]

  -- A request for `2 ^ 32` buffers or more, of some size and at least as many as a page has headers, never ends: no
  -- number of rounds of the walk is enough.
  update_endless :
      (fuel req_block_size size count start : ℕ)
      → 0 < size
      → min_buffer_items page ≤ count
      → 2 ^ 32 ≤ count
      → ndp_ctrl_medusa_req_block_update page fuel req_block_size size count start ≡ none
  unfolding ndp_ctrl_medusa_req_block_update
  update_endless fuel req_block_size size count start positive enough big =
      let sized : size == 0 ≡ false = ground arith in
      let many : ltb count (min_buffer_items page) ≡ false = ground arith in
      rw
        (
          sized,
          many,
          walk_endless fuel count (ndp_ctrl_medusa_mps_meta_init req_block_size 0 size 0 start) big
              (omega arith),
          ndp_ctrl_medusa_req_block_update,
        )
        refl

-- The largest power of two up to the target, or 1.
abbrev pub Doubled : ℕ → Option ℕ → Type 0
Doubled target none = false ≡ true
Doubled target (some c) = (k : ℕ) × (c ≡ 2 ^ k) × (c ≤ max 1 target) × (target < c * 2)

double_until-Doubled :
    (fuel k target c : ℕ)
    → k + fuel ≡ 64
    → target < 2 ^ 63
    → c ≡ 2 ^ k
    → c ≤ max 1 target
    → Doubled target (double_until fuel target c)
unfolding double_until
double_until-Doubled zero k target c e small power le =
    let all : c ≡ 2 ^ 64 = power ∙ ap (λ x. 2 ^ x) {x = k} {y = 64} (omega arith) in
    absurd (omega (arith, all, le))
double_until-Doubled (suc fuel) k target c e small power le =
    let fits : c * 2 % 2 ^ 64 ≡ c * 2 = omega arith in
    elim (Bool-cases (leb (c * 2) target)) [
      | inl more ↦
          rw (fits, more, double_until)
            (double_until-Doubled fuel (suc k) target (c * 2) (omega arith) small
              (ap (λ x. x * 2) power ∙ sym (pow-suc 2 k)) (ground (arith, more)))
      | inr done ↦ rw (fits, done, double_until) (k, power, le, ground (arith, done))
    ]

module _ (page : ℕ) where
  -- Buffers whose number is a power of two, with at most as many bytes as asked for, and more than half as many.
  abbrev pub IsLargest : ℕ → ℕ → Cfg → Type 0
  IsLargest size value cfg =
      (k : ℕ) × (cfg.buffer_count ≡ 2 ^ k)
      × (cfg.buffer_size ≡ size)
      × (cfg.buffer_count * size ≤ value)
      × (value < cfg.buffer_count * 2 * size)

  -- The outcome of a new ring size: refused with nothing stored, or stored, and then the answer is that of the resizing
  -- to the stored number of blocks.
  abbrev pub Resized : (ℕ → Status) → ℕ → ℕ → Option (Status × Option Cfg) → Type 0
  Resized resize size value none = false ≡ true
  Resized resize size value (some (ok, some cfg)) =
      (resize cfg.block_count ≡ ok) × IsLargest size value cfg
  Resized resize size value (some (ok, none)) = false ≡ true
  Resized resize size value (some (err e, some cfg)) =
      (resize cfg.block_count ≡ err e) × IsLargest size value cfg
  Resized resize size value (some (err e, none)) =
      (e ≡ einval) × ((size ≡ 0) ⊎ (value / size < min_buffer_items page * 2))

  with_answer :
      (resize : ℕ → Status) (size value : ℕ) (cfg : Cfg) (s : Status)
      → resize cfg.block_count ≡ s
      → IsLargest size value cfg
      → Resized resize size value (some (s, some cfg))
  with_answer resize size value cfg ok e largest = (e, largest)
  with_answer resize size value cfg (err f) e largest = (e, largest)

  Answered-Resized :
      (resize : ℕ → Status) (size value c k : ℕ) (o : Option (Status × Option Cfg))
      → size < 2 ^ 32
      → 2 ≤ min_buffer_items page
      → c ≡ 2 ^ k
      → c ≤ max 1 (value / size)
      → value / size < c * 2
      → Answered page size c o
      → Resized resize size value (and_resize page resize o)
  Answered-Resized resize size value c k none small items power le lt a = a
  Answered-Resized resize size value c k (some (err e, some cfg)) small items power le lt
        (refused, nothing, why) =
      absurd (ground (arith, nothing))
  Answered-Resized resize size value c k (some (err e, none)) small items power le lt
        (refused, nothing, inl z) =
      (refused, inl z)
  Answered-Resized resize size value c k (some (err e, none)) small items power le lt
        (refused, nothing, inr few) =
      (refused, inr (omega (arith, lt, few)))
  Answered-Resized resize size value c k (some (ok, none)) small items power le lt a = a
  Answered-Resized resize size value c k (some (ok, some cfg)) small items power le lt
        (count, size', positive, enough) =
      let below : value / size * size ≤ value = div-mul-le_self value size in
      let above : value < value / size * size + size = lt-div-mul-add (omega (arith, positive)) in
      let m : c * size ≤ value / size * size = mul-le-mul_right size (omega arith) in
      let n : (value / size + 1) * size ≤ c * 2 * size = mul-le-mul_right size (omega arith) in
      let scaled : cfg.buffer_count * size ≡ c * size = ap (λ x. x * size) count in
      with_answer resize size value cfg (resize cfg.block_count) refl (
        k,
        count ∙ power,
        size' ∙ omega arith,
        omega (arith, below, m, scaled),
        rw count (omega (arith, above, n)),
      )

  -- A new ring size below `2 ^ 63` bytes, of fewer than `2 ^ 32` buffers whose size is a word of 32 bits, is answered,
  -- if a page has at least two headers: it is refused if there is no buffer size or less than twice the least number of
  -- buffers fits, or the buffers number a power of two and are the most that fit into the size asked for, this is stored, and the
  -- answer is that of the resizing of the ring.
  pub set_ring_size-Resized :
      (fuel : ℕ) (resize : ℕ → Status) (req_block_size : ℕ) (cfg : Cfg) (value : ℕ)
      → cfg.buffer_size < 2 ^ 32
      → 2 ≤ min_buffer_items page
      → value < 2 ^ 63
      → max 1 (value / cfg.buffer_size) < 2 ^ 32
      → max 1 (value / cfg.buffer_size) < fuel
      → Resized resize cfg.buffer_size value
          (ndp_ctrl_set_ring_size page fuel 64 resize req_block_size cfg value)
  unfolding ndp_ctrl_set_ring_size
  set_ring_size-Resized fuel resize req_block_size cfg value small items big word enough =
      elim (Bool-cases (cfg.buffer_size == 0)) [
        | inl empty ↦ rw (empty, ndp_ctrl_set_ring_size) (refl, inl (ground (arith, empty)))
        | inr sized ↦
            let target : value / cfg.buffer_size < 2 ^ 63 = omega arith in
            rw (sized, ndp_ctrl_set_ring_size)
              (doubled (double_until 64 (value / cfg.buffer_size) 1) (
                double_until-Doubled 64 0 (value / cfg.buffer_size) 1 (omega arith) target refl
                  (omega arith)))
      ]
    where
      doubled :
          (o : Option ℕ)
          → Doubled (value / cfg.buffer_size) o
          → Resized resize cfg.buffer_size value (elim o [
            | none ↦ none
            | some buffer_count ↦ and_resize page resize (
                ndp_ctrl_medusa_req_block_update page fuel req_block_size cfg.buffer_size
                  buffer_count cfg.initial_offset)
          ])
      doubled none d = absurd (ground (arith, d))
      doubled (some c) (k, power, le, lt) =
          Answered-Resized resize cfg.buffer_size value c k
            (ndp_ctrl_medusa_req_block_update page fuel req_block_size cfg.buffer_size c
              cfg.initial_offset)
            small items power le lt
            (update-Answered page fuel req_block_size cfg.buffer_size c cfg.initial_offset
              (omega arith) (omega arith))
