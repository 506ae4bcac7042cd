-- ===== src/Controller/User/Bursts.antt =====
-- How `ndp_ctrl_user_fill_rx_descs` (ndp/ctrl_ndp.c) hands its descriptors to the card.
use ndk_sw_bachelor_thesis.Common.{
  ℕ, ◌+◌, ◌-◌, ◌*◌, ◌%◌, ◌^◌, ◌<◌, ◌≤◌, ◌≡◌, ◌≢◌, ◌⊎◌, bit_and, true, Option, none, some,
}
use ndk_sw_bachelor_thesis.Controller.User.{UserCtrl, desc_burst, gap, forward, user_rounds}

-- What no round touches.
abbrev Untouched : UserCtrl → UserCtrl → Type 0
Untouched before after =
    (after.sdp ≡ before.sdp)
    × (after.mdp ≡ before.mdp)
    × (after.next_sdp ≡ before.next_sdp)
    × (after.next_sdp_age ≡ before.next_sdp_age)
    × (after.sdp_register ≡ before.sdp_register)

-- A round writes a descriptor at least.
abbrev Rounds : ℕ → ℕ → UserCtrl → ℕ × ℕ × UserCtrl → Type 0
Rounds i j before (i', j', after) = (i ≤ i') × (i' + j ≤ i + j') × Untouched before after

abbrev Upper : ℕ → UserCtrl → Option (ℕ × UserCtrl) → Type 0
Upper j before none = true ≡ true
Upper j before (some (j', after)) = (j ≤ j') × Untouched before after

-- What a call whose loop did `rounds` rounds did to the age, and to what the card was told. Without a round it did
-- nothing to them. Else the descriptors that the card was not told of are compared with a burst: it is told nothing
-- exactly if they are fewer.
abbrev pub Published : ℕ → UserCtrl → UserCtrl → Type 0
Published rounds before after =
    ((after.next_sdp_age ≡ before.next_sdp_age) ⊎ (after.next_sdp_age ≡ 0))
    × (((rounds ≡ 0)
          × (after.next_sdp ≡ before.next_sdp)
          × (after.sdp ≡ before.sdp)
          × (after.sdp_register ≡ before.sdp_register))
        ⊎ ((rounds ≢ 0)
            × (gap before.mdp after.next_sdp before.sdp < desc_burst)
            × (after.sdp ≡ before.sdp)
            × (after.sdp_register ≡ before.sdp_register))
        ⊎ ((rounds ≢ 0)
            × ((bursts : ℕ) × (0 < bursts)
                × (bursts * desc_burst ≤ gap before.mdp after.next_sdp before.sdp)
                × (gap before.mdp after.next_sdp before.sdp < bursts * desc_burst + desc_burst)
                × (after.sdp ≡ forward before.mdp before.sdp (bursts * desc_burst))
                × (after.sdp_register ≡ after.sdp))))

-- The rounds that the loop does.
abbrev pub rounds_done : (off frame_len : ℕ → ℕ) → UserCtrl → ℕ
rounds_done off frame_len ctrl =
    let free = bit_and ((ctrl.hdp + 2 ^ 32 - ctrl.next_sdp + 2 ^ 32 - 1) % 2 ^ 32) ctrl.mhp in
    (user_rounds off frame_len (gap ctrl.mhp ctrl.shp ctrl.php) 0 0
      (record ctrl { free_desc = free })).0
