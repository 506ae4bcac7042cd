-- ===== src/Bus/Tests.antt =====
-- bus.c at concrete inputs.
use ndk_sw_bachelor_thesis.Common.{◌≡◌, refl, some, [], ◌∷◌}
use ndk_sw_bachelor_thesis.Bus.{nfb_comp_find}

third_node : nfb_comp_find (some (16 ∷ 32 ∷ 48 ∷ [])) 2 ≡ some 48
unfolding nfb_comp_find
third_node = refl
