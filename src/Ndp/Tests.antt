-- ===== src/Ndp/Tests.antt =====
-- The theorems on starting and stopping a DMA controller at concrete inputs.
use ndk_sw_bachelor_thesis.Common.{ℕ, ◌≡◌, refl, Bool, true, false, List, [], ok, err, eperm}
use ndk_sw_bachelor_thesis.Lock.{
  LockItem, nfb_lock_try_lock, scan, nfb_lock_unlock, find_own, grant_at, revoke_at,
}
use ndk_sw_bachelor_thesis.Bus.{nfb_comp_trylock, settled, nfb_comp_unlock}
use ndk_sw_bachelor_thesis.Lock.Exclusion.{Exclusive-nil}
use ndk_sw_bachelor_thesis.Ndp.{
  medusa, NdpCtrl, StartParams, Registers, nc_ndp_ctrl_start, nc_ndp_ctrl_stop_force, stop_with,
}
use ndk_sw_bachelor_thesis.Ndp.Stop.{Stopped, stop-Stopped}
use ndk_sw_bachelor_thesis.Ndp.Restart.{ndp_ctrl_start}

abbrev enough : ℕ → Bool
enough n = true

abbrev alone : ℕ → List LockItem → List LockItem
alone n items = items

abbrev transmitter : NdpCtrl
transmitter = record {
  ty = medusa;
  dir = 1;
  last_upper_addr = 0;
  mdp = 0;
  mhp = 0;
  sdp = 3;
  hdp = 1;
  shp = 0;
  hhp = 0;
  update0 = 3;
  update1 = 0;
}

abbrev slots_1024 : StartParams
slots_1024 = record {
  desc_buffer = 4096;
  data_buffer = 0;
  hdr_buffer = 0;
  update_buffer = 8192;
  nb_data = 0;
  nb_desc = 1024;
  nb_hdr = 0;
}

-- A card that is not running and takes rings of 65536 slots.
abbrev idle_card : Registers
idle_card = record {
  status = λ n. 0;
  hdp_reg = 0;
  hhp_reg = 0;
  mdp_reg = 0;
  mhp_reg = 0;
  val_max = 131071;
}

-- The test of the start on this input succeeds.
start_runs :
    (nc_ndp_ctrl_start enough alone 1 "/tx0" idle_card slots_1024 transmitter []).result ≡ ok
unfolding nc_ndp_ctrl_start nfb_comp_trylock settled nfb_lock_try_lock scan
start_runs = refl

stop-Stopped_example :
    Stopped enough alone 1 "/tx0" idle_card false transmitter []
      (stop_with enough alone 1 "/tx0" idle_card false transmitter [])
stop-Stopped_example =
    stop-Stopped enough alone 1 "/tx0" idle_card false transmitter [] Exclusive-nil

-- A card that goes on running until it is stopped by force, and then answers as an idle one.
abbrev busy_card : Registers
busy_card = record {
  status = λ n. 1;
  hdp_reg = 0;
  hhp_reg = 0;
  mdp_reg = 0;
  mhp_reg = 0;
  val_max = 131071;
}

-- The first start finds the card running, and the second one succeeds.
restart_runs :
    (ndp_ctrl_start enough alone 1 "/tx0"
      (λ l. l)
      busy_card
      idle_card
      idle_card
      slots_1024
      transmitter
      []).result
    ≡ ok
unfolding ndp_ctrl_start nc_ndp_ctrl_start nfb_comp_trylock settled nfb_lock_try_lock scan
    nc_ndp_ctrl_stop_force stop_with nfb_comp_unlock nfb_lock_unlock find_own grant_at revoke_at
restart_runs = refl

restart_fails :
    (ndp_ctrl_start enough alone 1 "/tx0"
      (λ l. l)
      busy_card
      busy_card
      busy_card
      slots_1024
      transmitter
      []).result
    ≡ err eperm
unfolding ndp_ctrl_start nc_ndp_ctrl_start nfb_comp_trylock settled nfb_lock_try_lock scan
    nc_ndp_ctrl_stop_force stop_with nfb_comp_unlock nfb_lock_unlock find_own grant_at revoke_at
restart_fails = refl
