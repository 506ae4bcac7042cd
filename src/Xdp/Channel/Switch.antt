-- ===== src/Xdp/Channel/Switch.antt =====
-- Switching an XDP channel between its two modes (ctrl_xdp_common.c), and two runs of channel.c that
-- leave the contract of the kernel.
use ndk_sw_bachelor_thesis.Common.{
  ℕ, ◌≡◌, refl, true, false, Option, none, some, Status, ok, err, ◌⊎◌, inl, inr, arith, Errno,
}
use ndk_sw_bachelor_thesis.Xdp.Channel.{
  Mode, pp, xsk, live, misfreed, enabled, misused, Kernel, XdpChannel, nfb_xctrl_start,
  channel_create_threads, begin, start_in, channel_start_pp, channel_start_xsk, channel_stop,
  nfb_setup_xsk_pool, nfb_teardown_xsk_pool, switch_pool,
}
use ndk_sw_bachelor_thesis.Xdp.Channel.States.{Idle, Up, IsSound, Settled, start-Settled, stop-Idle}

-- What a switch leaves: the channel up in the mode asked for, or an error and nothing held; and a
-- pool that could not be mapped changes nothing.
abbrev pub Switched : XdpChannel → Mode → Status × XdpChannel → Type 0
Switched before mode (ok, after) = Up mode after
Switched before mode (err e, after) = Idle after ⊎ (after ≡ before)

abbrev pub mode_for : Option ℕ → Mode
mode_for none = pp
mode_for (some pool') = xsk

Settled-switch :
    (mode : Mode) (before : XdpChannel) (result : Status × XdpChannel)
    → Settled mode result
    → Switched before mode result
Settled-switch mode before (ok, after) settled = settled
Settled-switch mode before (err e, after) settled = inl settled

Settled-teardown :
    (before : XdpChannel) (result : Status × XdpChannel)
    → Settled pp result
    → Switched before pp (result.0, record result.1 { pool = none })
Settled-teardown before (ok, after) settled = settled
Settled-teardown before (err e, after) settled = inl settled

-- From a sound state in either mode, `XDP_SETUP_XSK_POOL` brings the channel up in AF_XDP mode when it
-- brings a pool and in page pool mode when it brings none, or returns an error and leaves the channel
-- idle or, when the pool could not be mapped, as it was; if the kernel creates the transmit thread.
pub switch_pool-Switched :
    (mapped : Status) (kernel : Kernel) (wanted : Option ℕ) (channel : XdpChannel)
    → IsSound channel
    → kernel.tx_created ≡ ok
    → Switched channel (mode_for wanted) (switch_pool mapped kernel wanted channel)
unfolding switch_pool nfb_setup_xsk_pool nfb_teardown_xsk_pool channel_start_xsk channel_start_pp
switch_pool-Switched (err e) kernel (some pool') channel sound created = inr refl
switch_pool-Switched ok kernel (some pool') channel sound created = Settled-switch xsk channel _ (
    start-Settled xsk kernel (record (channel_stop channel).1 { is_xsk = true; pool = some pool' })
      (stop-Idle channel sound) refl created)
switch_pool-Switched mapped kernel none channel sound created = Settled-teardown channel _ (
    start-Settled pp kernel (record (channel_stop channel).1 { is_xsk = false })
      (stop-Idle channel sound) refl created)

-- When the kernel cannot create the transmit thread for an idle channel in page pool mode and all
-- else succeeds, the start fails but the NAPI instance of the receive queue stays enabled, so that
-- the next start, when all succeeds, enables it a second time.
napi_left :
    (first second : Kernel) (e : Errno) (channel : XdpChannel)
    → Idle channel
    → channel.is_xsk ≡ false
    → first.tx_created ≡ err e
    → first.rx_created ≡ ok
    → first.rx_started ≡ ok
    → first.tx_started ≡ ok
    → second.tx_created ≡ ok
    → second.rx_created ≡ ok
    → second.rx_started ≡ ok
    → second.tx_started ≡ ok
    → let (failed, between) = start_in pp true true first channel in
      let (succeeded, after) = start_in pp true true second between in
      (failed ≡ err e)
      × (between.rx_napi_pp ≡ enabled)
      × (succeeded ≡ ok)
      × (after.rx_napi_pp ≡ misused)
unfolding start_in begin nfb_xctrl_start channel_create_threads
napi_left first second e channel idle bit a1 a2 a3 a4 b1 b2 b3 b4 = ground arith

-- `ndo_stop` then `ndo_open` restart a channel of AF_XDP mode with page pool controllers while the
-- status bit still says AF_XDP: when the kernel grants everything, the start succeeds, and the next
-- stop hands the page pool controllers to the destructor of the other mode.
reopened :
    (kernel : Kernel) (channel : XdpChannel)
    → Up xsk channel
    → kernel.tx_created ≡ ok
    → kernel.rx_created ≡ ok
    → kernel.rx_started ≡ ok
    → kernel.tx_started ≡ ok
    → let (started, running) = start_in pp true true kernel (channel_stop channel).1 in
      (started ≡ ok)
      × (running.rx_ctrl ≡ live pp true)
      × (running.is_xsk ≡ true)
      × ((channel_stop running).1.rx_ctrl ≡ misfreed)
unfolding channel_stop start_in begin nfb_xctrl_start channel_create_threads
reopened kernel channel up a b c d = ground arith
