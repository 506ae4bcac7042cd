-- ===== src/Xdp/Channel/States.antt =====
-- The states of an XDP channel (channel.c, ctrl_xdp_common.c): idle with nothing held, or running with
-- all it needs in one mode.
use ndk_sw_bachelor_thesis.Common.{
  ◌≡◌, refl, Bool, true, false, Status, ok, err, ebusy, ◌⊎◌, inl, inr, arith, if◌then◌else◌,
}
use ndk_sw_bachelor_thesis.Xdp.Alloc.{rx, tx}
use ndk_sw_bachelor_thesis.Xdp.Channel.{
  Mode, pp, xsk, Ctrl, null_ctrl, freed, misfreed, live, Thread, no_thread, alive, error_pointer,
  crashed, disabled, enabled, Kernel, XdpChannel, allocates, nfb_xctrl_start,
  channel_create_threads, begin, start_in, channel_start, channel_stop,
}

abbrev pub uses_xsk : Mode → Bool
uses_xsk pp = false
uses_xsk xsk = true

abbrev is_gone : Ctrl → Bool
is_gone null_ctrl = true
is_gone freed = true
is_gone misfreed = false
is_gone (live mode running) = false

abbrev is_over : Thread → Bool
is_over no_thread = true
is_over error_pointer = true
is_over alive = false
is_over crashed = false

-- Nothing is held: no controller, no thread, every NAPI instance disabled.
abbrev pub Idle : XdpChannel → Type 0
Idle channel =
    (channel.is_running ≡ false)
    × (is_gone channel.rx_ctrl ≡ true)
    × (is_gone channel.tx_ctrl ≡ true)
    × (is_over channel.rx_thread ≡ true)
    × (is_over channel.tx_thread ≡ true)
    × (channel.rx_napi_pp ≡ disabled)
    × (channel.rx_napi_xsk ≡ disabled)
    × (channel.tx_napi_xsk ≡ disabled)

-- Both controllers run in the mode that the status bit names, with the NAPI instances of that mode.
abbrev pub Up : Mode → XdpChannel → Type 0
Up mode channel =
    (channel.is_running ≡ true)
    × (channel.is_xsk ≡ uses_xsk mode)
    × (channel.rx_ctrl ≡ live mode true)
    × (channel.tx_ctrl ≡ live mode true)
    × (channel.rx_thread ≡ alive)
    × (channel.tx_thread ≡ alive)
    × (channel.rx_napi_pp ≡ (if uses_xsk mode then disabled else enabled))
    × (channel.rx_napi_xsk ≡ (if uses_xsk mode then enabled else disabled))
    × (channel.tx_napi_xsk ≡ (if uses_xsk mode then enabled else disabled))

abbrev pub IsSound : XdpChannel → Type 0
IsSound channel = Idle channel ⊎ ((mode : Mode) × Up mode channel)

-- A start returns 0 and the channel is up, or an error and the channel is idle.
abbrev pub Settled : Mode → Status × XdpChannel → Type 0
Settled mode (ok, channel) = Up mode channel
Settled mode (err e, channel) = Idle channel

begin-Settled :
    (mode : Mode) (kernel : Kernel) (channel : XdpChannel)
    → Idle (record channel { rx_ctrl = null_ctrl; tx_ctrl = null_ctrl })
    → channel.is_xsk ≡ uses_xsk mode
    → kernel.tx_created ≡ ok
    → channel.rx_ctrl ≡ live mode false
    → channel.tx_ctrl ≡ live mode false
    → Settled mode (begin mode kernel channel)
unfolding begin nfb_xctrl_start channel_create_threads
begin-Settled pp kernel channel idle bit created rx_made tx_made = ground arith
begin-Settled xsk kernel channel idle bit created rx_made tx_made = ground arith

started-Settled :
    (mode : Mode) (rx_allocated tx_allocated : Bool) (kernel : Kernel) (channel : XdpChannel)
    → Idle channel
    → channel.is_xsk ≡ uses_xsk mode
    → kernel.tx_created ≡ ok
    → Settled mode (start_in mode rx_allocated tx_allocated kernel channel)
unfolding start_in
started-Settled mode false tx_allocated kernel channel idle bit created = ground arith
started-Settled pp true false kernel channel idle bit created = ground arith
started-Settled xsk true false kernel channel idle bit created = ground arith
started-Settled mode true true kernel channel idle bit created =
    not_busy mode _ _ channel.is_running idle.0 (
      begin-Settled mode kernel
        (record channel { rx_ctrl = live mode false; tx_ctrl = live mode false })
        (idle.0, refl, refl, idle.3, idle.4, idle.5, idle.6, idle.7) bit created refl refl)
  where
    not_busy :
        (mode : Mode) (busy begun : Status × XdpChannel) (running : Bool)
        → running ≡ false
        → Settled mode begun
        → Settled mode (if running then busy else begun)
    not_busy mode busy begun false e settled = settled
    not_busy mode busy begun true e settled = absurd (ground arith)

-- Starting an idle channel whose status bit names the mode brings it up in that mode, or returns an
-- error and leaves it idle with nothing held, whatever the allocations, the two controllers and the
-- receive thread answer, if the kernel creates the transmit thread.
pub start-Settled :
    (mode : Mode) (kernel : Kernel) (channel : XdpChannel)
    → Idle channel
    → channel.is_xsk ≡ uses_xsk mode
    → kernel.tx_created ≡ ok
    → Settled mode (channel_start mode kernel channel)
start-Settled mode kernel channel idle bit created =
    started-Settled mode (allocates mode kernel.rx_grants kernel.found rx)
      (allocates mode kernel.tx_grants kernel.found tx) kernel channel idle bit created

-- A running channel refuses a second start and stays as it is.
pub start_busy :
    (mode : Mode) (kernel : Kernel) (channel : XdpChannel)
    → channel.is_running ≡ true
    → channel_start mode kernel channel ≡ (err ebusy, channel)
unfolding start_in
start_busy mode kernel channel running = rw running refl

-- Stopping a sound channel leaves it idle: both controllers destroyed once and in their own mode, both
-- threads collected, the NAPI instances that the start enabled disabled, and none that it did not.
pub stop-Idle : (channel : XdpChannel) → IsSound channel → Idle (channel_stop channel).1
unfolding channel_stop
stop-Idle channel (inl idle) = ground arith
stop-Idle channel (inr (pp, up)) = ground arith
stop-Idle channel (inr (xsk, up)) = ground arith
