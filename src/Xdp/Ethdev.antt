-- ===== src/Xdp/Ethdev.antt =====
-- drivers/kernel/drivers/nfb/xdp/ethdev.c: opening and stopping a network device, over the channels of
-- Xdp/Channel. A channel comes with what the kernel answers when it is started. The components of the MAC
-- (libnfb) are there.
use ndk_sw_bachelor_thesis.Common.{
  ℕ, ◌≡◌, refl, ◌≢◌, inl, inr, Bool, true, false, Option, none, List, [], ◌∷◌, map, Status, ok, err,
  arith, if◌then◌else◌,
}
use ndk_sw_bachelor_thesis.Xdp.Channel.{
  pp, Kernel, XdpChannel, channel_start, channel_start_pp, channel_stop,
}
use ndk_sw_bachelor_thesis.Xdp.Channel.States.{Idle, Up, Settled, start-Settled, stop-Idle}

-- `struct nfb_ethdev`: the program, the two MACs, the transmit queues of the network device, the channels, and
-- whether the link's work and timer were started.
pub record Ethdev : Type 0 where
  pub prog : Option ℕ
  pub mac_enabled : Bool
  pub tx_queues : Bool
  pub link_work : Bool
  pub channels : List (Kernel × XdpChannel)

abbrev pub stop_one : Kernel × XdpChannel → Kernel × XdpChannel
stop_one (kernel, channel) = (kernel, (channel_stop channel).1)

unfoldable pub nfb_stop_channels : Ethdev → Ethdev
nfb_stop_channels dev = record dev {
  prog = none;
  mac_enabled = false;
  tx_queues = false;
  channels = map stop_one dev.channels;
}

-- The loop over the channels: `ret`, the channels, and whether it went to the label.
unfoldable pub start_each :
    Status → List (Kernel × XdpChannel) → Status × List (Kernel × XdpChannel) × Bool
unfolding channel_start_pp
start_each ret [] = (ret, [], false)
start_each ret ((kernel, channel) ∷ channels) =
    let (started, after) = channel_start_pp kernel channel in
    let (ret', channels', failed) = start_each ok channels in
    elim started [
      | ok ↦ (ret', (kernel, after) ∷ channels', failed)
      | err e ↦ (err e, (kernel, after) ∷ channels, true)
    ]

-- `garbage` is what the uninitialised `ret` holds.
unfoldable pub nfb_start_channels : Status → Ethdev → Status × Ethdev
unfolding start_each nfb_stop_channels
nfb_start_channels garbage dev =
    let (ret, channels', failed) = start_each garbage dev.channels in
    let tried = record dev { channels = channels' } in
    if failed then (ret, nfb_stop_channels tried) else (ret, record tried { mac_enabled = true })

unfoldable pub nfb_xdp_open : Status → Ethdev → Status × Ethdev
unfolding nfb_start_channels
nfb_xdp_open garbage dev =
    let (ret, opened) = nfb_start_channels garbage dev in (ret, record opened { link_work = true })

unfoldable pub nfb_xdp_stop : Ethdev → Status × Ethdev
nfb_xdp_stop dev = (ok, nfb_stop_channels dev)

-- Every channel is idle in page pool mode, and the kernel creates its transmit thread.
abbrev pub AllReady : List (Kernel × XdpChannel) → Type 0
AllReady [] = Unit {0}
AllReady ((kernel, channel) ∷ channels) =
    (Idle channel × (channel.is_xsk ≡ false) × (kernel.tx_created ≡ ok)) × AllReady channels

abbrev pub AllIdle : List (Kernel × XdpChannel) → Type 0
AllIdle [] = Unit {0}
AllIdle ((kernel, channel) ∷ channels) = Idle channel × AllIdle channels

abbrev pub AllUp : List (Kernel × XdpChannel) → Type 0
AllUp [] = Unit {0}
AllUp ((kernel, channel) ∷ channels) = Up pp channel × AllUp channels

ready_stopped :
    (channels : List (Kernel × XdpChannel)) → AllReady channels → AllIdle (map stop_one channels)
ready_stopped [] h = tt
ready_stopped ((kernel, channel) ∷ channels) (h, hs) =
    (stop-Idle channel (inl (h.0)), ready_stopped channels hs)

-- How the loop ends: all channels up and 0, or an error at which stopping leaves all idle.
abbrev Tried : Status → List (Kernel × XdpChannel) × Bool → Type 0
Tried ok (channels, failed) = (failed ≡ false) × AllUp channels
Tried (err e) (channels, failed) = (failed ≡ true) × AllIdle (map stop_one channels)

one_more :
    (kernel : Kernel) (started ret : Status) (after : XdpChannel)
    (before rest : List (Kernel × XdpChannel)) (failed : Bool)
    → Settled pp (started, after)
    → AllReady before
    → Tried ret (rest, failed)
    → let (r, c, f) = elim started as (λ _. Status × List (Kernel × XdpChannel) × Bool) [
      | ok ↦ (ret, (kernel, after) ∷ rest, failed)
      | err e ↦ (err e, (kernel, after) ∷ before, true)
    ] in
      Tried r (c, f)
one_more kernel ok ok after before rest failed up ready (f, ups) = (f, (up, ups))
one_more kernel ok (err e) after before rest failed up ready (f, idle) =
    (f, (stop-Idle after (inr (pp, up)), idle))
one_more kernel (err e) ret after before rest failed idle ready tried =
    (refl, (stop-Idle after (inl idle), ready_stopped before ready))

start_each-Tried :
    (channels : List (Kernel × XdpChannel))
    → AllReady channels
    → let (r, c, f) = start_each ok channels in Tried r (c, f)
unfolding start_each channel_start_pp
start_each-Tried [] h = (refl, tt)
start_each-Tried ((kernel, channel) ∷ channels) ((idle, bit, created), hs) =
    let (r, c, f) = start_each ok channels in
    one_more kernel (channel_start pp kernel channel).0 r (channel_start pp kernel channel).1
      channels c f (start-Settled pp kernel channel idle bit created) hs
      (start_each-Tried channels hs)

-- What `ret` holds before does not matter once there is a channel.
some_channel-Tried :
    (garbage : Status) (channels : List (Kernel × XdpChannel))
    → channels ≢ []
    → AllReady channels
    → let (r, c, f) = start_each garbage channels in Tried r (c, f)
unfolding start_each channel_start_pp
some_channel-Tried garbage [] ne h = absurd (ne refl)
some_channel-Tried garbage (first ∷ channels) ne h = start_each-Tried (first ∷ channels) h

-- A device that was opened: with 0 every channel is up and the MACs are enabled; with an error every channel is
-- idle, the MACs are disabled and the program is gone.
abbrev pub OpenedBy : Status → Ethdev → Type 0
OpenedBy ok dev = AllUp dev.channels × (dev.mac_enabled ≡ true)
OpenedBy (err e) dev = AllIdle dev.channels × (dev.mac_enabled ≡ false) × (dev.prog ≡ none)

opened :
    (dev : Ethdev) (ret : Status) (channels : List (Kernel × XdpChannel)) (failed : Bool)
    → Tried ret (channels, failed)
    → let tried = record dev { channels = channels } in
      let (r, after) =
        if◌then◌else◌ {A = Status × Ethdev} failed
          (ret, nfb_stop_channels tried)
          (ret, record tried { mac_enabled = true }) in
      OpenedBy r (record after { link_work = true })
unfolding nfb_stop_channels
opened dev ok channels false (f, up) = (up, refl)
opened dev ok channels true (f, up) = absurd (ground (arith, f))
opened dev (err e) channels false (f, idle) = absurd (ground (arith, f))
opened dev (err e) channels true (f, idle) = (idle, refl, refl)

-- Opening a device with at least one channel, all of them idle with the AF_XDP status bit clear, ends in one of the two states of `OpenedBy`: no
-- channel of a failed opening is left running. This is under the condition that the kernel creates the transmit
-- threads.
pub open-Opened :
    (garbage : Status) (dev : Ethdev)
    → dev.channels ≢ []
    → AllReady dev.channels
    → let (ret, after) = nfb_xdp_open garbage dev in OpenedBy ret after
unfolding nfb_xdp_open nfb_start_channels
open-Opened garbage dev ne ready =
    let (ret, channels, failed) = start_each garbage dev.channels in
    opened dev ret channels failed (some_channel-Tried garbage dev.channels ne ready)
