-- ===== src/Xdp/Channel.antt =====
-- drivers/kernel/drivers/nfb/xdp/channel.c and the AF_XDP pool switch of ctrl_xdp_common.c: one channel
-- of the XDP driver, with the controllers, threads and NAPI instances of its two queues. The channel's
-- mutex makes each call atomic. What the kernel answers is the parameter `Kernel`. The states
-- `misfreed`, `misused` and `crashed` stand for a call outside the contract of what is called: freeing
-- a controller twice or in the wrong mode, `napi_enable` of an enabled instance (a BUG in the kernel) or
-- `napi_disable` of a disabled one (it never returns), `kthread_stop` of an error pointer.
pub mod States
pub mod Switch
use ndk_sw_bachelor_thesis.Common.{
  ℕ, Bool, true, false, Option, none, some, Status, ok, err, ebusy, einval, enomem, if◌then◌else◌,
}
use ndk_sw_bachelor_thesis.Xdp.Alloc.{
  QueueType, rx, tx, Resource, nfb_xctrl_alloc_pp, nfb_xctrl_alloc_xsk,
}

pub data Mode : Type 0 where
  pp xsk : Mode

-- `live`: its mode, and whether `XCTRL_STATUS_IS_RUNNING` is set.
pub data Ctrl : Type 0 where
  null_ctrl freed misfreed : Ctrl
  live : Mode → Bool → Ctrl

pub data Thread : Type 0 where
  no_thread alive error_pointer crashed : Thread

pub data Napi : Type 0 where
  disabled enabled misused : Napi

pub record Kernel : Type 0 where
  pub found : Bool
  pub rx_grants : Resource → Bool
  pub tx_grants : Resource → Bool
  pub rx_started : Status
  pub tx_started : Status
  pub rx_created : Status
  pub tx_created : Status

-- `struct nfb_xdp_channel` with its `rxq` and `txq`; `pool` is the address of the AF_XDP pool.
pub record XdpChannel : Type 0 where
  pub is_running : Bool
  pub is_xsk : Bool
  pub rx_ctrl : Ctrl
  pub tx_ctrl : Ctrl
  pub rx_thread : Thread
  pub tx_thread : Thread
  pub rx_napi_pp : Napi
  pub rx_napi_xsk : Napi
  pub tx_napi_xsk : Napi
  pub tx_queue : Bool
  pub pool : Option ℕ

abbrev pub napi_enable : Napi → Napi
napi_enable disabled = enabled
napi_enable enabled = misused
napi_enable misused = misused

abbrev pub napi_disable : Napi → Napi
napi_disable disabled = misused
napi_disable enabled = disabled
napi_disable misused = misused

-- `kthread_stop` behind the test against NULL
abbrev pub collect : Thread → Thread
collect no_thread = no_thread
collect alive = no_thread
collect error_pointer = crashed
collect crashed = crashed

abbrev pub same_mode : Mode → Mode → Bool
same_mode pp pp = true
same_mode pp xsk = false
same_mode xsk pp = false
same_mode xsk xsk = true

-- `nfb_xctrl_destroy_pp` and `nfb_xctrl_destroy_xsk` as the channel sees them
abbrev pub destroy : Mode → Ctrl → Ctrl
destroy mode null_ctrl = misfreed
destroy mode freed = misfreed
destroy mode misfreed = misfreed
destroy mode (live own running) = if same_mode mode own then freed else misfreed

abbrev pub allocates : Mode → (Resource → Bool) → Bool → QueueType → Bool
allocates pp grants found type = (nfb_xctrl_alloc_pp grants found type).0
allocates xsk grants found type = (nfb_xctrl_alloc_xsk grants found type).0

-- The status bit is set when the controller has started.
unfoldable pub nfb_xctrl_start : Status → Ctrl → Ctrl
nfb_xctrl_start ok (live mode running) = live mode true
nfb_xctrl_start ok other = other
nfb_xctrl_start (err e) ctrl = ctrl

unfoldable pub channel_create_threads : Kernel → XdpChannel → Status × XdpChannel
channel_create_threads kernel channel =
    let listening = record channel {
      rx_thread = alive;
      rx_napi_pp = if channel.is_xsk then channel.rx_napi_pp else napi_enable channel.rx_napi_pp;
      rx_napi_xsk = if channel.is_xsk then napi_enable channel.rx_napi_xsk else channel.rx_napi_xsk;
    } in
    let sending = record listening {
      tx_thread = alive;
      tx_napi_xsk = if channel.is_xsk then napi_enable channel.tx_napi_xsk else channel.tx_napi_xsk;
      tx_queue = true;
    } in
    elim kernel.rx_created [
      | err e ↦ (err e, record channel { rx_thread = error_pointer })
      | ok ↦ elim kernel.tx_created [
        | err e ↦ (err e, record listening { rx_thread = no_thread; tx_thread = error_pointer })
        | ok ↦ (ok, sending)
      ]
    ]

-- From the label `err_start_rx` on.
abbrev pub give_up : Mode → XdpChannel → XdpChannel
give_up mode channel = record channel {
  tx_ctrl = destroy mode channel.tx_ctrl;
  rx_ctrl = destroy mode channel.rx_ctrl;
}

-- The part of both start functions behind the two allocations.
unfoldable pub begin : Mode → Kernel → XdpChannel → Status × XdpChannel
unfolding nfb_xctrl_start
begin mode kernel channel =
    let rx_on = record channel { rx_ctrl = nfb_xctrl_start kernel.rx_started channel.rx_ctrl } in
    let tx_on = record rx_on { tx_ctrl = nfb_xctrl_start kernel.tx_started channel.tx_ctrl } in
    let (ret, threaded) = channel_create_threads kernel tx_on in
    elim kernel.rx_started [
      | err e ↦ (err e, give_up mode rx_on)
      | ok ↦ elim kernel.tx_started [
        | err e ↦ (err e, give_up mode tx_on)
        | ok ↦ elim ret [
          | err e ↦ (err e, give_up mode threaded)
          | ok ↦ (ok, record threaded { is_running = true })
        ]
      ]
    ]

unfoldable pub start_in : Mode → Bool → Bool → Kernel → XdpChannel → Status × XdpChannel
start_in mode rx_allocated tx_allocated kernel channel =
    let rx_made = record channel { rx_ctrl = live mode false } in
    let tx_made = record rx_made { tx_ctrl = live mode false } in
    if channel.is_running
    then (err ebusy, channel)
    else (if rx_allocated
        then (if tx_allocated then begin mode kernel tx_made else (
          err enomem,
          record rx_made { tx_ctrl = null_ctrl; rx_ctrl = destroy mode rx_made.rx_ctrl },
        ))
        else (err enomem, record channel { rx_ctrl = null_ctrl }))

-- The two functions are the same text but for the controller's mode.
abbrev pub channel_start : Mode → Kernel → XdpChannel → Status × XdpChannel
channel_start mode kernel channel =
    start_in mode (allocates mode kernel.rx_grants kernel.found rx)
      (allocates mode kernel.tx_grants kernel.found tx) kernel channel

unfoldable pub channel_start_pp : Kernel → XdpChannel → Status × XdpChannel
channel_start_pp kernel channel = channel_start pp kernel channel

unfoldable pub channel_start_xsk : Kernel → XdpChannel → Status × XdpChannel
channel_start_xsk kernel channel = channel_start xsk kernel channel

unfoldable pub channel_stop : XdpChannel → Status × XdpChannel
channel_stop channel =
    let mode = if channel.is_xsk then xsk else pp in
    let stopped = record channel {
      is_running = false;
      rx_ctrl = destroy mode channel.rx_ctrl;
      tx_ctrl = destroy mode channel.tx_ctrl;
      rx_thread = collect channel.rx_thread;
      tx_thread = collect channel.tx_thread;
      rx_napi_pp = if channel.is_xsk then channel.rx_napi_pp else napi_disable channel.rx_napi_pp;
      rx_napi_xsk =
          if channel.is_xsk then napi_disable channel.rx_napi_xsk else channel.rx_napi_xsk;
      tx_napi_xsk =
          if channel.is_xsk then napi_disable channel.tx_napi_xsk else channel.tx_napi_xsk;
      tx_queue = false;
    } in
    if channel.is_running then (ok, stopped) else (err einval, channel)

-- The first status is what `xsk_pool_dma_map` returns.
unfoldable pub nfb_setup_xsk_pool : Status → Kernel → ℕ → XdpChannel → Status × XdpChannel
nfb_setup_xsk_pool (err e) kernel pool' channel = (err e, channel)
nfb_setup_xsk_pool ok kernel pool' channel =
    channel_start_xsk kernel (record (channel_stop channel).1 { is_xsk = true; pool = some pool' })

-- `xchg(&channel->pool, NULL)` empties the field whatever the test behind it says.
unfoldable pub nfb_teardown_xsk_pool : Kernel → XdpChannel → Status × XdpChannel
nfb_teardown_xsk_pool kernel channel =
    let (ret, started) =
      channel_start_pp kernel (record (channel_stop channel).1 { is_xsk = false }) in
    (ret, record started { pool = none })

-- `XDP_SETUP_XSK_POOL` of `nfb_xdp`: a pool, or none.
unfoldable pub switch_pool : Status → Kernel → Option ℕ → XdpChannel → Status × XdpChannel
switch_pool mapped kernel (some pool') channel = nfb_setup_xsk_pool mapped kernel pool' channel
switch_pool mapped kernel none channel = nfb_teardown_xsk_pool kernel channel
