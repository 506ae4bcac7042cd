-- ===== src/Lib.antt =====
-- Verification of the NDK platform's XDP driver and of the parts of the nfb driver that it stands
-- beside: a shallow embedding of C functions, with the theorems about them.
--
-- The nfb driver (drivers/kernel/drivers/nfb) drives the NDK cards. Its components can be locked by
-- applications, feature by feature (lock.c); the kernel's own code locks them through bus.c. User
-- space reaches a DMA queue through a subscription of an NDP channel (ndp/subscription.c over
-- ndp/channel.c), several subscriptions sharing one channel; behind the channel stand a ring of memory
-- (ndp/ring.c) and a controller of the type Medusa or Calypte (ndp/ctrl_ndp.c). The XDP driver (xdp/) makes network
-- devices of the same queues: a channel (xdp/channel.c) has a receive and a transmit queue, each with a
-- controller (xdp/ctrl_xdp_pp.c for page pools, xdp/ctrl_xdp_xsk.c for AF_XDP sockets), and is
-- switched between the two modes while it runs (xdp/ctrl_xdp_common.c). Packets leave through a ring of
-- descriptors (xdp/ctrl_xdp_common.h over libnfb/include/netcope/dma_ctrl_ndp.h).
--
-- The files, in the order in which they build on each other:
--   Common            the library names in use, Boolean tests, error numbers, lists; Common/Bits and
--                     Common/Rings: bits of words, masked pointers into rings of 2 ^ k slots;
--                     Common/Ledger what is live after acquiring and giving back
--   Lock              lock.c; Lock/Exclusion the invariant of the item list, Lock/Table and Lock/Unlock
--                     the calls against the table of who holds which bit, Lock/History any sequence
--   Bus               bus.c, the lookup of components and the lock with a timeout; Bus/Waiting its loop
--   Channel           ndp/channel.c, subscribing, starting and stopping; Channel/Exchange the two
--                     synchronisations, Channel/Exchange/Receive and Send what they guarantee
--   Subscription      ndp/subscription.c; Subscription/Invariant and Steps the invariant of a channel with
--                     its subscriptions, Writers and Handover that one of them may write
--   Xdp/Alloc         allocation and destruction of the queue controllers; Xdp/Alloc/Balance the ledger
--   Xdp/Channel       xdp/channel.c and the switch of xdp/ctrl_xdp_common.c; States and Switch
--   Xdp/Tx            the transmit ring; Callers the functions that send, Decode what the hardware
--                     reads, Pending and Submit the ring as a queue, Reclaim the slots given back,
--                     Stale a run that loses a packet, Poll, Poll/Owed and Poll/Whole the
--                     AF_XDP socket
--   Ndp               libnfb/include/netcope/dma_ctrl_ndp.h: opening, starting and stopping a DMA controller;
--                     Ndp/Handing its lock, Ndp/Start and Ndp/Stop what is left by a start and a stop;
--                     Ndp/Restart the start of a controller found running (ndp/ctrl_ndp.c)
--   Xdp/Rx            filling a receive queue and taking packets from it, in both modes; Headers the ring of
--                     headers, Posted the descriptors against it, Fill, Refill and Receive the loops,
--                     Verdict the handling of a packet by the program's verdict, Verdict/Placed what
--                     sending it back leaves of it, Verdict/Ledger its account, Batch the allocation for old kernels, Poll the polls of both modes with
--                     Poll/Kept, Poll/Account and Poll/Xsk what they leave
--   Xdp/Begin         the start of a queue, over Ndp; Xdp/Ethdev opening and stopping a network device
--                     over Xdp/Channel
--   Controller        ndp/ctrl_ndp.c, the controllers behind the NDP channels. Layout is the place of the
--                     buffers of a Medusa ring: Layout/Virtual the walk that measures it, Folded, Apart
--                     and Measured the ring as it is laid out, Sizes the loops that choose its size.
--                     Attach is the memory of both types, Attach/Balance its account. Receive the empty
--                     buffers of a receive queue, Receive/Fill and Refill the queue of them, Begin and
--                     Begin/Begun what it starts with. Send the packets of a transmit queue,
--                     Send/Consumed what the card has sent of them, Send/One and Sent that they follow
--                     each other. Calypte the bytes of a Calypte transmit queue, Calypte/Bytes their account.
--                     User the buffers that a user gives, User/Bursts what the card is told of them
--   Ring              ndp/ring.c, the memory of a ring: Ring/Blocks the account of its blocks, Ring/Created
--                     and Whole what creation, destruction and resizing leave, Ring/Shadow its mapping
--   Boot              libnfb/src/boot: formats of firmware files; Boot/Table and Boot/Reverse the bits turned
--                     round, Boot/Scan the Xilinx bitstream, Boot/Blocks and Image the Intel image
-- Each component has a module Tests with concrete runs.
--
-- A definition has the name of the C function or type that it translates. Structures are records with
-- the fields that the code reads or writes, addresses are numbers, a list_head is a list, and a
-- function that changes a structure returns it. A function that returns 0 or -errno returns a Status.
-- A mutex or spinlock makes the code under it one step; what the code reads before it takes a lock is
-- an argument of its own (Xdp/Tx/Callers). What other code decides is a parameter: the operations
-- behind an NDP channel (ChannelOps), whether memory and threads can be had (Kernel, the functions
-- from resources to Booleans), what the hardware's pointer reads, where a buffer is mapped.
--
-- Numbers are natural numbers with the wrap-around of the C type written out: 64-bit pointers in
-- Channel, 32-bit pointers and counters in Xdp/Tx. Some loops run on fuel. The retries of
-- nfb_comp_trylock get timeout * 20 rounds, which is what the loop's own counter allows. The loop of
-- nfb_xctrl_tx_free_buffers gets one round more than the ring has slots, and the pointer that it looks
-- for lies in the ring. The refill of a receive queue gets one call for each slot of its header ring,
-- which is proved to be enough. The loop of nfb_fw_open_rbf gets one round for each byte.
-- The walk of ndp_ctrl_medusa_req_block_update gets more rounds than there are buffers, the loop that
-- writes the offsets one for each buffer, the doubling in ndp_ctrl_set_ring_size 64, and the loop of
-- ndp_ring_mmap one round more than it maps blocks, with at most two subtractions in each. The refill
-- of a Medusa receive queue gets one round more than there are complete bursts of free descriptors.
--
-- Not modelled: the registration of the XDP driver as a network device; the pointers of a Calypte
-- receive queue, the loop of a controller's stop and the mode in which a user's buffers are sent
-- (ndp/ctrl_ndp.c); the character devices; firmware loading but for its file formats; hardware
-- monitoring, the other network devices; the user-space library and tools. These are register
-- sequences, calls of the kernel, or printing. The stop of a running controller inside the XDP
-- destructors, and the choice of a queue by processor number, are left out too.
pub mod Common
pub mod Lock
pub mod Bus
pub mod Ndp
pub mod Channel
pub mod Subscription
pub mod Xdp
pub mod Controller
pub mod Ring
pub mod Boot
