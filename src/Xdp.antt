-- ===== src/Xdp.antt =====
-- drivers/kernel/drivers/nfb/xdp: the XDP driver (queue controllers, channels, transmission, reception).
pub mod Alloc
pub mod Channel
pub mod Tx
pub mod Rx
pub mod Begin
pub mod Ethdev
mod Tests
