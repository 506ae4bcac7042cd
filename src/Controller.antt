-- ===== src/Controller.antt =====
-- drivers/kernel/drivers/nfb/ndp/ctrl_ndp.c: the DMA controllers behind the NDP channels, of the types Medusa and
-- Calypte. Each part of the file is a module below this one.
pub mod Layout
pub mod Attach
pub mod User
pub mod Receive
pub mod Begin
pub mod Send
pub mod Calypte
mod Tests
