-- ===== src/Nbd.antt =====
-- targets/nbd/ublk.nbd.cpp: the target that forwards ios to an NBD server.
pub mod Wire
pub mod Send
pub mod Chain
pub mod Recv
