-- ===== src/Ublksrv.antt =====
-- lib/ublksrv.c, lib/ublksrv_batch.c and lib/ublksrv_aio.c: the queue of the library, between driver
-- and target, and its aio contexts.
pub mod Types
pub mod Ring
pub mod Command
pub mod Batch
pub mod Calls
pub mod Events
pub mod Process
pub mod Init
pub mod Owner
pub mod Aio
pub mod Ctrl
