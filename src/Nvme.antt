-- ===== src/Nvme.antt =====
-- targets/nvme/ublk.nvme_vfio.cpp, targets/nvme/nvme.h and targets/dma_buf.c: the target that
-- drives an NVMe controller over VFIO.
pub mod Types
pub mod Ring
pub mod State
pub mod Pool
pub mod Dma
pub mod Setup
pub mod Admin
pub mod Init
pub mod Control
pub mod Identify
pub mod Prp
pub mod Sgl
pub mod Io
pub mod Poll
