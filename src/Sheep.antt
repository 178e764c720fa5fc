-- ===== src/Sheep.antt =====
-- targets/sheepdog/sheep.c and targets/sheepdog/ublk.sheepdog.cpp: the target that stores the
-- blocks of a device in the objects of a sheepdog cluster.
pub mod Types
pub mod Inodes
pub mod Io
pub mod Objects
pub mod Served
pub mod Answered
pub mod Written
