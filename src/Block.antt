-- ===== src/Block.antt =====
-- src/linux_subsystem/block/block.c: the block layer's request queues, disks and tag sets.
pub mod State
pub mod Queue
pub mod Disk
pub mod Io
pub mod Objects
pub mod Tagset
