-- ===== src/Fsbl.antt =====
-- The Zynq-7000 first stage boot loader, zynq-7000-tips-tricks/fsbl/image_mover.c.
pub mod Layout
pub mod Header
pub mod System
pub mod Image
pub mod Move
pub mod Partition
pub mod Load
mod Tests
