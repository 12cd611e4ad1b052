-- ===== src/Usb/Storage.antt =====
-- src/linux_subsystem/usb/storage.c: the emulated mass storage device of a USB interface.
pub mod State
pub mod Table
pub mod Backing
pub mod Scsi
pub mod Command
pub mod Bot
pub mod Disk
pub mod Events
mod Tests
