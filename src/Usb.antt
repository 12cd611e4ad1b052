-- ===== src/Usb.antt =====
-- src/linux_subsystem/usb: what the USB core's modules call. A record in a list is active: the flag
-- is set when a record is linked and cleared after it is unlinked, so it is no field here.
pub mod State
pub mod Hcd
pub mod Urb
pub mod Records
pub mod Release
pub mod Storage
