-- ===== src/Fs.antt =====
-- src/linux_subsystem/fs/fs.c: what the file system modules call.
pub mod Xarray
pub mod Errseq
