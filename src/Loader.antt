-- ===== src/Loader.antt =====
-- src/loader/module_loader.c: loading a module into memory.
pub mod Patch
pub mod Relocate
pub mod Shims
pub mod Layout
pub mod Copy
pub mod Protect
pub mod Resolve
pub mod Modules
