-- ===== src/Lib.antt =====
-- A model of kobox's compatibility layer, with the theorems that its parts are correct. kobox loads
-- Linux kernel modules into a process and answers the kernel symbols that they call.
--
-- Paths are from the repository's root.
--   Prelude     shared notation: tests on numbers, lists, C integers, kb_status_t.
--   Keyed       the linked lists with a key field that several subsystems keep.
--   Block       src/linux_subsystem/block/block.c: queues (Queue), disks (Disk), disk I/O (Io),
--               tag sets (Tagset), the end of objects and snapshots (Objects).
--               `kb_block_subsystem_X` is the function `X`.
--   Dma         src/linux_subsystem/dma/dma.c: State, the shared mapping window (Window) and the
--               mapping calls (Map). `kb_subsystem_dma_X` is `dma_X` or `X`.
--   Elf         src/loader/elf_reader.c: opening a file (Bytes, File), symbols and relocations (Entries)
--               and the .modinfo entries (Modinfo). `kb_elf_X` is `elf_X`.
--   Symbols     src/loader/symbol_registry.c: the symbols that modules export to each other.
--               `kb_loader_symbol_registry_X` is `X`.
--   Loader      src/loader/module_loader.c, built for x86-64 Linux: the table of the kernel symbols
--               (Shims), the layout of a module's sections (Layout), their copy into the image (Copy)
--               and their final protections (Protect), the addresses of symbols (Resolve), the
--               relocations (Relocate), the calls of kernel thunks that they patch in place (Patch), and
--               the list of loaded modules (Modules). Layout and Copy are the first and the last
--               loop of `load_sections`.
--   Fs          src/linux_subsystem/fs/fs.c: the xarrays (Xarray) and the write-back error sequences
--               (Errseq). `kb_fs_subsystem_X` is `X`.
--   Usb         src/linux_subsystem/usb/usb.c: the records of host controllers (Hcd), URBs (Urb), and
--               devices, interfaces, endpoints and drivers (Records), and what goes with a removed
--               one (Release). `kb_usb_subsystem_X` is `X`. Storage is src/linux_subsystem/usb/storage.c:
--               the table of devices (Table), their extents (Backing), their disks (Disk), the
--               reports that make them (Events), the SCSI commands (Scsi, Command) and the bulk-only
--               transport (Bot). `kb_usb_storage_subsystem_X` is `X`.
--
-- The parts meet at the addresses: the loader gets its relocations from the ELF reader and other
-- modules' symbols from the registry; the block and DMA parts are called by the loaded drivers. Here
-- each part is proved by itself, but for three places: Loader reads sections, symbols and
-- relocations by Elf, destroying a module also removes its names from Symbols, and a SCSI command of
-- Usb.Storage reads and writes its disk through Block.Io, whose driver is the backing store.
--
-- Pointers and device addresses are numbers, and NULL is 0. An out-parameter is a result; that the
-- caller passed one is taken as given unless an argument says so (`has_out`, `got_node`). Whether an
-- allocation succeeds is an argument of the operation that allocates. Block drivers (`Driver`) and
-- device backends (`Ops`, `Backends`) are functions that the model takes: a driver works on a state
-- of its own, and a backend answers by the history of its calls.
--
-- Fuel: the loops over .modinfo take one round for each byte of the section and one more, which is
-- enough since each round takes at least one byte; out of fuel is the result `fault`, as is a read
-- outside the file. The tag search takes its rounds from the code. A transfer of the
-- backing store has as much fuel as bytes, and each round takes at least one. The probes of the
-- symbol table and the loops over sections and symbols are counted in the code. All other loops run
-- over lists.
--
-- Bounds: the layout of a module adds up sizes from its file in 64 bits without a check. The theorems
-- on loading take sizes and alignments of at most 2^40 and at most 2^16 sections, the most that the
-- file format counts, so that no sum wraps; a test of Loader.Layout shows the wrap beyond.
--
-- Other threads: the xarray calls hold a lock and are atomic steps. Of errseq_set the values that
-- others write between its accesses are an argument. The other parts are modelled as called by
-- one thread at a time.
--
-- Not modelled: the rest of the loader (stubs, contexts, the data it writes for the kernel's
-- variables, the registration of exports, bitmap and string functions), the Linux personality,
-- the rest of the USB and file system parts, the ATA, network, input and KVM parts, and the host
-- interface. The traces, printed summaries and profiling counters of the modelled files are left
-- out. Of apply_one_relocation the address of the symbol is taken as given: the stubs and overrides
-- that it may come from are not modelled.
pub mod Prelude
pub mod Keyed
pub mod Block
pub mod Dma
pub mod Elf
pub mod Fs
pub mod Loader
pub mod Symbols
pub mod Usb
