-- ===== src/Dma.antt =====
-- src/linux_subsystem/dma/dma.c: the record of live DMA mappings, the shared mapping window from
-- which requests borrow pages, and the calls of the device backend. Storage profiling, which the
-- build leaves off by default, is not modelled.
pub mod State
pub mod Window
pub mod Map
