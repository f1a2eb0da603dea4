-- ===== src/Mm.antt =====
-- kernel/src/mm: the parts of memory management that are modelled.
pub mod Frames
pub mod Heap
pub mod FrameCounts
