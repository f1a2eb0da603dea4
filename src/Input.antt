-- ===== src/Input.antt =====
-- kernel/src/input: the parts of the input system that are modelled.
pub mod Queue
