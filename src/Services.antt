-- ===== src/Services.antt =====
-- kernel/src/services: the parts of the kernel's services that are modelled.
pub mod TimerQueue
