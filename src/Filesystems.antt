-- ===== src/Filesystems.antt =====
-- kernel/src/filesystems: the parts of the file systems that are modelled.
pub mod Partition
pub mod Ntfs
pub mod Fat32
