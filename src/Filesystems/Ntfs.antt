-- ===== src/Filesystems/Ntfs.antt =====
-- kernel/src/filesystems/fstypes/ntfs: the parts of the NTFS driver that are modelled.
pub mod Runs
