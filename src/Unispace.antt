-- ===== src/Unispace.antt =====
-- kernel/src/unispace: the errors of the namespace, and its paths (kernel/src/filesystems/vfs/error.rs
-- for the wrapped file system errors).
pub mod Path

pub data VfsError : Type 0 where
  not_found already_exists not_a_directory is_a_directory io_error no_space : VfsError
  cross_device_link invalid_input name_too_long not_empty bad_file_descriptor : VfsError
  mount_busy invalid_device file_too_large read_only not_supported loop : VfsError

pub data UnispaceError : Type 0 where
  invalid_path not_found not_a_directory is_a_directory method_not_found : UnispaceError
  decode_error schema_mismatch unsupported out_of_memory bad_address : UnispaceError
  invalid_argument access_denied : UnispaceError
  vfs : VfsError → UnispaceError
