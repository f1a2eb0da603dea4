-- ===== src/Caps.antt =====
-- kernel/src/caps/mod.rs: the capabilities of a task. The lookups on path texts and on parsed
-- components, the checks of a request, what a spawn and a grant let through, and what a listing
-- shows. The caller is a parameter: the pid of the current task and the lineage map.
pub mod Lookup
pub mod Alias
pub mod Check
pub mod Validate
pub mod Grant
pub mod Listing
mod Tests
use bedrock_stack.Base.{ℕ, zero, suc, Bool, true, false, Option, none, some, List, Str}
use bedrock_stack.Task.Lineage.{Lineage}

pub data Perm : Type 0 where
  read read_write : Perm

abbrev pub from_u8 : ℕ → Option Perm
from_u8 (suc zero) = some read
from_u8 (suc (suc (suc zero))) = some read_write
from_u8 _ = none

-- Does the first cover the second?
abbrev pub covers : Perm → Perm → Bool
covers read_write want = true
covers read read = true
covers read read_write = false

abbrev pub as_u8 : Perm → ℕ
as_u8 read = 1
as_u8 read_write = 3

-- The path is `""` for the root, else `a/b/c`; no method stands for the object itself.
pub record Cap : Type 0 where
  pub path : Str
  pub method : Option Str
  pub perm : Perm

abbrev pub max_cap_path_len : ℕ
max_cap_path_len = 256

abbrev pub max_cap_method_len : ℕ
max_cap_method_len = 64

abbrev pub max_caps_per_task : ℕ
max_caps_per_task = 8192

-- Who asks: `current_pid()`, `none` where no task runs, and the lineage map.
pub record Caller : Type 0 where
  pub pid : Option ℕ
  pub lineage : Lineage
