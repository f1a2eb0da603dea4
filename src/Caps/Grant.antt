-- ===== src/Caps/Grant.antt =====
-- Granting a capability to a task: `grant_to_current` (kernel/src/caps/mod.rs) and `grant_cap_to_pid`
-- (kernel/src/task/mod.rs). What the page allocator answers is a parameter; the supervisor window is
-- kept as the list that was last serialised into it.
pub mod Effect
pub mod Invariant
use bedrock_stack.Base.{
  ℕ, Bool, true, false, ◌&&◌, Option, none, some, List, [], ◌∷◌, ◌++◌, Str, str_eq, opt_eq, length,
  if◌then◌else◌, ◌==◌, leb, Result, ok, err, ok_or, ◌>>=◌, ◌>>◌,
}
use bedrock_stack.Unispace.{UnispaceError, not_found, out_of_memory}
use bedrock_stack.Caps.{Perm, Cap, covers, max_caps_per_task}
use bedrock_stack.Caps.Validate.{validate_cap}

-- The fields `caps_arc` and `caps_phys` of a task, and what its window shows.
pub record Holder : Type 0 where
  pub caps : Option (List Cap)
  pub phys : ℕ
  pub window : List Cap

-- What the loop over the capabilities finds: no entry for the object or method, one that covers, or
-- one that does not and is raised.
pub data Visit : Type 0 where
  absent kept : Visit
  raised : List Cap → Visit

abbrev pub behind : Cap → Visit → Visit
behind c absent = absent
behind c kept = kept
behind c (raised caps) = raised (c ∷ caps)

visit : List Cap → Str → Option Str → Perm → Visit
visit [] path method perm = absent
visit (c ∷ caps) path method perm =
    let rest = visit caps path method perm in
    if str_eq c.path path && opt_eq c.method method
    then if covers c.perm perm then kept else raised (record c { perm = perm } ∷ caps)
    else behind c rest

-- `if t.caps_phys != 0 { serialize_to_page(caps, t.caps_phys); }`
abbrev store : Holder → List Cap → Holder
store t caps = record t { caps = some caps; window = if t.phys == 0 then t.window else caps }

-- `install_caps`: a fresh window with the list in it.
abbrev install : Option ℕ → List Cap → Result UnispaceError Holder
install none caps = err out_of_memory
install (some phys) caps = ok (record { caps = some caps; phys = phys; window = caps })

-- What follows the loop in `grant_to_current`.
finish : Holder → List Cap → Cap → Visit → Result UnispaceError Holder
finish t caps c kept = ok t
finish t caps c (raised caps') = ok (store t caps')
finish t caps c absent = validate_cap c >> ok (store t (caps ++ (c ∷ [])))

grant_held : Holder → Option ℕ → Option (List Cap) → Cap → Result UnispaceError Holder
unfolding visit finish
grant_held t frame none c = validate_cap c >> install frame (c ∷ [])
grant_held t frame (some caps) c =
    if leb max_caps_per_task (length caps)
    then err out_of_memory
    else finish t caps c (visit caps c.path c.method c.perm)

-- An error leaves the task as it was.
unfoldable pub grant_to_current : Option ℕ → Holder → Cap → Result UnispaceError Holder
unfolding grant_held
grant_to_current frame t c = grant_held t frame t.caps c

-- What follows the loop in `do_grant`.
finish_valid : Holder → List Cap → Cap → Visit → Holder
finish_valid t caps c kept = t
finish_valid t caps c (raised caps') = store t caps'
finish_valid t caps c absent = store t (caps ++ (c ∷ []))

do_grant_to : Holder → List Cap → Cap → Result UnispaceError Holder
unfolding visit finish_valid
do_grant_to t caps c =
    if leb max_caps_per_task (length caps)
    then err out_of_memory
    else ok (finish_valid t caps c (visit caps c.path c.method c.perm))

-- A task without a list gets an empty one first.
pub do_grant : Holder → Option ℕ → Option (List Cap) → Cap → Result UnispaceError Holder
unfolding do_grant_to
do_grant t frame none c = install frame [] >>= λ t'. do_grant_to t' [] c
do_grant t frame (some caps) c = do_grant_to t caps c

-- What `with_task_mut` finds of a pid, with one pid's task changed.
abbrev pub change : ℕ → Holder → (ℕ → Option Holder) → ℕ → Option Holder
change pid t tasks p = if p == pid then some t else tasks p

-- An error leaves all tasks as they were.
unfoldable pub grant_cap :
    Option ℕ → (ℕ → Option Holder) → ℕ → Cap → Result UnispaceError (ℕ → Option Holder)
unfolding do_grant
grant_cap frame tasks pid c = validate_cap c >> elim (tasks pid) [
  | none ↦ err not_found
  | some t ↦ do_grant t frame t.caps c >>= λ t'. ok (change pid t' tasks)
]
