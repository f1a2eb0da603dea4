-- ===== src/Filesystems/Ntfs/Runs.antt =====
-- kernel/src/filesystems/fstypes/ntfs/runs.rs: the run list of an attribute, decoded from its mapping
-- pairs and searched by offset. A Rust `i64` is an integer with its range tested where the source does.
pub mod Find
mod Tests
use bedrock_stack.Base.{
  ℕ, zero, suc, ◌+◌, ◌-◌, ◌*◌, ◌/◌, ◌%◌, ◌^◌, min, Bool, true, false, not, ◌&&◌, ◌||◌, Option, none,
  some, List, [], ◌∷◌, if◌then◌else◌, ltb, leb, ◌==◌, length, take, drop, get_elem?, Result, ok,
  err, guard, ok_or, ◌>>=◌, ◌>>◌,
}
use bedrock_stack.Unispace.{VfsError, io_error}

-- `negsuc n` is -(n + 1).
pub data ℤ : Type 0 where
  pos : ℕ → ℤ
  negsuc : ℕ → ℤ

-- The difference of two natural numbers.
abbrev pub sub_ℕ : ℕ → ℕ → ℤ
sub_ℕ a b = if leb b a then pos (a - b) else negsuc (b - a - 1)

infixl 60 ◌+ℤ◌
unfoldable pub ◌+ℤ◌ : ℤ → ℤ → ℤ
pos a +ℤ pos b = pos (a + b)
pos a +ℤ negsuc b = sub_ℕ a (b + 1)
negsuc a +ℤ pos b = sub_ℕ b (a + 1)
negsuc a +ℤ negsuc b = negsuc (a + b + 1)

abbrev pub in_i64 : ℤ → Bool
in_i64 (pos a) = ltb a (2 ^ 63)
in_i64 (negsuc a) = ltb a (2 ^ 63)

-- `i64::checked_add`, and `u64::checked_add`.
unfoldable pub checked_add_i64 : ℤ → ℤ → Option ℤ
unfolding ◌+ℤ◌
checked_add_i64 a b = if in_i64 (a +ℤ b) then some (a +ℤ b) else none

abbrev pub checked_add : ℕ → ℕ → Option ℕ
checked_add a b = if ltb (a + b) (2 ^ 64) then some (a + b) else none

pub record Run : Type 0 where
  pub vcn : ℕ
  pub lcn : ℤ
  pub len : ℕ

abbrev pub max_runs : ℕ
max_runs = 1000000

-- The bytes, the lowest first.
abbrev pub le_value : List ℕ → ℕ
le_value [] = 0
le_value (b ∷ bs) = b + 256 * le_value bs

-- `((raw << shift) as i64) >> shift`: the value of `bits` bits in two's complement.
unfoldable pub sign_extend : ℕ → ℕ → ℤ
sign_extend bits raw = if ltb raw (2 ^ (bits - 1)) then pos raw else negsuc (2 ^ bits - 1 - raw)

-- The state of the loop: the bytes from `pos` on, and the cluster numbers.
pub record Cursor : Type 0 where
  pub rest : List ℕ
  pub next_vcn : ℕ
  pub last_lcn : ℤ

-- What a pair adds: -1 for a hole, which leaves the last cluster number as it was.
unfoldable pub next_lcn : ℕ → List ℕ → ℤ → Result VfsError (ℤ × ℤ)
unfolding checked_add_i64 sign_extend
next_lcn off_len bytes lcn =
    if off_len == 0
    then ok (negsuc 0, lcn)
    else ok_or (checked_add_i64 lcn (sign_extend (8 * off_len) (le_value bytes))) io_error >>= λ l.
        ok (l, l)

-- One pair behind its header.
unfoldable pub decode_pair : ℕ → ℕ → List ℕ → Cursor → Result VfsError (Run × Cursor)
unfolding next_lcn
decode_pair base hdr bytes c =
    let len_len = hdr % 16 in
    let off_len = hdr / 16 in
    let run_len = le_value (take len_len bytes) in
    guard (not ((len_len == 0) || ltb 8 len_len || ltb 8 off_len)) io_error
    >> (guard (leb (len_len + off_len) (length bytes)) io_error
        >> (guard (not ((run_len == 0) || leb (2 ^ 63) run_len)) io_error
            >> (next_lcn off_len (take off_len (drop len_len bytes)) c.last_lcn >>= λ lcns.
                ok_or (checked_add base c.next_vcn) io_error >>= λ abs.
                guard (ltb (c.next_vcn + run_len) (2 ^ 63)) io_error
                >> ok (
                  record { vcn = abs; lcn = lcns.0; len = run_len },
                  record {
                    rest = drop (len_len + off_len) bytes;
                    next_vcn = c.next_vcn + run_len;
                    last_lcn = lcns.1;
                  },
                ))))

abbrev pub cons_run :
    Run → Option (Result VfsError (List Run)) → Option (Result VfsError (List Run))
cons_run r none = none
cons_run r (some (err e)) = some (err e)
cons_run r (some (ok rs)) = some (ok (r ∷ rs))

-- The loop, on fuel, with the number of runs so far; `none` where the fuel ran out.
unfoldable pub decode_loop : ℕ → ℕ → ℕ → Cursor → Option (Result VfsError (List Run))
unfolding decode_pair
decode_loop base zero k c = none
decode_loop base (suc n) k c = elim (leb max_runs k) [
  | true ↦ some (err io_error)
  | false ↦ elim c.rest [
    | [] ↦ some (err io_error)
    | hdr ∷ bytes ↦ elim (hdr == 0) [
      | true ↦ some (ok [])
      | false ↦ elim (decode_pair base hdr bytes c) [
        | err e ↦ some (err e)
        | ok next ↦ cons_run next.0 (decode_loop base n (k + 1) next.1)
      ]
    ]
  ]
]

-- Every round reads a byte at least.
unfoldable pub decode_mapping_pairs : List ℕ → ℕ → Option (Result VfsError (List Run))
unfolding decode_loop
decode_mapping_pairs bytes base_vcn =
    decode_loop base_vcn (length bytes + 1) 0
      (record { rest = bytes; next_vcn = 0; last_lcn = pos 0 })

-- `runs.partition_point(|r| r.vcn <= vcn)`: the runs before the first that starts behind.
unfoldable pub partition_point : ℕ → List Run → ℕ
partition_point vcn [] = 0
partition_point vcn (r ∷ rs) =
    let rest = partition_point vcn rs in if leb r.vcn vcn then suc rest else 0

-- The run, if the cluster lies before its end.
abbrev pub if_inside : ℕ → Option Run → Option Run
if_inside vcn none = none
if_inside vcn (some r) = if ltb vcn (min (r.vcn + r.len) (2 ^ 64 - 1)) then some r else none

unfoldable pub find : List Run → ℕ → ℕ → Option Run
unfolding partition_point
find runs offset cluster_size =
    let vcn = offset / cluster_size in
    let idx = partition_point vcn runs in
    if idx == 0 then none else if_inside vcn (get_elem? runs (idx - 1))
