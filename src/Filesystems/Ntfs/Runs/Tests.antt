-- ===== src/Filesystems/Ntfs/Runs/Tests.antt =====
-- A run of the decoder of kernel/src/filesystems/fstypes/ntfs/runs.rs, and its theorem at it.
use bedrock_stack.Base.{ℕ, ◌+◌, ◌/◌, ◌≤◌, ◌<◌, ◌≡◌, refl, some, List, [], ◌∷◌, arith, ok}
use bedrock_stack.Filesystems.Ntfs.Runs.{Run, pos, negsuc, decode_mapping_pairs, find}
use bedrock_stack.Filesystems.Ntfs.Runs.Find.{IsChain, find-decode_mapping_pairs}

-- 24 clusters at 22068, a hole of 16, and 8 clusters 100 before the first ones.
abbrev bytes : List ℕ
bytes = 33 ∷ 24 ∷ 52 ∷ 86 ∷ 1 ∷ 16 ∷ 17 ∷ 8 ∷ 156 ∷ 0 ∷ []

abbrev runs : List Run
runs =
    record { vcn = 0; lcn = pos 22068; len = 24 }
    ∷ record { vcn = 24; lcn = negsuc 0; len = 16 }
    ∷ record { vcn = 40; lcn = pos 21968; len = 8 }
    ∷ []

bytes_decoded : decode_mapping_pairs bytes 0 ≡ some (ok runs)
unfolding decode_mapping_pairs
bytes_decoded = refl

find-decode_mapping_pairs_example :
    IsChain 0 runs
    × ((r : Run) × (find runs 123000 4096 ≡ some r)
        × (r.vcn ≤ 123000 / 4096)
        × (123000 / 4096 < r.vcn + r.len))
find-decode_mapping_pairs_example =
    find-decode_mapping_pairs bytes 0 runs 123000 4096 bytes_decoded (omega arith) (omega arith)
      (omega arith)
