-- ===== src/Mm/FrameCounts/Tests.antt =====
-- kernel/src/mm/framecnt.rs: the reference counts on examples.
use bedrock_stack.Base.{◌≡◌, refl, Option, none, some, List, [], ◌∷◌, ◌==◌, arith, if◌then◌else◌}
use bedrock_stack.Mm.FrameCounts.{Table, Event, share, decref, unshare_first, untrack, run}
use bedrock_stack.Mm.FrameCounts.Ledger.{ledger_run, run_ledger}

-- A frame is shared twice, one share is taken back, the second owner releases it, and then the first;
-- another frame, that was never shared, is released in between.
abbrev two_forks : List Event
two_forks =
    share 4096
    ∷ share 4096
    ∷ unshare_first 4096
    ∷ decref 8192
    ∷ decref 4096
    ∷ untrack 4096
    ∷ decref 4096
    ∷ []

two_forks_freed : (run 16 two_forks none).1 ≡ 8192 ∷ 4096 ∷ []
unfolding run
two_forks_freed = refl

run_ledger_example : (run 16 two_forks none).1 ≡ ledger_run two_forks (λ i. 1)
run_ledger_example =
    run_ledger 16 two_forks
      (
        omega arith,
        (
          omega arith,
          (omega arith, (omega arith, (omega arith, (omega arith, (omega arith, tt))))),
        ),
      )
      (omega arith)

abbrev shared_once : Option Table
shared_once = some (record { total = 16; at = λ i. if i == 1 then 2 else 0 })
