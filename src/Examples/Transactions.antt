-- ===== src/Examples/Transactions.antt =====
-- The theorems on a transaction of two participants, once committed and once aborted.
use z_engine.Common.{◌≡◌, refl, ◌≢◌, ◌⊎◌, inr, true, false, List, [], ◌∷◌, ◌++◌, arith}
use z_engine.Consistency.Transaction.{
  roll_back_next, aborted, vote_commit, mem, Functions, prepare_returned, begin, Answer, Action,
  prepare_next, commit_next, call_abort, roll_back, act, run, committed,
}
use z_engine.Consistency.Transaction.Sound.{is_commit}
use z_engine.Consistency.Transaction.Atomic.{
  commit_excludes_rollback, committed_by_all, aborted_by_all,
}
use z_engine.Consistency.Transaction.Refinement.{Move, view, run_refines}

abbrev functions : Functions
functions = record { has_vote = false; has_prepare = true; has_commit = true; has_rollback = true }

abbrev fine : Answer
fine = record { is_done = false; is_nil = true; vote = vote_commit }

-- `Prepare` of the participants 1 and 2, each checked, called and recorded.
abbrev preparing : List Action
preparing =
    prepare_next fine
    ∷ prepare_next fine
    ∷ prepare_next fine
    ∷ prepare_next fine
    ∷ prepare_next fine
    ∷ prepare_next fine
    ∷ prepare_next fine
    ∷ prepare_next fine
    ∷ []

abbrev committing_run : List Action
committing_run =
    preparing ++ commit_next fine ∷ commit_next fine ∷ commit_next fine ∷ commit_next fine ∷ []

commit_excludes_rollback_example :
    let s = run (begin functions (1 ∷ 2 ∷ [])) committing_run in
    (s.did_commit ≡ [])
    ⊎ ((s.did_roll_back ≡ []) × (s.roll_back_failed ≡ []) × (s.to_roll_back ≡ []))
commit_excludes_rollback_example = commit_excludes_rollback functions (1 ∷ 2 ∷ []) committing_run

reaches-commit : is_commit (run (begin functions (1 ∷ 2 ∷ [])) committing_run).tx.state ≡ true
unfolding run begin act
reaches-commit = refl

committed_by_all_example :
    let s = run (begin functions (1 ∷ 2 ∷ [])) committing_run in
    (mem 2 s.did_prepare ≡ true) × ((s.tx.state ≢ committed) ⊎ (mem 2 s.did_commit ≡ true))
committed_by_all_example =
    committed_by_all functions (1 ∷ 2 ∷ []) committing_run 2 reaches-commit (ground arith)

-- An abort while participant 2 is being prepared.
abbrev aborting_run : List Action
aborting_run =
    prepare_next fine
    ∷ prepare_next fine
    ∷ prepare_next fine
    ∷ prepare_next fine
    ∷ prepare_next fine
    ∷ call_abort
    ∷ prepare_next fine
    ∷ prepare_next fine
    ∷ prepare_next fine
    ∷ roll_back true
    ∷ []

reaches-abort :
    let s = run (begin functions (1 ∷ 2 ∷ [])) aborting_run in
    (s.tx.state ≡ aborted)
    × (s.prepare_point ≡ prepare_returned false)
    × (s.to_roll_back ≡ [])
    × (mem 2 s.did_prepare ≡ true)
unfolding run begin act roll_back_next
reaches-abort = (refl, refl, refl, refl)

aborted_by_all_example :
    let s = run (begin functions (1 ∷ 2 ∷ [])) aborting_run in
    (mem 2 s.did_roll_back ≡ true) ⊎ (mem 2 s.roll_back_failed ≡ true)
aborted_by_all_example =
    aborted_by_all functions (1 ∷ 2 ∷ []) aborting_run false 2 refl reaches-abort.0
      (inr reaches-abort.1) reaches-abort.2 reaches-abort.3

run_refines_example :
    let s = run (begin functions (1 ∷ 2 ∷ [])) preparing in
    Move s.tx.participants (view s) (view (act s (commit_next fine)))
run_refines_example = run_refines functions (1 ∷ 2 ∷ []) preparing (commit_next fine)
