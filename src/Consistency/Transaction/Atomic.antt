-- ===== src/Consistency/Transaction/Atomic.antt =====
-- The outcome of a transaction of zConsistency/transaction.go is one and the same for all
-- participants.
use z_engine.Common.{
  Bool-cases, ℕ, ◌≡◌, refl, sym, ap, ◌∙◌, subst, ◌≢◌, ◌⊎◌, inl, inr, Bool, true, List, [], ◌∷◌,
  arith,
}
use z_engine.Consistency.Transaction.{
  committed, aborted, mem, Functions, PreparePoint, unprepared, prepare_returned, CommitPoint,
  commit_returned, System, begin, run, VoteResult, vote, to_aborted, abort, Answer, record_vote, at,
  await, prepare_step, claim_prepare, checked, mark_prepared, finish_prepare, roll_back_late,
  vote_at, prepare_at, asking, answered, calling, marking, aborting, late, awaiting, commit_step,
  claim_commit, attempt_commit, finish_commit, uncommitted, commit_at, act, roll_back_next,
  time_out, Action, prepare_next, commit_next, call_vote, call_abort, roll_back, call_time_out,
}
use z_engine.Consistency.Transaction.Invariant.{begin-run-Inv}
use z_engine.Consistency.Transaction.Sound.{is_commit, is_committed, Inv}

-- What no step changes: the participants and the functions.
abbrev Same : System → System → Type 0
Same s t = (t.tx.participants ≡ s.tx.participants) × (t.functions ≡ s.functions)

vote-Same : (s : System) (p : ℕ) (v : VoteResult) → Same s (vote s p v).0
unfolding vote to_aborted
vote-Same s p v = ground arith

record_vote-Same :
    (s : System) (a : Answer) (p : ℕ) (v : VoteResult) (ps : List ℕ)
    → Same s (record_vote s a p v ps)
unfolding record_vote vote to_aborted at
record_vote-Same s a p v ps = ground arith

await-Same : (s : System) (ps : List ℕ) → Same s (await s ps)
unfolding await at
await-Same s [] = (refl, refl)
await-Same s (p ∷ ps) = (refl, refl)

prepare_step-Same : (p : PreparePoint) (s : System) (a : Answer) → Same s (prepare_step p s a)
unfolding prepare_step claim_prepare checked at mark_prepared finish_prepare roll_back_late abort
    to_aborted
prepare_step-Same unprepared s a = ground arith
prepare_step-Same (vote_at (p ∷ ps)) s a = ground arith
prepare_step-Same (vote_at []) s a = ground arith
prepare_step-Same (asking p ps) s a = ground arith
prepare_step-Same (answered p w ps) s a = record_vote-Same s a p w ps
prepare_step-Same (prepare_at (p ∷ ps)) s a = ground arith
prepare_step-Same (prepare_at []) s a = ground arith
prepare_step-Same (calling p ps) s a = ground arith
prepare_step-Same (marking p ps) s a = ground arith
prepare_step-Same aborting s a = ground arith
prepare_step-Same (late p) s a = ground arith
prepare_step-Same awaiting s a = await-Same s s.to_roll_back
prepare_step-Same (prepare_returned b) s a = ground arith

commit_step-Same : (p : CommitPoint) (s : System) (a : Answer) → Same s (commit_step p s a)
unfolding commit_step claim_commit attempt_commit finish_commit
commit_step-Same uncommitted s a = ground arith
commit_step-Same (commit_at (p ∷ ps) left failed) s a = ground arith
commit_step-Same (commit_at [] left []) s a = ground arith
commit_step-Same (commit_at [] left (p ∷ ps)) s a = ground arith
commit_step-Same (commit_returned b) s a = ground arith

act-Same : (s : System) (a : Action) → Same s (act s a)
unfolding act abort to_aborted roll_back_next time_out
act-Same s (prepare_next a) = prepare_step-Same s.prepare_point s a
act-Same s (commit_next a) = commit_step-Same s.commit_point s a
act-Same s (call_vote p v) = vote-Same s p v
act-Same s call_abort = ground arith
act-Same s (roll_back n) = ground arith
act-Same s call_time_out = ground arith

run-Same : (s : System) (as' : List Action) → Same s (run s as')
unfolding run
run-Same s [] = (refl, refl)
run-Same s (a ∷ as') =
    let e = act-Same s a in let r = run-Same (act s a) as' in (r.0 ∙ e.0, r.1 ∙ e.1)

begin-run-Same :
    (f : Functions) (ps : List ℕ) (as' : List Action) → Same (begin f ps) (run (begin f ps) as')
begin-run-Same f ps as' = run-Same (begin f ps) as'

begin-Same :
    (f : Functions) (ps : List ℕ)
    → ((begin f ps).tx.participants ≡ ps) × ((begin f ps).functions ≡ f)
unfolding begin
begin-Same f ps = (refl, refl)

-- In no interleaving is one participant committed and the rollback function called for another, or
-- the same, with or without an error, or about to be.
pub commit_excludes_rollback :
    (f : Functions) (ps : List ℕ) (as' : List Action)
    → let s = run (begin f ps) as' in
      (s.did_commit ≡ [])
      ⊎ ((s.did_roll_back ≡ []) × (s.roll_back_failed ≡ []) × (s.to_roll_back ≡ []))
commit_excludes_rollback f ps as' = let v = begin-run-Inv f ps as' in ground (arith, v.whole)

Inv-prepared :
    (s : System) (j : ℕ)
    → Inv s
    → is_commit s.tx.state ≡ true
    → mem j s.tx.participants ≡ true
    → mem j s.did_prepare ≡ true
Inv-prepared s j v c m = ground (arith, v.whole, v.covered j, v.recorded j)

Inv-committed :
    (s : System) (j : ℕ)
    → Inv s
    → s.tx.state ≡ committed
    → mem j s.tx.participants ≡ true
    → mem j s.did_commit ≡ true
Inv-committed s j v c m = ground (arith, v.whole, v.settled_for j)

-- Where `Commit` has begun, every participant was prepared before; and where the transaction is
-- committed, every participant was committed.
pub committed_by_all :
    (f : Functions) (ps : List ℕ) (as' : List Action) (j : ℕ)
    → let s = run (begin f ps) as' in
      is_commit s.tx.state ≡ true
      → mem j ps ≡ true
      → (mem j s.did_prepare ≡ true) × ((s.tx.state ≢ committed) ⊎ (mem j s.did_commit ≡ true))
committed_by_all f ps as' j c m =
    let s = run (begin f ps) as' in
    let v = begin-run-Inv f ps as' in
    let k : mem j s.tx.participants ≡ true =
      subst (λ x. mem j x ≡ true) (sym ((run-Same (begin f ps) as').0 ∙ (begin-Same f ps).0)) m in
    (
      Inv-prepared s j v c k,
      elim (Bool-cases (is_committed s.tx.state)) [
        | inl e ↦ inr (Inv-committed s j v (ground arith) k)
        | inr e ↦ inl (λ h. ground arith)
      ],
    )

Inv-aborted :
    (s : System) (b : Bool) (j : ℕ)
    → Inv s
    → s.tx.state ≡ aborted
    → (s.prepare_point ≡ unprepared) ⊎ (s.prepare_point ≡ prepare_returned b)
    → s.to_roll_back ≡ []
    → s.functions.has_rollback ≡ true
    → mem j s.did_prepare ≡ true
    → (mem j s.did_roll_back ≡ true) ⊎ (mem j s.roll_back_failed ≡ true)
Inv-aborted s b j v e r n h m = ground (arith, v.whole, v.undone j)

-- Once `Prepare` has returned, or if it was never called, and the callers of rollbacks are
-- done, an aborted transaction with a rollback function has called it for every participant that
-- was prepared: the participant is rolled back, or its call returned an error.
pub aborted_by_all :
    (f : Functions) (ps : List ℕ) (as' : List Action) (b : Bool) (j : ℕ)
    → let s = run (begin f ps) as' in
      f.has_rollback ≡ true
      → s.tx.state ≡ aborted
      → (s.prepare_point ≡ unprepared) ⊎ (s.prepare_point ≡ prepare_returned b)
      → s.to_roll_back ≡ []
      → mem j s.did_prepare ≡ true
      → (mem j s.did_roll_back ≡ true) ⊎ (mem j s.roll_back_failed ≡ true)
aborted_by_all f ps as' b j h e r n m =
    let same = (run-Same (begin f ps) as').1 ∙ (begin-Same f ps).1 in
    Inv-aborted (run (begin f ps) as') b j (begin-run-Inv f ps as') e r n
      (ap (λ x. x.has_rollback) same ∙ h) m
