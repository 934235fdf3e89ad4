-- ===== src/Consistency/Transaction/Invariant.antt =====
-- What holds of a transaction of zConsistency/transaction.go in every interleaving.
use z_engine.Common.{ℕ, ◌-◌, ◌≡◌, refl, List, [], ◌∷◌, arith}
use z_engine.Consistency.Transaction.{
  Functions, CommitPoint, uncommitted, commit_at, commit_returned, System, begin, Answer,
  claim_commit, attempt_commit, finish_commit, commit_step, Action, prepare_next, commit_next,
  call_vote, call_abort, roll_back, call_time_out, act, run,
}
use z_engine.Consistency.Transaction.Preparing.{
  mem-prepared_participants, begin-Inv, abort-Inv, vote-Inv, time_out-Inv, roll_back_next-Inv,
  prepare_step-Inv,
}
use z_engine.Consistency.Transaction.Sound.{Inv}

claim_commit-Inv : (s : System) → s.commit_point ≡ uncommitted → Inv s → Inv (claim_commit s)
unfolding claim_commit
claim_commit-Inv s e v = record {
  whole = ground (arith, v.whole);
  recorded = λ j. ground (arith, v.recorded j, v.whole);
  covered = λ j. ground (arith, v.covered j, v.known j, v.whole);
  known = λ j. ground (arith, v.known j, v.whole);
  undone = λ j. ground (
    arith,
    v.undone j,
    v.known j,
    v.whole,
    mem-prepared_participants j s.tx.prepared_by s.tx.participants,
  );
  settled_for = λ j. ground (arith, v.settled_for j, v.whole);
}

attempt_commit-Inv :
    (s : System) (a : Answer) (p : ℕ) (ps : List ℕ) (left k : ℕ) (failed : List ℕ)
    → s.commit_point ≡ commit_at (p ∷ ps) k failed
    → Inv s
    → Inv (attempt_commit s a p ps left failed)
unfolding attempt_commit
attempt_commit-Inv s a p ps left k failed e v = record {
  whole = ground (arith, v.whole);
  recorded = λ j. ground (arith, v.recorded j, v.whole);
  covered = λ j. ground (arith, v.covered j, v.known j, v.whole);
  known = λ j. ground (arith, v.known j, v.whole);
  undone = λ j. ground (
    arith,
    v.undone j,
    v.known j,
    v.whole,
    mem-prepared_participants j s.tx.prepared_by s.tx.participants,
  );
  settled_for = λ j. ground (arith, v.settled_for j, v.whole);
}

committed-Inv :
    (s : System) (k : ℕ) → s.commit_point ≡ commit_at [] k [] → Inv s → Inv (finish_commit s [])
unfolding finish_commit
committed-Inv s k e v = record {
  whole = ground (arith, v.whole);
  recorded = λ j. ground (arith, v.recorded j, v.whole);
  covered = λ j. ground (arith, v.covered j, v.known j, v.whole);
  known = λ j. ground (arith, v.known j, v.whole);
  undone = λ j. ground (
    arith,
    v.undone j,
    v.known j,
    v.whole,
    mem-prepared_participants j s.tx.prepared_by s.tx.participants,
  );
  settled_for = λ j. ground (arith, v.settled_for j, v.whole);
}

inconsistent-Inv :
    (s : System) (k p : ℕ) (ps : List ℕ)
    → s.commit_point ≡ commit_at [] k (p ∷ ps)
    → Inv s
    → Inv (finish_commit s (p ∷ ps))
unfolding finish_commit
inconsistent-Inv s k p ps e v = record {
  whole = ground (arith, v.whole);
  recorded = λ j. ground (arith, v.recorded j, v.whole);
  covered = λ j. ground (arith, v.covered j, v.known j, v.whole);
  known = λ j. ground (arith, v.known j, v.whole);
  undone = λ j. ground (
    arith,
    v.undone j,
    v.known j,
    v.whole,
    mem-prepared_participants j s.tx.prepared_by s.tx.participants,
  );
  settled_for = λ j. ground (arith, v.settled_for j, v.whole);
}

commit_step-Inv :
    (p : CommitPoint) (s : System) (a : Answer)
    → s.commit_point ≡ p
    → Inv s
    → Inv (commit_step p s a)
unfolding commit_step
commit_step-Inv uncommitted s a e v = claim_commit-Inv s e v
commit_step-Inv (commit_at (p ∷ ps) left failed) s a e v =
    attempt_commit-Inv s a p ps (left - 1) left failed e v
commit_step-Inv (commit_at [] left []) s a e v = committed-Inv s left e v
commit_step-Inv (commit_at [] left (p ∷ ps)) s a e v = inconsistent-Inv s left p ps e v
commit_step-Inv (commit_returned b) s a e v = v

act-Inv : (s : System) (a : Action) → Inv s → Inv (act s a)
unfolding act
act-Inv s (prepare_next a) v = prepare_step-Inv s.prepare_point s a refl v
act-Inv s (commit_next a) v = commit_step-Inv s.commit_point s a refl v
act-Inv s (call_vote p w) v = vote-Inv s p w v
act-Inv s call_abort v = abort-Inv s v
act-Inv s (roll_back n) v = roll_back_next-Inv s n v
act-Inv s call_time_out v = time_out-Inv s v

pub run-Inv : (s : System) (as' : List Action) → Inv s → Inv (run s as')
unfolding run
run-Inv s [] v = v
run-Inv s (a ∷ as') v = run-Inv (act s a) as' (act-Inv s a v)

pub begin-run-Inv : (f : Functions) (ps : List ℕ) (as' : List Action) → Inv (run (begin f ps) as')
begin-run-Inv f ps as' = run-Inv (begin f ps) as' (begin-Inv f ps)
