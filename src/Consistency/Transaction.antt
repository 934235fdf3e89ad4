-- ===== src/Consistency/Transaction.antt =====
-- zConsistency/transaction.go: one transaction of the `InMemoryTransactionCoordinator`. `Prepare` and
-- `Commit` are threads, of which at most one each gets past its first check; a step is what one
-- of them does under the transaction's lock, or one call of a function of the application. The
-- other calls come from anywhere between the steps. A participant is a number. What the
-- functions of the application have done is kept in lists, the newest first: whom a call with a
-- nil error prepared, committed or rolled back, and for whom a call of `rollbackFn` failed.
pub mod Preparing
pub mod Sound
pub mod Invariant
pub mod Atomic
pub mod Refinement
use z_engine.Common.{◌==◌, if◌then◌else◌, ℕ, ◌-◌, Bool, true, false, ◌&&◌, ◌||◌, List, [], ◌∷◌}

-- `TransactionState`.
pub data TransactionState : Type 0 where
  pending voting prepared committed aborted inconsistent committing : TransactionState

-- `VoteResult`.
pub data VoteResult : Type 0 where
  vote_commit vote_abort : VoteResult

abbrev pub mem : ℕ → List ℕ → Bool
mem j [] = false
mem j (k ∷ ks) = k == j || mem j ks

-- Which of the coordinator's functions are set.
pub record Functions : Type 0 where
  pub has_vote : Bool
  pub has_prepare : Bool
  pub has_commit : Bool
  pub has_rollback : Bool

-- Where `Prepare` stands: before a participant's vote or its preparation; with the answer to a
-- request for a vote; with a prepared participant, which is not recorded yet; before `Abort`;
-- before the late rollback of a participant; among the rollbacks that it makes as the caller of an
-- abort; and returned, with true for a nil error.
pub data PreparePoint : Type 0 where
  unprepared aborting awaiting : PreparePoint
  vote_at prepare_at : List ℕ → PreparePoint
  asking calling marking : ℕ → List ℕ → PreparePoint
  answered : ℕ → VoteResult → List ℕ → PreparePoint
  late : ℕ → PreparePoint
  prepare_returned : Bool → PreparePoint

-- Where `Commit` stands: before the participants, with the attempts left for the first of them
-- and the participants that failed.
pub data CommitPoint : Type 0 where
  uncommitted : CommitPoint
  commit_at : List ℕ → ℕ → List ℕ → CommitPoint
  commit_returned : Bool → CommitPoint

pub record Transaction : Type 0 where
  pub state : TransactionState
  pub participants : List ℕ
  pub votes : List (ℕ × VoteResult)
  pub prepared_by : List ℕ

pub record System : Type 0 where
  pub tx : Transaction
  pub functions : Functions
  pub prepare_point : PreparePoint
  pub commit_point : CommitPoint
  pub to_roll_back : List ℕ
  pub did_prepare : List ℕ
  pub did_commit : List ℕ
  pub did_roll_back : List ℕ
  pub roll_back_failed : List ℕ

-- `Begin`.
unfoldable pub begin : Functions → List ℕ → System
begin functions participants = record {
  tx = record { state = pending; participants = participants; votes = []; prepared_by = [] };
  functions = functions;
  prepare_point = unprepared;
  commit_point = uncommitted;
  to_roll_back = [];
  did_prepare = [];
  did_commit = [];
  did_roll_back = [];
  roll_back_failed = [];
}

abbrev pub is_pending : TransactionState → Bool
is_pending pending = true
is_pending _ = false

abbrev pub is_voting : TransactionState → Bool
is_voting voting = true
is_voting _ = false

abbrev pub is_prepared : TransactionState → Bool
is_prepared prepared = true
is_prepared _ = false

abbrev pub is_aborted : TransactionState → Bool
is_aborted aborted = true
is_aborted _ = false

-- The states that `Vote` and `transitionToAborted` accept.
abbrev pub is_open : TransactionState → Bool
is_open pending = true
is_open voting = true
is_open prepared = true
is_open _ = false

-- `preparedParticipantsLocked`.
pub prepared_participants : List ℕ → List ℕ → List ℕ
prepared_participants prepared_by [] = []
prepared_participants prepared_by (p ∷ ps) =
    let rest = prepared_participants prepared_by ps in if mem p prepared_by then p ∷ rest else rest

-- The transition to `aborted`, with the rollbacks that its caller then makes.
pub to_aborted : System → System
unfolding prepared_participants
to_aborted s = record s {
  tx = record (s.tx) { state = aborted };
  to_roll_back =
      if s.functions.has_rollback
      then prepared_participants s.tx.prepared_by s.tx.participants
      else [];
}

-- `transitionToAborted`, as `Abort` calls it.
unfoldable pub abort : System → System
unfolding to_aborted
abort s = if is_open s.tx.state then to_aborted s else s

-- `Vote` behind the check of its context, and whether it returns nil.
unfoldable pub vote : System → ℕ → VoteResult → System × Bool
unfolding to_aborted
vote s p v =
    if is_open s.tx.state
    then (let t = record s { tx = record (s.tx) { votes = (p, v) ∷ s.tx.votes } } in
        elim v [ vote_abort ↦ (to_aborted t, true) | vote_commit ↦ (t, true) ])
    else (s, false)

-- The caller of an abort calls the rollback function for the next participant. Where that returns
-- an error, which is logged only, it goes on to the next one.
unfoldable pub roll_back_next : System → Bool → System
roll_back_next s is_nil = elim s.to_roll_back [
  | [] ↦ s
  | p ∷ ps ↦ record s {
    to_roll_back = ps;
    did_roll_back = if is_nil then p ∷ s.did_roll_back else s.did_roll_back;
    roll_back_failed = if is_nil then s.roll_back_failed else p ∷ s.roll_back_failed;
  }
]

-- `Cleanup`, for a transaction that is pending past its timeout.
unfoldable pub time_out : System → System
time_out s =
    if is_pending s.tx.state then record s { tx = record (s.tx) { state = aborted } } else s

-- What a step of a thread finds: whether the context is done, what a call of a function of the
-- application comes to, and which vote it brings.
pub record Answer : Type 0 where
  pub is_done : Bool
  pub is_nil : Bool
  pub vote : VoteResult

at : System → PreparePoint → System
at s p = record s { prepare_point = p }

-- The first critical section of `Prepare`.
claim_prepare : System → System
claim_prepare s =
    if is_pending s.tx.state
    then record s {
      tx = record (s.tx) { state = voting };
      prepare_point =
          if s.functions.has_vote then vote_at s.tx.participants else prepare_at s.tx.participants;
    }
    else s

-- The checks before a participant: the context and `transactionMustBe`.
checked : System → Answer → PreparePoint → System
unfolding at
checked s a p =
    if a.is_done
    then at s aborting
    else if is_voting s.tx.state
    then at s p
    else at s (prepare_returned false)

-- `Vote` as `Prepare` calls it, and what follows.
record_vote : System → Answer → ℕ → VoteResult → List ℕ → System
unfolding at vote
record_vote s a p v ps =
    if a.is_done
    then at s aborting
    else (let (t, accepted) = vote s p v in
        if accepted
        then elim v [ vote_abort ↦ at t awaiting | vote_commit ↦ at t (vote_at ps) ]
        else at t aborting)

-- The participant is recorded, or rolled back if the transaction is no longer voting.
mark_prepared : System → Answer → ℕ → List ℕ → System
unfolding at
mark_prepared s a p ps =
    if is_voting s.tx.state
    then record s {
      tx = record (s.tx) { prepared_by = p ∷ s.tx.prepared_by };
      prepare_point = if a.is_done then aborting else prepare_at ps;
    }
    else at s (late p)

-- The last critical section of `Prepare`.
finish_prepare : System → Answer → System
unfolding at
finish_prepare s a =
    if a.is_done
    then at s aborting
    else if is_voting s.tx.state
    then record s { tx = record (s.tx) { state = prepared }; prepare_point = prepare_returned true }
    else at s (prepare_returned false)

roll_back_late : System → Bool → ℕ → System
roll_back_late s is_nil p =
    if s.functions.has_rollback
    then record s {
      prepare_point = prepare_returned false;
      did_roll_back = if is_nil then p ∷ s.did_roll_back else s.did_roll_back;
      roll_back_failed = if is_nil then s.roll_back_failed else p ∷ s.roll_back_failed;
    }
    else record s { prepare_point = prepare_returned false }

await : System → List ℕ → System
unfolding at
await s [] = at s (prepare_returned false)
await s (p ∷ ps) = s

-- The next step of `Prepare`.
pub prepare_step : PreparePoint → System → Answer → System
unfolding claim_prepare checked at record_vote mark_prepared finish_prepare roll_back_late await
    abort
prepare_step unprepared s a = claim_prepare s
prepare_step (vote_at (p ∷ ps)) s a = checked s a (asking p ps)
prepare_step (vote_at []) s a = at s (prepare_at s.tx.participants)
prepare_step (asking p ps) s a = if a.is_nil then at s (answered p a.vote ps) else at s aborting
prepare_step (answered p v ps) s a = record_vote s a p v ps
prepare_step (prepare_at (p ∷ ps)) s a =
    if s.functions.has_prepare then checked s a (calling p ps) else at s aborting
prepare_step (prepare_at []) s a =
    if s.functions.has_prepare then finish_prepare s a else at s aborting
prepare_step (calling p ps) s a =
    if a.is_nil
    then record s { prepare_point = marking p ps; did_prepare = p ∷ s.did_prepare }
    else at s aborting
prepare_step (marking p ps) s a = mark_prepared s a p ps
prepare_step aborting s a =
    at (abort s) (if is_open s.tx.state then awaiting else prepare_returned false)
prepare_step (late p) s a = roll_back_late s a.is_nil p
prepare_step awaiting s a = await s s.to_roll_back
prepare_step (prepare_returned b) s a = s

-- `maxCommitAttempts`.
abbrev pub max_commit_attempts : ℕ
max_commit_attempts = 3

-- The first critical section of `Commit`.
claim_commit : System → System
claim_commit s =
    if is_prepared s.tx.state
    then record s {
      tx = record (s.tx) { state = committing };
      commit_point = commit_at s.tx.participants max_commit_attempts [];
    }
    else s

-- One attempt for the participant at hand, with the attempts left behind it.
attempt_commit : System → Answer → ℕ → List ℕ → ℕ → List ℕ → System
attempt_commit s a p ps left failed =
    if s.functions.has_commit && a.is_nil
    then record s {
      commit_point = commit_at ps max_commit_attempts failed;
      did_commit = p ∷ s.did_commit;
    }
    else record s {
      commit_point =
          if left == 0
          then commit_at ps max_commit_attempts (p ∷ failed)
          else commit_at (p ∷ ps) left failed;
    }

finish_commit : System → List ℕ → System
finish_commit s [] = record s {
  tx = record (s.tx) { state = committed };
  commit_point = commit_returned true;
}
finish_commit s (p ∷ ps) = record s {
  tx = record (s.tx) { state = inconsistent };
  commit_point = commit_returned false;
}

commit_step : CommitPoint → System → Answer → System
unfolding claim_commit attempt_commit finish_commit
commit_step uncommitted s a = claim_commit s
commit_step (commit_at (p ∷ ps) left failed) s a = attempt_commit s a p ps (left - 1) failed
commit_step (commit_at [] left failed) s a = finish_commit s failed
commit_step (commit_returned b) s a = s

-- What can happen next.
pub data Action : Type 0 where
  prepare_next commit_next : Answer → Action
  call_vote : ℕ → VoteResult → Action
  call_abort call_time_out : Action
  roll_back : Bool → Action

unfoldable pub act : System → Action → System
unfolding prepare_step commit_step
act s (prepare_next a) = prepare_step s.prepare_point s a
act s (commit_next a) = commit_step s.commit_point s a
act s (call_vote p v) = (vote s p v).0
act s call_abort = abort s
act s (roll_back is_nil) = roll_back_next s is_nil
act s call_time_out = time_out s

unfoldable pub run : System → List Action → System
run s [] = s
run s (a ∷ as') = run (act s a) as'
