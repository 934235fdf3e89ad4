-- ===== src/Consistency/Transaction/Refinement.antt =====
-- zConsistency/transaction.go implements the two-phase commit protocol: an abstract machine that
-- knows only the decision and what was done to which participant.
use z_engine.Common.{
  if◌then◌else◌, Bool-cases, ℕ, ◌-◌, ◌≡◌, refl, ◌≢◌, ◌⊎◌, inl, inr, Bool, true, false, ◌&&◌, List,
  [], ◌∷◌, arith,
}
use z_engine.Consistency.Transaction.{
  TransactionState, pending, voting, prepared, committed, aborted, inconsistent, committing,
  VoteResult, mem, Functions, PreparePoint, unprepared, aborting, awaiting, vote_at, prepare_at,
  asking, calling, marking, answered, late, prepare_returned, CommitPoint, uncommitted, commit_at,
  commit_returned, System, begin, is_prepared, is_open, to_aborted, abort, vote, roll_back_next,
  time_out, Answer, at, claim_prepare, checked, record_vote, mark_prepared, finish_prepare,
  roll_back_late, await, prepare_step, claim_commit, attempt_commit, finish_commit, commit_step,
  Action, prepare_next, commit_next, call_vote, call_abort, roll_back, call_time_out, act, run,
}
use z_engine.Consistency.Transaction.Invariant.{begin-run-Inv}
use z_engine.Consistency.Transaction.Sound.{Inv}

pub data Decision : Type 0 where
  undecided to_commit to_abort : Decision

pub record Protocol : Type 0 where
  pub decision : Decision
  pub prepared_by : List ℕ
  pub committed_by : List ℕ
  pub rolled_back_by : List ℕ
  pub not_rolled_back_by : List ℕ

-- The moves of the protocol. The decision is taken once: to commit only when all participants are
-- prepared. A participant commits only after the one decision, and rolls back, or fails to, only
-- after the other; none prepares after the decision to commit.
pub data Move (participants : List ℕ) : Protocol → Protocol → Type 0 where
  stays : (a b : Protocol) → b ≡ a → Move participants a b
  prepares :
      (a b : Protocol) (p : ℕ)
      → a.decision ≢ to_commit
      → b ≡ record a { prepared_by = p ∷ a.prepared_by }
      → Move participants a b
  decides_commit :
      (a b : Protocol)
      → a.decision ≡ undecided
      → ((j : ℕ) → mem j participants ≡ true → mem j a.prepared_by ≡ true)
      → b ≡ record a { decision = to_commit }
      → Move participants a b
  decides_abort :
      (a b : Protocol)
      → a.decision ≡ undecided
      → b ≡ record a { decision = to_abort }
      → Move participants a b
  commits :
      (a b : Protocol) (p : ℕ)
      → a.decision ≡ to_commit
      → b ≡ record a { committed_by = p ∷ a.committed_by }
      → Move participants a b
  rolls_back :
      (a b : Protocol) (p : ℕ)
      → a.decision ≡ to_abort
      → b ≡ record a { rolled_back_by = p ∷ a.rolled_back_by }
      → Move participants a b
  fails_to_roll_back :
      (a b : Protocol) (p : ℕ)
      → a.decision ≡ to_abort
      → b ≡ record a { not_rolled_back_by = p ∷ a.not_rolled_back_by }
      → Move participants a b

abbrev pub decision_of : TransactionState → Decision
decision_of pending = undecided
decision_of voting = undecided
decision_of prepared = undecided
decision_of committed = to_commit
decision_of inconsistent = to_commit
decision_of committing = to_commit
decision_of aborted = to_abort

-- What the protocol sees of a transaction.
abbrev pub view : System → Protocol
view s = record {
  decision = decision_of s.tx.state;
  prepared_by = s.did_prepare;
  committed_by = s.did_commit;
  rolled_back_by = s.did_roll_back;
  not_rolled_back_by = s.roll_back_failed;
}

-- The step of a system in the protocol.
abbrev Steps : System → System → Type 0
Steps s t = Move s.tx.participants (view s) (view t)

stay : (s t : System) → view t ≡ view s → Steps s t
stay s t e = stays (view s) (view t) e

to_abort_step :
    (s t : System)
    → is_open s.tx.state ≡ true
    → view t ≡ record (view s) { decision = to_abort }
    → Steps s t
to_abort_step s t o e = decides_abort (view s) (view t) (ground arith) e

-- A step that decides nothing, or to abort.
abbrev Quiet : System → System → Type 0
Quiet s t =
    (view t ≡ view s)
    ⊎ ((is_open s.tx.state ≡ true) × (view t ≡ record (view s) { decision = to_abort }))

Quiet-Steps : (s t : System) → Quiet s t → Steps s t
Quiet-Steps s t (inl e) = stay s t e
Quiet-Steps s t (inr q) = to_abort_step s t q.0 q.1

abort-Quiet : (s : System) → Quiet s (abort s)
unfolding abort to_aborted
abort-Quiet s = ground arith

vote-Quiet : (s : System) (p : ℕ) (w : VoteResult) → Quiet s (vote s p w).0
unfolding vote to_aborted
vote-Quiet s p w = ground arith

time_out-Quiet : (s : System) → Quiet s (time_out s)
unfolding time_out
time_out-Quiet s = ground arith

record_vote-Quiet :
    (s : System) (a : Answer) (p : ℕ) (w : VoteResult) (ps : List ℕ)
    → Quiet s (record_vote s a p w ps)
unfolding record_vote vote to_aborted at
record_vote-Quiet s a p w ps = ground arith

aborting-Quiet : (s : System) (p : PreparePoint) → Quiet s (at (abort s) p)
unfolding at abort to_aborted
aborting-Quiet s p = ground arith

await-Quiet : (s : System) (ps : List ℕ) → view (await s ps) ≡ view s
unfolding await at
await-Quiet s [] = refl
await-Quiet s (p ∷ ps) = refl

roll_back-Steps :
    (s : System) (n : Bool) (ks : List ℕ)
    → s.to_roll_back ≡ ks
    → Inv s
    → Steps s (roll_back_next s n)
unfolding roll_back_next
roll_back-Steps s n [] e v = stay s (roll_back_next s n) (ground arith)
roll_back-Steps s true (p ∷ ks) e v =
    rolls_back (view s) (view (roll_back_next s true)) p (ground (arith, v.whole)) (ground arith)
roll_back-Steps s false (p ∷ ks) e v =
    fails_to_roll_back (view s) (view (roll_back_next s false)) p (ground (arith, v.whole))
      (ground arith)

called-Steps :
    (s : System) (a : Answer) (p : ℕ) (ps : List ℕ)
    → s.prepare_point ≡ calling p ps
    → Inv s
    → Steps s (prepare_step (calling p ps) s a)
unfolding prepare_step at
called-Steps s a p ps e v = elim (Bool-cases a.is_nil) [
  | inl n ↦
      prepares (view s) (view (prepare_step (calling p ps) s a)) p (ground (arith, v.whole))
        (ground arith)
  | inr n ↦ stay s (prepare_step (calling p ps) s a) (ground arith)
]

late-Steps :
    (s : System) (n : Bool) (p : ℕ)
    → s.prepare_point ≡ late p
    → Inv s
    → Steps s (roll_back_late s n p)
unfolding roll_back_late
late-Steps s true p e v = elim (Bool-cases s.functions.has_rollback) [
  | inl h ↦
      rolls_back (view s) (view (roll_back_late s true p)) p (ground (arith, v.whole))
        (ground arith)
  | inr h ↦ stay s (roll_back_late s true p) (ground arith)
]
late-Steps s false p e v = elim (Bool-cases s.functions.has_rollback) [
  | inl h ↦
      fails_to_roll_back (view s) (view (roll_back_late s false p)) p (ground (arith, v.whole))
        (ground arith)
  | inr h ↦ stay s (roll_back_late s false p) (ground arith)
]

prepare_step-Steps :
    (p : PreparePoint) (s : System) (a : Answer)
    → s.prepare_point ≡ p
    → Inv s
    → Steps s (prepare_step p s a)
unfolding prepare_step claim_prepare checked at mark_prepared finish_prepare
prepare_step-Steps unprepared s a e v = stay s (prepare_step unprepared s a) (ground arith)
prepare_step-Steps (vote_at (p ∷ ps)) s a e v =
    stay s (prepare_step (vote_at (p ∷ ps)) s a) (ground arith)
prepare_step-Steps (vote_at []) s a e v = stay s (prepare_step (vote_at []) s a) refl
prepare_step-Steps (asking p ps) s a e v = stay s (prepare_step (asking p ps) s a) (ground arith)
prepare_step-Steps (answered p w ps) s a e v =
    Quiet-Steps s (record_vote s a p w ps) (record_vote-Quiet s a p w ps)
prepare_step-Steps (prepare_at (p ∷ ps)) s a e v =
    stay s (prepare_step (prepare_at (p ∷ ps)) s a) (ground arith)
prepare_step-Steps (prepare_at []) s a e v =
    stay s (prepare_step (prepare_at []) s a) (ground arith)
prepare_step-Steps (calling p ps) s a e v = called-Steps s a p ps e v
prepare_step-Steps (marking p ps) s a e v = stay s (prepare_step (marking p ps) s a) (ground arith)
prepare_step-Steps aborting s a e v =
    let next = if is_open s.tx.state then awaiting else prepare_returned false in
    Quiet-Steps s (at (abort s) next) (aborting-Quiet s next)
prepare_step-Steps (late p) s a e v = late-Steps s a.is_nil p e v
prepare_step-Steps awaiting s a e v = stay s (await s s.to_roll_back) (await-Quiet s s.to_roll_back)
prepare_step-Steps (prepare_returned b) s a e v = stay s s refl

all_prepared :
    (s : System) (j : ℕ)
    → is_prepared s.tx.state ≡ true
    → Inv s
    → mem j s.tx.participants ≡ true
    → mem j s.did_prepare ≡ true
all_prepared s j e v m = ground (arith, v.whole, v.covered j, v.recorded j)

claim_commit-Steps : (s : System) → Inv s → Steps s (claim_commit s)
unfolding claim_commit
claim_commit-Steps s v = elim (Bool-cases (is_prepared s.tx.state)) [
  | inl p ↦
      decides_commit (view s) (view (claim_commit s)) (ground arith) (λ j m. all_prepared s j p v m)
        (ground arith)
  | inr p ↦ stay s (claim_commit s) (ground arith)
]

attempt_commit-Steps :
    (s : System) (a : Answer) (p : ℕ) (ps : List ℕ) (left k : ℕ) (failed : List ℕ)
    → s.commit_point ≡ commit_at (p ∷ ps) k failed
    → Inv s
    → Steps s (attempt_commit s a p ps left failed)
unfolding attempt_commit
attempt_commit-Steps s a p ps left k failed e v =
    elim (Bool-cases (s.functions.has_commit && a.is_nil)) [
      | inl n ↦
          commits (view s) (view (attempt_commit s a p ps left failed)) p (ground (arith, v.whole))
            (ground arith)
      | inr n ↦ stay s (attempt_commit s a p ps left failed) (ground arith)
    ]

commit_step-Steps :
    (p : CommitPoint) (s : System) (a : Answer)
    → s.commit_point ≡ p
    → Inv s
    → Steps s (commit_step p s a)
unfolding commit_step finish_commit
commit_step-Steps uncommitted s a e v = claim_commit-Steps s v
commit_step-Steps (commit_at (p ∷ ps) left failed) s a e v =
    attempt_commit-Steps s a p ps (left - 1) left failed e v
commit_step-Steps (commit_at [] left []) s a e v =
    stay s (finish_commit s []) (ground (arith, v.whole))
commit_step-Steps (commit_at [] left (p ∷ ps)) s a e v =
    stay s (finish_commit s (p ∷ ps)) (ground (arith, v.whole))
commit_step-Steps (commit_returned b) s a e v = stay s s refl

act-Steps : (s : System) (a : Action) → Inv s → Steps s (act s a)
unfolding act
act-Steps s (prepare_next a) v = prepare_step-Steps s.prepare_point s a refl v
act-Steps s (commit_next a) v = commit_step-Steps s.commit_point s a refl v
act-Steps s (call_vote p w) v = Quiet-Steps s (vote s p w).0 (vote-Quiet s p w)
act-Steps s call_abort v = Quiet-Steps s (abort s) (abort-Quiet s)
act-Steps s (roll_back n) v = roll_back-Steps s n s.to_roll_back refl v
act-Steps s call_time_out v = Quiet-Steps s (time_out s) (time_out-Quiet s)

-- The coordinator refines the protocol: in every interleaving, whatever happens next is one move
-- of the protocol on what it sees of the transaction.
pub run_refines :
    (f : Functions) (ps : List ℕ) (as' : List Action) (a : Action)
    → let s = run (begin f ps) as' in Move s.tx.participants (view s) (view (act s a))
run_refines f ps as' a = act-Steps (run (begin f ps) as') a (begin-run-Inv f ps as')
