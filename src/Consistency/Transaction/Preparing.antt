-- ===== src/Consistency/Transaction/Preparing.antt =====
-- The steps of `Prepare` (zConsistency/transaction.go) and of the calls from elsewhere, one at a time.
use z_engine.Common.{if◌then◌else◌, ℕ, ◌≡◌, refl, Bool, true, false, ◌&&◌, List, [], ◌∷◌, arith}
use z_engine.Consistency.Transaction.{
  VoteResult, mem, Functions, PreparePoint, unprepared, aborting, awaiting, vote_at, prepare_at,
  asking, calling, marking, answered, late, prepare_returned, System, begin, is_open,
  prepared_participants, to_aborted, abort, vote, roll_back_next, time_out, Answer, at,
  claim_prepare, checked, record_vote, mark_prepared, finish_prepare, roll_back_late, await,
  prepare_step,
}
use z_engine.Consistency.Transaction.Sound.{Inv}

pub mem-prepared_participants :
    (j : ℕ) (ks ps : List ℕ) → mem j (prepared_participants ks ps) ≡ (mem j ps && mem j ks)
unfolding prepared_participants
mem-prepared_participants j ks [] = ground arith
mem-prepared_participants j ks (p ∷ ps) = ground (arith, mem-prepared_participants j ks ps)

pub begin-Inv : (f : Functions) (ps : List ℕ) → Inv (begin f ps)
unfolding begin
begin-Inv f ps = record {
  whole = refl;
  recorded = λ j. refl;
  covered = λ j. ground arith;
  known = λ j. refl;
  undone = λ j. refl;
  settled_for = λ j. ground arith;
}

pub abort-Inv : (s : System) → Inv s → Inv (abort s)
unfolding abort to_aborted
abort-Inv s v = record {
  whole = ground (arith, v.whole);
  recorded = λ j. ground (arith, v.recorded j, v.whole);
  covered = λ j. ground (arith, v.covered j, v.known j, v.whole);
  known = λ j. ground (arith, v.known j, v.whole);
  undone = λ j. ground (
    arith,
    v.undone j,
    v.known j,
    v.whole,
    mem-prepared_participants j s.tx.prepared_by s.tx.participants,
  );
  settled_for = λ j. ground (arith, v.settled_for j, v.whole);
}

pub vote-Inv : (s : System) (p : ℕ) (w : VoteResult) → Inv s → Inv (vote s p w).0
unfolding vote to_aborted
vote-Inv s p w v = record {
  whole = ground (arith, v.whole);
  recorded = λ j. ground (arith, v.recorded j, v.whole);
  covered = λ j. ground (arith, v.covered j, v.known j, v.whole);
  known = λ j. ground (arith, v.known j, v.whole);
  undone = λ j. ground (
    arith,
    v.undone j,
    v.known j,
    v.whole,
    mem-prepared_participants j s.tx.prepared_by s.tx.participants,
  );
  settled_for = λ j. ground (arith, v.settled_for j, v.whole);
}

pub time_out-Inv : (s : System) → Inv s → Inv (time_out s)
unfolding time_out
time_out-Inv s v = record {
  whole = ground (arith, v.whole);
  recorded = λ j. ground (arith, v.recorded j, v.whole);
  covered = λ j. ground (arith, v.covered j, v.known j, v.whole);
  known = λ j. ground (arith, v.known j, v.whole);
  undone = λ j. ground (
    arith,
    v.undone j,
    v.known j,
    v.whole,
    mem-prepared_participants j s.tx.prepared_by s.tx.participants,
  );
  settled_for = λ j. ground (arith, v.settled_for j, v.whole);
}

pub roll_back_next-Inv : (s : System) (n : Bool) → Inv s → Inv (roll_back_next s n)
unfolding roll_back_next
roll_back_next-Inv s n v = record {
  whole = ground (arith, v.whole);
  recorded = λ j. ground (arith, v.recorded j, v.whole);
  covered = λ j. ground (arith, v.covered j, v.known j, v.whole);
  known = λ j. ground (arith, v.known j, v.whole);
  undone = λ j. ground (
    arith,
    v.undone j,
    v.known j,
    v.whole,
    mem-prepared_participants j s.tx.prepared_by s.tx.participants,
  );
  settled_for = λ j. ground (arith, v.settled_for j, v.whole);
}

claim_prepare-Inv : (s : System) → s.prepare_point ≡ unprepared → Inv s → Inv (claim_prepare s)
unfolding claim_prepare
claim_prepare-Inv s e v = record {
  whole = ground (arith, v.whole);
  recorded = λ j. ground (arith, v.recorded j, v.whole);
  covered = λ j. ground (arith, v.covered j, v.known j, v.whole);
  known = λ j. ground (arith, v.known j, v.whole);
  undone = λ j. ground (
    arith,
    v.undone j,
    v.known j,
    v.whole,
    mem-prepared_participants j s.tx.prepared_by s.tx.participants,
  );
  settled_for = λ j. ground (arith, v.settled_for j, v.whole);
}

checked-vote-Inv :
    (s : System) (a : Answer) (p : ℕ) (ps : List ℕ)
    → s.prepare_point ≡ vote_at (p ∷ ps)
    → Inv s
    → Inv (checked s a (asking p ps))
unfolding checked at
checked-vote-Inv s a p ps e v = record {
  whole = ground (arith, v.whole);
  recorded = λ j. ground (arith, v.recorded j, v.whole);
  covered = λ j. ground (arith, v.covered j, v.known j, v.whole);
  known = λ j. ground (arith, v.known j, v.whole);
  undone = λ j. ground (
    arith,
    v.undone j,
    v.known j,
    v.whole,
    mem-prepared_participants j s.tx.prepared_by s.tx.participants,
  );
  settled_for = λ j. ground (arith, v.settled_for j, v.whole);
}

checked-prepare-Inv :
    (s : System) (a : Answer) (p : ℕ) (ps : List ℕ)
    → s.prepare_point ≡ prepare_at (p ∷ ps)
    → Inv s
    → Inv (checked s a (calling p ps))
unfolding checked at
checked-prepare-Inv s a p ps e v = record {
  whole = ground (arith, v.whole);
  recorded = λ j. ground (arith, v.recorded j, v.whole);
  covered = λ j. ground (arith, v.covered j, v.known j, v.whole);
  known = λ j. ground (arith, v.known j, v.whole);
  undone = λ j. ground (
    arith,
    v.undone j,
    v.known j,
    v.whole,
    mem-prepared_participants j s.tx.prepared_by s.tx.participants,
  );
  settled_for = λ j. ground (arith, v.settled_for j, v.whole);
}

record_vote-Inv :
    (s : System) (a : Answer) (p : ℕ) (w : VoteResult) (ps : List ℕ)
    → s.prepare_point ≡ answered p w ps
    → Inv s
    → Inv (record_vote s a p w ps)
unfolding record_vote vote to_aborted at
record_vote-Inv s a p w ps e v = record {
  whole = ground (arith, v.whole);
  recorded = λ j. ground (arith, v.recorded j, v.whole);
  covered = λ j. ground (arith, v.covered j, v.known j, v.whole);
  known = λ j. ground (arith, v.known j, v.whole);
  undone = λ j. ground (
    arith,
    v.undone j,
    v.known j,
    v.whole,
    mem-prepared_participants j s.tx.prepared_by s.tx.participants,
  );
  settled_for = λ j. ground (arith, v.settled_for j, v.whole);
}

mark_prepared-Inv :
    (s : System) (a : Answer) (p : ℕ) (ps : List ℕ)
    → s.prepare_point ≡ marking p ps
    → Inv s
    → Inv (mark_prepared s a p ps)
unfolding mark_prepared at
mark_prepared-Inv s a p ps e v = record {
  whole = ground (arith, v.whole);
  recorded = λ j. ground (arith, v.recorded j, v.whole);
  covered = λ j. ground (arith, v.covered j, v.known j, v.whole);
  known = λ j. ground (arith, v.known j, v.whole);
  undone = λ j. ground (
    arith,
    v.undone j,
    v.known j,
    v.whole,
    mem-prepared_participants j s.tx.prepared_by s.tx.participants,
  );
  settled_for = λ j. ground (arith, v.settled_for j, v.whole);
}

finish_prepare-Inv :
    (s : System) (a : Answer) → s.prepare_point ≡ prepare_at [] → Inv s → Inv (finish_prepare s a)
unfolding finish_prepare at
finish_prepare-Inv s a e v = record {
  whole = ground (arith, v.whole);
  recorded = λ j. ground (arith, v.recorded j, v.whole);
  covered = λ j. ground (arith, v.covered j, v.known j, v.whole);
  known = λ j. ground (arith, v.known j, v.whole);
  undone = λ j. ground (
    arith,
    v.undone j,
    v.known j,
    v.whole,
    mem-prepared_participants j s.tx.prepared_by s.tx.participants,
  );
  settled_for = λ j. ground (arith, v.settled_for j, v.whole);
}

roll_back_late-Inv :
    (s : System) (n : Bool) (p : ℕ) → s.prepare_point ≡ late p → Inv s → Inv (roll_back_late s n p)
unfolding roll_back_late
roll_back_late-Inv s n p e v = record {
  whole = ground (arith, v.whole);
  recorded = λ j. ground (arith, v.recorded j, v.whole);
  covered = λ j. ground (arith, v.covered j, v.known j, v.whole);
  known = λ j. ground (arith, v.known j, v.whole);
  undone = λ j. ground (
    arith,
    v.undone j,
    v.known j,
    v.whole,
    mem-prepared_participants j s.tx.prepared_by s.tx.participants,
  );
  settled_for = λ j. ground (arith, v.settled_for j, v.whole);
}

vote_end-Inv :
    (s : System) → s.prepare_point ≡ vote_at [] → Inv s → Inv (at s (prepare_at s.tx.participants))
unfolding at
vote_end-Inv s e v = record {
  whole = ground (arith, v.whole);
  recorded = λ j. ground (arith, v.recorded j, v.whole);
  covered = λ j. ground (arith, v.covered j, v.known j, v.whole);
  known = λ j. ground (arith, v.known j, v.whole);
  undone = λ j. ground (
    arith,
    v.undone j,
    v.known j,
    v.whole,
    mem-prepared_participants j s.tx.prepared_by s.tx.participants,
  );
  settled_for = λ j. ground (arith, v.settled_for j, v.whole);
}

asked-Inv :
    (s : System) (a : Answer) (p : ℕ) (ps : List ℕ)
    → s.prepare_point ≡ asking p ps
    → Inv s
    → Inv (if a.is_nil then at s (answered p a.vote ps) else at s aborting)
unfolding at
asked-Inv s a p ps e v = record {
  whole = ground (arith, v.whole);
  recorded = λ j. ground (arith, v.recorded j, v.whole);
  covered = λ j. ground (arith, v.covered j, v.known j, v.whole);
  known = λ j. ground (arith, v.known j, v.whole);
  undone = λ j. ground (
    arith,
    v.undone j,
    v.known j,
    v.whole,
    mem-prepared_participants j s.tx.prepared_by s.tx.participants,
  );
  settled_for = λ j. ground (arith, v.settled_for j, v.whole);
}

no_prepare-Inv :
    (s : System) (ps : List ℕ) → s.prepare_point ≡ prepare_at ps → Inv s → Inv (at s aborting)
unfolding at
no_prepare-Inv s ps e v = record {
  whole = ground (arith, v.whole);
  recorded = λ j. ground (arith, v.recorded j, v.whole);
  covered = λ j. ground (arith, v.covered j, v.known j, v.whole);
  known = λ j. ground (arith, v.known j, v.whole);
  undone = λ j. ground (
    arith,
    v.undone j,
    v.known j,
    v.whole,
    mem-prepared_participants j s.tx.prepared_by s.tx.participants,
  );
  settled_for = λ j. ground (arith, v.settled_for j, v.whole);
}

called-Inv :
    (s : System) (a : Answer) (p : ℕ) (ps : List ℕ)
    → s.prepare_point ≡ calling p ps
    → Inv s
    → Inv (
        if a.is_nil
        then record s { prepare_point = marking p ps; did_prepare = p ∷ s.did_prepare }
        else at s aborting)
unfolding at
called-Inv s a p ps e v = record {
  whole = ground (arith, v.whole);
  recorded = λ j. ground (arith, v.recorded j, v.whole);
  covered = λ j. ground (arith, v.covered j, v.known j, v.whole);
  known = λ j. ground (arith, v.known j, v.whole);
  undone = λ j. ground (
    arith,
    v.undone j,
    v.known j,
    v.whole,
    mem-prepared_participants j s.tx.prepared_by s.tx.participants,
  );
  settled_for = λ j. ground (arith, v.settled_for j, v.whole);
}

aborted-Inv :
    (s : System)
    → s.prepare_point ≡ aborting
    → Inv s
    → Inv (at (abort s) (if is_open s.tx.state then awaiting else prepare_returned false))
unfolding at abort to_aborted
aborted-Inv s e v = record {
  whole = ground (arith, v.whole);
  recorded = λ j. ground (arith, v.recorded j, v.whole);
  covered = λ j. ground (arith, v.covered j, v.known j, v.whole);
  known = λ j. ground (arith, v.known j, v.whole);
  undone = λ j. ground (
    arith,
    v.undone j,
    v.known j,
    v.whole,
    mem-prepared_participants j s.tx.prepared_by s.tx.participants,
  );
  settled_for = λ j. ground (arith, v.settled_for j, v.whole);
}

awaited-Inv :
    (s : System) → s.prepare_point ≡ awaiting → Inv s → Inv (at s (prepare_returned false))
unfolding at
awaited-Inv s e v = record {
  whole = ground (arith, v.whole);
  recorded = λ j. ground (arith, v.recorded j, v.whole);
  covered = λ j. ground (arith, v.covered j, v.known j, v.whole);
  known = λ j. ground (arith, v.known j, v.whole);
  undone = λ j. ground (
    arith,
    v.undone j,
    v.known j,
    v.whole,
    mem-prepared_participants j s.tx.prepared_by s.tx.participants,
  );
  settled_for = λ j. ground (arith, v.settled_for j, v.whole);
}

await-Inv : (s : System) (ps : List ℕ) → s.prepare_point ≡ awaiting → Inv s → Inv (await s ps)
unfolding await
await-Inv s [] e v = awaited-Inv s e v
await-Inv s (p ∷ ps) e v = v

if-Inv : (b : Bool) (s t : System) → Inv s → Inv t → Inv (if b then s else t)
if-Inv true s t v w = v
if-Inv false s t v w = w

pub prepare_step-Inv :
    (p : PreparePoint) (s : System) (a : Answer)
    → s.prepare_point ≡ p
    → Inv s
    → Inv (prepare_step p s a)
unfolding prepare_step
prepare_step-Inv unprepared s a e v = claim_prepare-Inv s e v
prepare_step-Inv (vote_at (p ∷ ps)) s a e v = checked-vote-Inv s a p ps e v
prepare_step-Inv (vote_at []) s a e v = vote_end-Inv s e v
prepare_step-Inv (asking p ps) s a e v = asked-Inv s a p ps e v
prepare_step-Inv (answered p w ps) s a e v = record_vote-Inv s a p w ps e v
prepare_step-Inv (prepare_at (p ∷ ps)) s a e v =
    if-Inv s.functions.has_prepare _ _ (checked-prepare-Inv s a p ps e v)
      (no_prepare-Inv s (p ∷ ps) e v)
prepare_step-Inv (prepare_at []) s a e v =
    if-Inv s.functions.has_prepare _ _ (finish_prepare-Inv s a e v) (no_prepare-Inv s [] e v)
prepare_step-Inv (calling p ps) s a e v = called-Inv s a p ps e v
prepare_step-Inv (marking p ps) s a e v = mark_prepared-Inv s a p ps e v
prepare_step-Inv aborting s a e v = aborted-Inv s e v
prepare_step-Inv (late p) s a e v = roll_back_late-Inv s a.is_nil p e v
prepare_step-Inv awaiting s a e v = await-Inv s s.to_roll_back e v
prepare_step-Inv (prepare_returned b) s a e v = v
