-- ===== src/Consistency/Transaction/Sound.antt =====
-- What is to hold of a transaction of zConsistency/transaction.go between two steps.
use z_engine.Common.{◌==◌, ℕ, ◌≡◌, Bool, true, false, not, ◌&&◌, ◌||◌, List, [], ◌∷◌}
use z_engine.Consistency.Transaction.{
  TransactionState, committed, inconsistent, committing, mem, PreparePoint, unprepared, aborting,
  awaiting, vote_at, prepare_at, asking, calling, marking, answered, late, prepare_returned,
  CommitPoint, uncommitted, commit_at, commit_returned, System, is_pending, is_voting, is_prepared,
  is_aborted,
}

abbrev is_empty : List ℕ → Bool
is_empty [] = true
is_empty (p ∷ ps) = false

-- The transaction is committed to, whatever its participants answer.
abbrev pub is_commit : TransactionState → Bool
is_commit committing = true
is_commit committed = true
is_commit inconsistent = true
is_commit _ = false

abbrev pub is_committed : TransactionState → Bool
is_committed committed = true
is_committed _ = false

abbrev is_inconsistent : TransactionState → Bool
is_inconsistent inconsistent = true
is_inconsistent _ = false

abbrev is_committing : TransactionState → Bool
is_committing committing = true
is_committing _ = false

-- The states in which `Prepare` can stand at a point.
abbrev fits : PreparePoint → TransactionState → Bool
fits unprepared t = is_pending t || is_aborted t
fits (prepare_returned true) t = is_prepared t || is_commit t || is_aborted t
fits (prepare_returned false) t = is_aborted t
fits awaiting t = is_aborted t
fits (late p) t = is_aborted t
fits _ t = is_voting t || is_aborted t

abbrev fits_commit : CommitPoint → TransactionState → Bool
fits_commit uncommitted t = not (is_commit t)
fits_commit (commit_at ps left failed) t = is_committing t
fits_commit (commit_returned true) t = is_committed t
fits_commit (commit_returned false) t = is_inconsistent t

-- Before the first preparation, and after the last.
abbrev is_before : PreparePoint → Bool
is_before unprepared = true
is_before (vote_at ps) = true
is_before (asking p ps) = true
is_before (answered p v ps) = true
is_before _ = false

abbrev is_fresh : PreparePoint → Bool
is_fresh unprepared = true
is_fresh _ = false

abbrev is_over : PreparePoint → Bool
is_over aborting = true
is_over awaiting = true
is_over (late p) = true
is_over (prepare_returned false) = true
is_over _ = false

-- The participants that are still to be recorded as prepared.
abbrev left_of : PreparePoint → List ℕ
left_of (prepare_at ps) = ps
left_of (calling p ps) = p ∷ ps
left_of (marking p ps) = p ∷ ps
left_of _ = []

-- The participant is prepared and not recorded.
abbrev in_hand : ℕ → PreparePoint → Bool
in_hand j (marking p ps) = p == j
in_hand j (late p) = p == j
in_hand j _ = false

abbrev settled : ℕ → CommitPoint → List ℕ → Bool
settled j uncommitted ks = true
settled j (commit_at ps left failed) ks = mem j ps || mem j failed || mem j ks
settled j (commit_returned true) ks = mem j ks
settled j (commit_returned false) ks = true

infixr 4 ◌⇒◌
abbrev ◌⇒◌ : Bool → Bool → Bool
a ⇒ b = not a || b

-- The rollback function was called for the participant, whatever came of it.
abbrev has_been_called : System → ℕ → Bool
has_been_called s j = mem j s.did_roll_back || mem j s.roll_back_failed

-- What relates the threads, the state and what was done: as a whole, and for each participant.
abbrev is_sound : System → Bool
is_sound s =
    fits s.prepare_point s.tx.state
    && (fits_commit s.commit_point s.tx.state
        && ((is_empty s.did_commit || is_commit s.tx.state)
            && (((is_empty s.did_roll_back
                    && (is_empty s.roll_back_failed && is_empty s.to_roll_back))
                  || is_aborted s.tx.state)
                && (is_fresh s.prepare_point ⇒ is_empty s.tx.prepared_by))))

abbrev is_covered : System → ℕ → Bool
is_covered s j =
    mem j s.tx.participants
    ⇒ (is_before s.prepare_point
        || (is_over s.prepare_point
            || (is_aborted s.tx.state
                || (mem j (left_of s.prepare_point) || mem j s.tx.prepared_by))))

abbrev is_undone : System → ℕ → Bool
is_undone s j =
    (mem j s.did_prepare
      ⇒ (mem j s.tx.prepared_by
          || (in_hand j s.prepare_point || (has_been_called s j || not s.functions.has_rollback))))
    && ((is_aborted s.tx.state && mem j s.tx.prepared_by)
        ⇒ (mem j s.to_roll_back || (has_been_called s j || not s.functions.has_rollback)))

pub record Inv (s : System) : Type 0 where
  pub whole : is_sound s ≡ true
  pub recorded :
      (j : ℕ) → ((mem j s.tx.prepared_by || in_hand j s.prepare_point) ⇒ mem j s.did_prepare) ≡ true
  pub covered : (j : ℕ) → is_covered s j ≡ true
  pub known :
      (j : ℕ)
      → ((mem j s.tx.prepared_by || mem j (left_of s.prepare_point)) ⇒ mem j s.tx.participants)
        ≡ true
  pub undone : (j : ℕ) → is_undone s j ≡ true
  pub settled_for :
      (j : ℕ) → (mem j s.tx.participants ⇒ settled j s.commit_point s.did_commit) ≡ true
