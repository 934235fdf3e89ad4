-- ===== src/Net/DdosProtection/Times.antt =====
-- The times of a record of zNet/ddosProtection.go that lie in a window.
use mathlib.Core.List.{append-nil}
use z_engine.Common.{
  ltb, leb, ◌==◌, if◌then◌else◌, Bool-cases, length, keep_if, ℕ, ◌≤◌, ◌≡◌, refl, sym, ap, ◌∙◌, inl,
  inr, false, List, [], ◌∷◌, ◌++◌, arith,
}
use z_engine.Net.DdosProtection.{is_recent, add_and_check, has_recent}

abbrev pub recent : (now window : ℕ) → List ℕ → List ℕ
recent now window times = keep_if (is_recent now window) times

pub recent-recent :
    (t now window : ℕ) (times : List ℕ)
    → t ≤ now
    → recent now window (recent t window times) ≡ recent now window times
recent-recent t now window [] h = refl
recent-recent t now window (x ∷ xs) h = ground (arith, recent-recent t now window xs h)

pub recent-append :
    (now window : ℕ) (a b : List ℕ)
    → recent now window (a ++ b) ≡ recent now window a ++ recent now window b
recent-append now window [] b = refl
recent-append now window (x ∷ a) b = ground (arith, recent-append now window a b)

pub has_recent-recent :
    (now window : ℕ) (times : List ℕ)
    → has_recent now window times ≡ false
    → recent now window times ≡ []
unfolding has_recent
has_recent-recent now window [] h = refl
has_recent-recent now window (x ∷ xs) h = ground (arith, h, has_recent-recent now window xs)

-- The times of the calls for an address that were allowed.
abbrev pub times_in : ℕ → List (ℕ × ℕ) → List ℕ
times_in ip [] = []
times_in ip ((j, t) ∷ log) = if j == ip then t ∷ times_in ip log else times_in ip log

pub times_in-append :
    (ip j t : ℕ) (log : List (ℕ × ℕ))
    → times_in ip (log ++ ((j, t) ∷ [])) ≡ times_in ip log ++ (if j == ip then t ∷ [] else [])
times_in-append ip j t [] = ground arith
times_in-append ip j t ((k, u) ∷ log) = ground (arith, times_in-append ip j t log)

module _ (now window max_count : ℕ) (times : List ℕ) where
  -- A call is allowed exactly where fewer than the limit count.
  pub add_and_check-allows :
      (add_and_check now window max_count times).1
      ≡ ltb (length (recent now window times)) max_count
  unfolding add_and_check
  add_and_check-allows = ground arith

  pub add_and_check-recent :
      recent now window (add_and_check now window max_count times).0
      ≡ recent now window times
        ++ (if (add_and_check now window max_count times).1
            then recent now window (now ∷ [])
            else [])
  unfolding add_and_check
  add_and_check-recent = elim (Bool-cases (leb max_count (length (recent now window times)))) [
    | inl t ↦ rw t (
        recent-recent now now window times (omega arith)
        ∙ sym (append-nil (recent now window times)))
    | inr t ↦ rw t (
        recent-append now window (recent now window times) (now ∷ [])
        ∙ ap (λ l. l ++ recent now window (now ∷ []))
            (recent-recent now now window times (omega arith)))
  ]
