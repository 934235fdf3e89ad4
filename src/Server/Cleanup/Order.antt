-- ===== src/Server/Cleanup/Order.antt =====
-- Every registered cleanup of zServer/cleanup.go is called once, last registered first.
use z_engine.Common.{
  All, ==-refl, ◌≢◌, if◌then◌else◌, ◌≡◌, refl, sym, ap, ◌∙◌, subst, true, false, Option, none, some,
  List, [], ◌∷◌, ◌++◌, map, reverse, arith,
}
use mathlib.Core.List.{append-nil, map-append, reverse-append, reverse-cons}
use z_engine.Server.Cleanup.{
  Outcome, Name, name_eq, has_name, CleanupEntry, Registry, empty_registry, register_cleanup,
  call_cleanups, run_cleanups, trim_space,
}

-- The calls on the registry, `runCleanups` among them.
pub data Call : Type 0 where
  register : Name → Option Outcome → Call
  shut : Call

-- A registry with the names of all cleanups called so far, in order.
pub record History : Type 0 where
  pub registry : Registry
  pub called : List Name

pub call : History → Call → History
call h (register name fn) = record h { registry = (register_cleanup h.registry name fn).0 }
call h shut =
    let r = run_cleanups h.registry in
    record { registry = r.registry; called = h.called ++ r.called }

pub calls : History → List Call → History
unfolding call
calls h [] = h
calls h (c ∷ cs) = calls (call h c) cs

abbrev pub entry_names : List CleanupEntry → List Name
entry_names = map λ e. e.name

called_names : (es : List CleanupEntry) → (call_cleanups es).0 ≡ entry_names es
unfolding call_cleanups
called_names [] = refl
called_names (e ∷ es) = ap (◌∷◌ e.name) (called_names es)

-- Once shut, the registry takes nothing and calls nothing.
record IsShut (h : History) : Type 0 where
  closed : h.registry.closed ≡ true
  entries : h.registry.entries ≡ []

call-IsShut :
    (h : History) (c : Call) → IsShut h → IsShut (call h c) × ((call h c).called ≡ h.called)
unfolding call register_cleanup run_cleanups
call-IsShut h (register name none) s =
    (record { closed = ground (arith, s.closed); entries = ground (arith, s.entries) }, refl)
call-IsShut h (register name (some fn)) s = (
  record { closed = ground (arith, s.closed); entries = ground (arith, s.closed, s.entries) },
  refl,
)
call-IsShut h shut s =
    (record { closed = refl; entries = refl }, rw s.entries (append-nil h.called))

shut-IsShut : (h : History) → IsShut (call h shut)
unfolding call run_cleanups
shut-IsShut h = record { closed = refl; entries = refl }

calls-IsShut : (h : History) (cs : List Call) → IsShut h → (calls h cs).called ≡ h.called
unfolding calls
calls-IsShut h [] s = refl
calls-IsShut h (c ∷ cs) s =
    let (s', same) = call-IsShut h c s in calls-IsShut (call h c) cs s' ∙ same

-- No name stands twice, by the code's test.
abbrev Unique : List Name → Type 0
Unique [] = Unit
Unique (n ∷ ns) = (has_name n ns ≡ false) × Unique ns

-- While the registry is open it holds a cleanup for each name, the last registered name first.
record IsOpen (h : History) : Type 0 where
  closed : h.registry.closed ≡ false
  called : h.called ≡ []
  names : h.registry.names ≡ reverse (entry_names h.registry.entries)
  unique : Unique h.registry.names

reverse-snoc :
    (es : List CleanupEntry) (e : CleanupEntry)
    → reverse (entry_names (es ++ e ∷ [])) ≡ e.name ∷ reverse (entry_names es)
reverse-snoc es e =
    ap reverse (map-append (λ (x : CleanupEntry). x.name) es (e ∷ []))
    ∙ reverse-append (entry_names es) (e.name ∷ [])

names-reverse : (es : List CleanupEntry) → entry_names (reverse es) ≡ reverse (entry_names es)
names-reverse [] = refl
names-reverse (e ∷ es) =
    ap entry_names (reverse-cons e es)
    ∙ map-append (λ (x : CleanupEntry). x.name) (reverse es) (e ∷ [])
    ∙ ap (λ ns. ns ++ e.name ∷ []) (names-reverse es)
    ∙ sym (reverse-cons e.name (entry_names es))

register-IsOpen :
    (h : History) (name : Name) (fn : Option Outcome)
    → IsOpen h
    → IsOpen (call h (register name fn))
unfolding call register_cleanup
register-IsOpen h name none o = record {
  closed = ground (arith, o.closed);
  called = o.called;
  names = ground (arith, o.names);
  unique = ground (arith, o.unique);
}
register-IsOpen h name (some fn) o =
    let e : CleanupEntry = record { name = trim_space name; fn = fn } in
    record {
      closed = ground (arith, o.closed);
      called = o.called;
      names = ground (arith, o.names, o.closed, reverse-snoc h.registry.entries e);
      unique = ground (arith, o.unique, o.closed);
    }

-- A history of registrations, whatever came of each.
pub registrations : List (Name × Option Outcome) → List Call
registrations [] = []
registrations ((name, fn) ∷ rs) = register name fn ∷ registrations rs

abbrev pub start : History
start = record { registry = empty_registry; called = [] }

-- No two names are equal.
abbrev pub PairwiseDistinct : List Name → Type 0
PairwiseDistinct [] = Unit
PairwiseDistinct (n ∷ ns) = All (λ m. m ≢ n) ns × PairwiseDistinct ns

name_eq_refl : (n : Name) → name_eq n n ≡ true
name_eq_refl [] = refl
name_eq_refl (c ∷ cs) = ground (arith, ==-refl c, name_eq_refl cs)

name_eq-ne : (m n : Name) → name_eq m n ≡ false → m ≢ n
name_eq-ne m n h e = let p = subst (λ x. name_eq m x ≡ true) e (name_eq_refl m) in ground arith

has_name-distinct : (n : Name) (ns : List Name) → has_name n ns ≡ false → All (λ m. m ≢ n) ns
has_name-distinct n [] h = tt
has_name-distinct n (m ∷ ms) h =
    (name_eq-ne m n (ground arith), has_name-distinct n ms (ground arith))

Unique-distinct : (ns : List Name) → Unique ns → PairwiseDistinct ns
Unique-distinct [] u = tt
Unique-distinct (n ∷ ns) u = (has_name-distinct n ns u.0, Unique-distinct ns u.1)

-- What the registrations should leave: `valid` has the trimmed names of those with a name and a
-- function, in order, and of equal names the first one counts. The newest name stands first.
abbrev pub keep : Name → List Name → List Name
keep [] ns = ns
keep (c ∷ cs) ns = (c ∷ cs) ∷ ns

abbrev pub valid : List (Name × Option Outcome) → List Name
valid [] = []
valid ((name, none) ∷ rs) = valid rs
valid ((name, some fn) ∷ rs) = keep (trim_space name) (valid rs)

abbrev pub newest_first : List Name → List Name → List Name
newest_first seen [] = seen
newest_first seen (n ∷ ns) = newest_first (if has_name n seen then seen else n ∷ seen) ns

register-names :
    (h : History) (name : Name) (fn : Option Outcome) (rs : List (Name × Option Outcome))
    → IsOpen h
    → newest_first (call h (register name fn)).registry.names (valid rs)
      ≡ newest_first h.registry.names (valid ((name, fn) ∷ rs))
unfolding call register_cleanup
register-names h name none rs o = ground arith
register-names h name (some fn) rs o = ground (arith, o.closed)

registrations-IsOpen :
    (h : History) (rs : List (Name × Option Outcome))
    → IsOpen h
    → IsOpen (calls h (registrations rs))
      × ((calls h (registrations rs)).registry.names ≡ newest_first h.registry.names (valid rs))
unfolding calls registrations
registrations-IsOpen h [] o = (o, refl)
registrations-IsOpen h ((name, fn) ∷ rs) o =
    let r = registrations-IsOpen (call h (register name fn)) rs (register-IsOpen h name fn o) in
    (r.0, r.1 ∙ register-names h name fn rs o)

shut-called : (h : History) → IsOpen h → (call h shut).called ≡ h.registry.names
unfolding call run_cleanups
shut-called h o =
    rw o.called
      (called_names (reverse h.registry.entries) ∙ names-reverse h.registry.entries ∙ sym o.names)

-- After any registrations and one `runCleanups`, whatever further calls come, the cleanups that
-- were called are those of the registrations with a name and a function, the first for each
-- trimmed name: each once, the last registered first.
pub cleanups_called_once :
    (rs : List (Name × Option Outcome)) (later : List Call)
    → let called = (calls (call (calls start (registrations rs)) shut) later).called in
      (called ≡ newest_first [] (valid rs)) × PairwiseDistinct called
cleanups_called_once rs later =
    let h = calls start (registrations rs) in
    let o =
      registrations-IsOpen start rs
        (record { closed = refl; called = refl; names = refl; unique = tt }) in
    let called = (calls (call h shut) later).called in
    let same : called ≡ h.registry.names =
      calls-IsShut (call h shut) later (shut-IsShut h) ∙ shut-called h o.0 in
    (same ∙ o.1, Unique-distinct called (subst Unique (sym same) (o.0).unique))
