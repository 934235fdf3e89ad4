-- ===== src/Server/Cleanup.antt =====
-- zServer/cleanup.go: the registry of process resources and their release at shutdown. A name is
-- the list of its code points. A cleanup function is what one call of it does; its other effects
-- are left out. `StartBackground` registers a barrier, whose release waits for the task.
pub mod Order
use z_engine.Common.{
  leb, ◌==◌, if◌then◌else◌, ℕ, Bool, true, false, ◌&&◌, ◌||◌, Option, none, some, List, [], ◌∷◌,
  ◌++◌, reverse,
}

pub data CleanupError : Type 0 where
  name_required func_required already_registered registration_closed : CleanupError

-- What a call of a function of the application comes to.
pub data Outcome : Type 0 where
  returns fails panics : Outcome

abbrev pub Name : Type 0
Name = List ℕ

-- `unicode.IsSpace`.
unfoldable pub is_space : ℕ → Bool
is_space c =
    (leb 9 c && leb c 13)
    || c == 32
    || c == 0x85
    || c == 0xA0
    || c == 0x1680
    || (leb 0x2000 c && leb c 0x200A)
    || c == 0x2028
    || c == 0x2029
    || c == 0x202F
    || c == 0x205F
    || c == 0x3000

drop_spaces : Name → Name
drop_spaces [] = []
drop_spaces (c ∷ cs) = if is_space c then drop_spaces cs else c ∷ cs

-- `strings.TrimSpace`.
unfoldable pub trim_space : Name → Name
unfolding drop_spaces is_space
trim_space cs = reverse (drop_spaces (reverse (drop_spaces cs)))

abbrev pub name_eq : Name → Name → Bool
name_eq [] [] = true
name_eq (a ∷ as') (b ∷ bs) = a == b && name_eq as' bs
name_eq _ _ = false

abbrev pub has_name : Name → List Name → Bool
has_name n [] = false
has_name n (m ∷ ms) = name_eq m n || has_name n ms

-- `cleanupEntry`.
pub record CleanupEntry : Type 0 where
  pub name : Name
  pub fn : Outcome

-- The fields `cleanupClosed`, `cleanupNames` and `cleanups` of the server.
pub record Registry : Type 0 where
  pub closed : Bool
  pub names : List Name
  pub entries : List CleanupEntry

abbrev pub empty_registry : Registry
empty_registry = record { closed = false; names = []; entries = [] }

register_function : Registry → Name → Option Outcome → Registry × Option CleanupError
register_function r name none = (r, some func_required)
register_function r name (some fn) =
    if r.closed
    then (r, some registration_closed)
    else if has_name name r.names
    then (r, some already_registered)
    else (
      record r {
        names = name ∷ r.names;
        entries = r.entries ++ record { name = name; fn = fn } ∷ [];
      },
      none,
    )

is_empty : Name → Bool
is_empty [] = true
is_empty (c ∷ cs) = false

register_trimmed : Registry → Name → Option Outcome → Registry × Option CleanupError
unfolding register_function is_empty
register_trimmed r name fn =
    if is_empty name then (r, some name_required) else register_function r name fn

-- `RegisterCleanup`; a nil function is `none`.
unfoldable pub register_cleanup : Registry → Name → Option Outcome → Registry × Option CleanupError
unfolding register_trimmed
register_cleanup r name fn = register_trimmed r (trim_space name) fn

-- The prefix of the names of background tasks, "background:".
abbrev background_prefix : Name
background_prefix = b'b' ∷ b'a' ∷ b'c' ∷ b'k' ∷ b'g' ∷ b'r' ∷ b'o' ∷ b'u' ∷ b'n' ∷ b'd' ∷ b':' ∷ []

-- `StartBackground`: the registry, and whether the task is started.
start_task : Registry × Option CleanupError → Registry × Option CleanupError × Bool
start_task (r, none) = (r, none, true)
start_task (r, some e) = (r, some e, false)

unfoldable pub start_background : Registry → Name → Bool → Registry × Option CleanupError × Bool
unfolding start_task
start_background r name has_run =
    if has_run
    then start_task (register_cleanup r (background_prefix ++ name) (some returns))
    else (r, some func_required, false)

-- `callCleanup`: an error or a panic is an error of that entry.
abbrev pub cleanup_failed : Outcome → Bool
cleanup_failed returns = false
cleanup_failed fails = true
cleanup_failed panics = true

-- The loop of `runCleanups` over the entries, last first: the names in the order of their calls,
-- and those whose call failed.
call_cleanups : List CleanupEntry → List Name × List Name
call_cleanups [] = ([], [])
call_cleanups (e ∷ es) =
    let (called, errors) = call_cleanups es in
    (e.name ∷ called, if cleanup_failed e.fn then e.name ∷ errors else errors)

-- `runCleanups`.
pub record CleanupRun : Type 0 where
  pub registry : Registry
  pub called : List Name
  pub errors : List Name

unfoldable pub run_cleanups : Registry → CleanupRun
unfolding call_cleanups
run_cleanups r =
    let (called, errors) = call_cleanups (reverse r.entries) in
    record { registry = record r { closed = true; entries = [] }; called = called; errors = errors }
