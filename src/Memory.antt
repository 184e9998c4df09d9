-- ===== src/Memory.antt =====
-- Storages in memory, which meet the laws that the services rely on: the concrete instances at which
-- the theorems are applied. They model no code of the repository.
pub mod Tasks
pub mod Teams
pub mod Comments
pub mod Users
pub mod Sessions
pub mod Database
pub mod Fixtures
pub mod Order
use team_tasks.Base.{
  ℕ, ℤ, zero, suc, pos, String, Option, none, some, List, [], ◌∷◌, ◌++◌, ◌≡◌, refl, arith, length,
  str_eq, if◌then◌else◌,
}
use team_tasks.Domain.{Time, Task, TaskHistory, Role}
use team_tasks.Domain.Ids.{Uuid}
use team_tasks.Domain.Errors.{Error, Result, ok, err, sentinel, not_found, cache_miss, plain}
use team_tasks.Action.{⊤, Action}
use team_tasks.Platform.{Platform}
use team_tasks.Store.{Tables, Found, Answered, role_of, find_task, update_task}
use team_tasks.Task.Diff.{Formats}

pub record World : Type 0 where
  pub tables : Tables
  pub cache : List (String × List ℕ)
  pub ticks : ℕ

-- A text for an identifier: each byte in unary, then a dash.
abbrev pub tally : ℕ → String → String
tally zero rest = String.◌∷◌ "-" rest
tally (suc n) rest = String.◌∷◌ "x" (tally n rest)

abbrev pub tallies : List ℕ → String
tallies [] = ""
tallies (n ∷ ns) = tally n (tallies ns)

abbrev pub formats : Formats
formats = record { uuid_string = λ id. tallies id.bytes; format_day = λ t. tally t "" }

-- Identifiers and times come from one counter.
abbrev pub platform : Platform World
platform = record {
  new_uuid = λ w. (ok (record { bytes = suc w.ticks ∷ [] }), record w { ticks = suc w.ticks });
  now = λ w. (w.ticks, w);
  formats = formats;
}

-- A lookup that reports `ErrNotFound`.
abbrev pub or_not_found : {A : Type 0} → Option A → Result A
or_not_found none = err (sentinel not_found)
or_not_found (some a) = ok a

pub or_not_found-Found : {A : Type 0} (o : Option A) → Found o (or_not_found o)
or_not_found-Found none = λ e. refl
or_not_found-Found (some a) = refl

pub or_not_found-Answered : {A : Type 0} (o : Option A) → Answered (or_not_found o)
or_not_found-Answered none = refl
or_not_found-Answered (some a) = tt

abbrev pub look : {A : Type 0} → (Tables → Option A) → Action World A
look find w = (or_not_found (find w.tables), w)

abbrev pub write : (Tables → Tables) → Action World ⊤
write change w = (ok tt, record w { tables = change w.tables })

abbrev pub entry_of : String → List (String × List ℕ) → Option (List ℕ)
entry_of key [] = none
entry_of key ((k, b) ∷ c) = if str_eq key k then some b else entry_of key c
