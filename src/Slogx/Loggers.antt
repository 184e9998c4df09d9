-- ===== src/Slogx/Loggers.antt =====
-- `Logger` of pkg/slogx/logger.go with the pointers that its loggers share, and context.go.
pub mod Sharing
mod Tests
use team_tasks.Base.{
  ℕ, suc, ℤ, String, Option, none, some, List, [], ◌∷◌, ◌++◌, ◌==◌, if◌then◌else◌, str_eq,
}
use team_tasks.Domain.Errors.{Error}
use team_tasks.Slogx.Config.{Config, Opt, level_trace, level_fatal}
use team_tasks.Slogx.Handler.{Attr, string_value, Derived, with_attrs, with_group}
use team_tasks.Slogx.Logger.{new_config}
use team_tasks.Slogx.Clone.{Shared, Heap, Edit, assign_level, view, put, alloc, updated_copy}

-- `slog.Handler`: a `DynamicHandler` by the pointer to its configuration and its other fields, or a
-- handler of the library, by a number.
pub data AnyHandler : Type 0 where
  dynamic : ℕ → Derived → AnyHandler
  library : ℕ → AnyHandler

-- `Logger`, where the pointer can be nil.
pub record Logger : Type 0 where
  pub handler : AnyHandler
  pub cfg_ptr : Option ℕ

-- What the atomic pointers hold, the next one, and the handler of `slog.Default()`.
pub record Runtime : Type 0 where
  pub heap : Heap
  pub cells : ℕ → Shared
  pub next_cell : ℕ
  pub default_handler : AnyHandler

unfoldable pub new : List (Option Opt) → Runtime → Logger × Runtime
new opts rt =
    let (c, h) = alloc (new_config opts) rt.heap in
    let p = rt.next_cell in
    (
      record { handler = dynamic p (record { attrs = []; groups = [] }); cfg_ptr = some p },
      record rt { heap = h; cells = put p c rt.cells; next_cell = suc p },
    )

unfoldable pub setup_default : List (Option Opt) → Runtime → Runtime
setup_default opts rt = let (l, r) = new opts rt in record r { default_handler = l.handler }

-- The handlers that the library derives from its own.
pub record LibraryHandlers : Type 0 where
  pub attrs : List Attr → ℕ → ℕ
  pub group : String → ℕ → ℕ

module _ (lib : LibraryHandlers) where
  abbrev pub handler_with : List Attr → AnyHandler → AnyHandler
  handler_with new (dynamic p d) = dynamic p (with_attrs new d)
  handler_with new (library n) = library (lib.attrs new n)

  abbrev pub handler_group : String → AnyHandler → AnyHandler
  handler_group name (dynamic p d) = dynamic p (with_group name d)
  handler_group name (library n) = library (lib.group name n)

  -- `With`, where the arguments are attributes; `slog.Logger` keeps its handler without any.
  unfoldable pub with_args : List Attr → Logger → Logger
  with_args [] l = l
  with_args (a ∷ more) l = record l { handler = handler_with (a ∷ more) l.handler }

  -- `WithGroup`; `slog.Logger` keeps its handler for an empty name.
  unfoldable pub logger_group : String → Logger → Logger
  logger_group name l =
      if str_eq name "" then l else record l { handler = handler_group name l.handler }

-- `UpdateConfig` when no other call comes in between; at a nil pointer it panics.
abbrev pub update_at : List Edit → Runtime → Option ℕ → Option Runtime
update_at es rt none = none
update_at es rt (some p) =
    let (c, h) = updated_copy es (rt.cells p) rt.heap in
    some (record rt { heap = h; cells = put p c rt.cells })

unfoldable pub update_shared : List Edit → Logger → Runtime → Option Runtime
update_shared es l rt = update_at es rt l.cfg_ptr

-- `SetLevel`
unfoldable pub set_shared_level : ℤ → Logger → Runtime → Option Runtime
set_shared_level l = update_shared (assign_level l ∷ [])

-- `FromContext` and `ToContext`, on the value of `ctxKey{}` in a context.
unfoldable pub from_context : Option Logger → Runtime → Logger
from_context (some l) rt = l
from_context none rt = record { handler = rt.default_handler; cfg_ptr = none }

unfoldable pub to_context : Option Logger → Logger → Option Logger
to_context ctx l = some l

-- `slog.Logger.Log` and `os.Exit`
pub record Process (W : Type 0) : Type 0 where
  pub log : AnyHandler → ℤ → String → List Attr → W → W
  pub exit : ℕ → W → W

module _ {W : Type 0} (process : Process W) where
  unfoldable pub trace_context : Logger → String → List Attr → W → W
  trace_context l msg args w = process.log l.handler level_trace msg args w

  unfoldable pub fatal_context : Logger → String → List Attr → W → W
  fatal_context l msg args w = process.exit 1 (process.log l.handler level_fatal msg args w)

-- `Err`, with the text of an error as a parameter.
unfoldable pub err_attr : (Error → String) → Option Error → Attr
err_attr text none = record { key = "error"; value = string_value "nil" }
err_attr text (some e) = record { key = "error"; value = string_value (text e) }
