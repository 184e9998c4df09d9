-- ===== src/Slogx/Loggers/Tests.antt =====
-- A logger that is made, derived and set to another level.
use team_tasks.Base.{false, none, some, [], ◌∷◌, ◌≡◌, arith}
use team_tasks.Slogx.Masker.{mask}
use team_tasks.Slogx.Config.{format_text, level_debug, level_info, with_level}
use team_tasks.Slogx.Clone.{Shared, Heap, assign_level, put_removal}
use team_tasks.Slogx.Loggers.{Runtime, LibraryHandlers, library, new, update_shared}
use team_tasks.Slogx.Loggers.Sharing.{
  IsRuntime, Started, new-Started, derive, group, Shares, update_shared-Shares,
}

abbrev heap : Heap
heap = record {
  masks = λ a key. none;
  removals = λ a key. false;
  names = λ a l. none;
  keys = λ a. [];
  free = 0;
}

abbrev shared : Shared
shared = record {
  level = level_info;
  format = format_text;
  output = 0;
  mask_keys = 0;
  remove_keys = 0;
  level_names = 0;
  masker = mask;
  context_keys = 0;
}

abbrev empty : Runtime
empty = record { heap = heap; cells = λ p. shared; next_cell = 0; default_handler = library 0 }

empty-IsRuntime : IsRuntime empty
empty-IsRuntime p below = absurd (omega arith)

abbrev handlers : LibraryHandlers
handlers = record { attrs = λ new n. n; group = λ name n. n }

started :
    Started
      (some (with_level level_info) ∷ [])
      empty
      (new (some (with_level level_info) ∷ []) empty)
started = new-Started (some (with_level level_info) ∷ []) empty empty-IsRuntime

update_shared-Shares_example :
    let (l, rt) = new (some (with_level level_info) ∷ []) empty in
    (rt' : Runtime) × (update_shared
        (assign_level level_debug ∷ put_removal "pin" ∷ [])
        (derive handlers (group "http" ∷ []) l)
        rt
      ≡ some rt')
    × Shares handlers (assign_level level_debug ∷ put_removal "pin" ∷ []) 0 l rt rt'
update_shared-Shares_example =
    let (l, rt) = new (some (with_level level_info) ∷ []) empty in
    update_shared-Shares handlers (assign_level level_debug ∷ put_removal "pin" ∷ [])
      (group "http" ∷ []) 0 l rt started.well_formed started.known started.own
