-- ===== src/Slogx/Logger.antt =====
-- `New`, `UpdateConfig` and `SetLevel` of pkg/slogx/logger.go, and `New` of pkg/logger/logger.go.
use team_tasks.Base.{ℕ, ℤ, String, Option, none, some, List, [], ◌∷◌, str_eq, if◌then◌else◌}
use team_tasks.Slogx.Config.{
  Config, Opt, default_options, format_text, format_json, level_debug, level_info, with_output,
  with_format, with_level, with_removal, add_removals, with_context_keys,
}

-- `for _, fn := range opts { if fn != nil { fn(o) } }`
unfoldable pub apply_options : List (Option Opt) → Config → Config
apply_options [] c = c
apply_options (none ∷ opts) c = apply_options opts c
apply_options (some f ∷ opts) c = apply_options opts (f c)

-- The configuration of a new logger.
unfoldable pub new_config : List (Option Opt) → Config
new_config opts = apply_options opts default_options

-- The discarding output.
abbrev pub discard : ℕ
discard = 1

unfoldable pub new_nop : Config
new_nop = new_config (some (with_output (some discard)) ∷ [])

-- `UpdateConfig`, when no other call comes in between.
unfoldable pub update_config : (Config → Config) → Config → Config
update_config f c = f c

unfoldable pub set_level : ℤ → Config → Config
set_level l = update_config (λ c. record c { level = l })

-- `logger.New(env)`
unfoldable pub service_config : String → Config
service_config env =
    let prod = str_eq env "prod" in
    new_config (
      some (with_output none)
      ∷ some (with_format (if prod then format_json else format_text))
      ∷ some (with_level (if prod then level_info else level_debug))
      ∷ some (
          with_removal (
            add_removals ("secret" ∷ [])
              (add_removals ("token" ∷ []) (add_removals ("password" ∷ []) []))))
      ∷ some (with_context_keys ("request_id" ∷ "trace_id" ∷ []))
      ∷ [])
