-- ===== src/Slogx/Handler.antt =====
-- `DynamicHandler` of pkg/slogx/handler.go: what it does to an attribute, the chain of handlers that
-- it builds, and the derived handlers. The handlers of log/slog are parameters.
use team_tasks.Base.{
  ℕ, ℤ, leb_ℤ, String, Bool, Option, none, some, List, [], ◌∷◌, ◌++◌, str_eq, if◌then◌else◌,
}
use team_tasks.Slogx.Masker.{Bytes, MaskType}
use team_tasks.Slogx.Config.{Config, Format, format_text, format_json, get_level_name}

-- `slog.Value` without the kind group, by what the code tells apart: a level, and any other value by
-- its text. log/slog calls `ReplaceAttr` on the attributes within a group and not on the group
-- itself. A text that is set is a value of its own.
pub data LogValue : Type 0 where
  level_value : ℤ → LogValue
  any_value : Bytes → LogValue
  string_value : String → LogValue

pub record Attr : Type 0 where
  pub key : String
  pub value : LogValue

-- What `ReplaceAttr` gives back: the zero attribute, which log/slog leaves out, an attribute, or a
-- panic of the masker.
pub data Replaced : Type 0 where
  removed : Replaced
  kept : Attr → Replaced
  panicked : Replaced

-- `fmt.Sprintf("%v", value)`, and the text of a level in capitals.
pub record Texts : Type 0 where
  pub sprint : LogValue → Bytes
  pub upper_level : ℤ → String

abbrev pub masked_as : Attr → Option Bytes → Replaced
masked_as a none = panicked
masked_as a (some b) = kept (record a { value = any_value b })

-- `if a.Key == slog.LevelKey { … }`
abbrev pub name_level : Texts → Config → Attr → LogValue → Replaced
name_level lib cfg a (level_value l) =
    kept (record a { value = string_value (get_level_name lib.upper_level l cfg.level_names) })
name_level lib cfg a _ = kept a

abbrev pub mask_attr : Texts → Config → Attr → Option MaskType → Replaced
mask_attr lib cfg a (some kind) = masked_as a (cfg.masker (lib.sprint a.value) kind)
mask_attr lib cfg a none = if str_eq a.key "level" then name_level lib cfg a a.value else kept a

unfoldable pub replace_attr : Texts → Config → Attr → Replaced
replace_attr lib cfg a =
    if cfg.remove_keys a.key then removed else mask_attr lib cfg a (cfg.mask_keys a.key)

-- The handlers of log/slog, over the function that replaces attributes.
pub record Slog (H : Type 0) : Type 0 where
  pub json_handler : ℕ → ℤ → (Attr → Replaced) → H
  pub text_handler : ℕ → ℤ → (Attr → Replaced) → H
  pub with_attrs : List Attr → H → H
  pub with_group : String → H → H

-- The fields of a handler that do not change.
pub record Derived : Type 0 where
  pub attrs : List Attr
  pub groups : List String

-- `Enabled`
unfoldable pub enabled : Config → ℤ → Bool
enabled cfg level = leb_ℤ cfg.level level

-- `WithAttrs` and `WithGroup`
unfoldable pub with_attrs : List Attr → Derived → Derived
with_attrs new d = record d { attrs = d.attrs ++ new }

unfoldable pub with_group : String → Derived → Derived
with_group name d = record d { groups = d.groups ++ name ∷ [] }

module _ {H : Type 0} (slog : Slog H) (lib : Texts) where
  abbrev pub base_handler : Config → Format → H
  base_handler cfg format_json = slog.json_handler cfg.output cfg.level (replace_attr lib cfg)
  base_handler cfg format_text = slog.text_handler cfg.output cfg.level (replace_attr lib cfg)

  -- `if len(…) > 0 { base = base.WithAttrs(…) }`
  abbrev pub add_attrs : List Attr → H → H
  add_attrs [] h = h
  add_attrs (a ∷ more) h = slog.with_attrs (a ∷ more) h

  abbrev pub add_groups : List String → H → H
  add_groups [] h = h
  add_groups (g ∷ gs) h = add_groups gs (slog.with_group g h)

  -- `getOrBuildCachedHandler` where it builds.
  unfoldable pub build : Config → Derived → H
  build cfg d = add_groups d.groups (add_attrs d.attrs (base_handler cfg cfg.format))

-- The attributes of `Handle` from the context, whose values are a parameter.
unfoldable pub context_attrs : (String → Option LogValue) → List String → List Attr
context_attrs value [] = []
context_attrs value (key ∷ keys) =
    let rest = context_attrs value keys in
    elim (value key) [ none ↦ rest | some v ↦ record { key = key; value = v } ∷ rest ]
