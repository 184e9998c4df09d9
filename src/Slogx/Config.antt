-- ===== src/Slogx/Config.antt =====
-- `Config` and the options of pkg/slogx/options.go, `RemovalSet` of removal.go, and the names of
-- levels of levels.go. A map is a function from its keys; a copy of one, as `Clone` makes it, is the
-- same function. The text functions, and a level's own text, are parameters.
use team_tasks.Base.{
  ℕ, ℤ, pos, negsuc, String, Bool, true, false, ◌||◌, Option, none, some, List, [], ◌∷◌, ◌++◌,
  str_eq, if◌then◌else◌,
}
use team_tasks.Slogx.Masker.{Bytes, MaskType, MaskMap, mask}

pub data Format : Type 0 where
  format_text format_json : Format

-- `RemoveMap`: is the key in the set? `LevelNames`: the name of a level, if it has one.
abbrev pub RemoveMap : Type 0
RemoveMap = String → Bool

abbrev pub LevelNames : Type 0
LevelNames = ℤ → Option String

-- `Masker`, by its method on the text of a value.
abbrev pub Masker : Type 0
Masker = Bytes → MaskType → Option Bytes

-- An output is known by a number.
pub record Config : Type 0 where
  pub level : ℤ
  pub format : Format
  pub output : ℕ
  pub mask_keys : MaskMap
  pub remove_keys : RemoveMap
  pub level_names : LevelNames
  pub masker : Masker
  pub context_keys : List String

abbrev pub level_trace : ℤ
level_trace = negsuc 7

abbrev pub level_debug : ℤ
level_debug = negsuc 3

abbrev pub level_info : ℤ
level_info = pos 0

abbrev pub level_fatal : ℤ
level_fatal = pos 12

abbrev pub level_eq : ℤ → ℤ → Bool
level_eq (pos m) (pos n) = team_tasks.Base.◌==◌ m n
level_eq (negsuc m) (negsuc n) = team_tasks.Base.◌==◌ m n
level_eq _ _ = false

-- `defaultLevelNames`
abbrev pub default_level_names : LevelNames
default_level_names l =
    if level_eq l level_trace
    then some "TRACE"
    else (if level_eq l level_fatal then some "FATAL" else none)

-- `getLevelName`, with `strings.ToUpper(l.String())` as a parameter.
unfoldable pub get_level_name : (ℤ → String) → ℤ → LevelNames → String
get_level_name upper_text l names = elim (names l) [ some name ↦ name | none ↦ upper_text l ]

-- `ParseFormat`, with `strings.ToLower` as a parameter.
unfoldable pub parse_format : (String → String) → String → Format
parse_format to_lower s = if str_eq (to_lower s) "json" then format_json else format_text

-- `RemovalSet` and its methods.
unfoldable pub add_removals : List String → List String → List String
add_removals new keys = keys ++ new

unfoldable pub remove_all : List String → RemoveMap → RemoveMap
remove_all [] keys other = keys other
remove_all (k ∷ ks) keys other = remove_all ks (λ key. str_eq key k || keys key) other

-- The assignments of a loop over a map: its entries, and behind them those that were there.
abbrev pub merge : {K V : Type 0} → (K → Option V) → (K → Option V) → K → Option V
merge new old key = elim (new key) [ some v ↦ some v | none ↦ old key ]

abbrev pub Opt : Type 0
Opt = Config → Config

unfoldable pub with_output : Option ℕ → Opt
with_output none c = c
with_output (some w) c = record c { output = w }

unfoldable pub with_format : Format → Opt
with_format f c = record c { format = f }

unfoldable pub with_level : ℤ → Opt
with_level l c = record c { level = l }

unfoldable pub with_mask_key : String → MaskType → Opt
with_mask_key key kind c = record c {
  mask_keys = λ other. if str_eq other key then some kind else c.mask_keys other;
}

unfoldable pub with_mask_keys : MaskMap → Opt
with_mask_keys keys c = record c { mask_keys = merge keys c.mask_keys }

unfoldable pub with_mask_rules : Option MaskMap → Opt
with_mask_rules none c = c
with_mask_rules (some rules) c = record c { mask_keys = merge rules c.mask_keys }

unfoldable pub with_masker : Option Masker → Opt
with_masker none c = c
with_masker (some m) c = record c { masker = m }

unfoldable pub with_removal : List String → Opt
with_removal keys c = record c { remove_keys = remove_all keys c.remove_keys }

unfoldable pub with_level_names : LevelNames → Opt
with_level_names names c = record c { level_names = merge names c.level_names }

unfoldable pub with_context_keys : List String → Opt
with_context_keys keys c = record c { context_keys = c.context_keys ++ keys }

-- `os.Stdout`
abbrev pub stdout : ℕ
stdout = 0

unfoldable pub default_options : Config
default_options = record {
  level = level_trace;
  format = format_text;
  output = stdout;
  mask_keys = λ key. none;
  remove_keys = λ key. false;
  level_names = default_level_names;
  masker = mask;
  context_keys = [];
}
