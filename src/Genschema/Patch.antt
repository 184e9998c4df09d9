-- ===== src/Genschema/Patch.antt =====
-- `patchReadme` and the reading of the migrations of scripts/genschema/main.go, over the file system
-- as a parameter.
pub mod Index
pub mod Markers
pub mod Again
use Prim.Native.String as String
use team_tasks.Base.{
  ℕ, ◌+◌, ltb, not, Option, none, some, List, [], ◌∷◌, ◌++◌, length, String, if◌then◌else◌,
}
use team_tasks.Domain.Errors.{Error, plain, Result, ok, err}
use team_tasks.Action.{⊤, Action}
use team_tasks.Genschema.Text.{Bytes, text, index, slice_to, slice_from}
use team_tasks.Genschema.Parse.{Table, parse_sql}

abbrev pub start_marker : Bytes
start_marker = text "<!-- schema:start -->"

abbrev pub end_marker : Bytes
end_marker = text "<!-- schema:end -->"

-- The new text between the markers at `si` and `ei`, if they stand in this order.
abbrev pub patch_at : Bytes → Bytes → Option ℕ → Option ℕ → Option Bytes
patch_at src content (some si) (some ei) =
    if ltb si ei
    then some (
        slice_to (si + length start_marker) src
        ++ (text "\n" ++ (content ++ (text "\n" ++ slice_from ei src))))
    else none
patch_at src content _ _ = none

unfoldable pub patch : Bytes → Bytes → Option Bytes
patch src content = patch_at src content (index src start_marker) (index src end_marker)

-- `filepath.Glob`, `os.ReadFile` and `os.WriteFile`
pub record Files (W : Type 0) : Type 0 where
  pub glob : String → Action W (List String)
  pub read : String → Action W Bytes
  pub write : String → Bytes → Action W ⊤

-- `fmt.Errorf("markers %q / %q not found in %s", startMarker, endMarker, path)`
abbrev pub markers_not_found : String → String
markers_not_found path =
    String.◌++◌ "markers \"<!-- schema:start -->\" / \"<!-- schema:end -->\" not found in " path

module _ {W : Type 0} (fs : Files W) where
  abbrev pub written : String → Option Bytes → Action W ⊤
  written path none w = (err (plain (markers_not_found path)), w)
  written path (some patched) w = fs.write path patched w

  abbrev pub patched : String → Bytes → Result Bytes → Action W ⊤
  patched path content (ok src) w = written path (patch src content) w
  patched path content (err e) w = (err e, w)

  unfoldable pub patch_readme : String → Bytes → Action W ⊤
  patch_readme path content w = let (src, v) = fs.read path w in patched path content src v

  -- The tables of the files read so far, then those of the others; a panic is `none`.
  abbrev pub joined : List Table → Option (List Table) → Option (List Table)
  joined out none = none
  joined out (some tables) = some (out ++ tables)

  abbrev pub Read : Type 0
  Read = Option (Result (List Table)) × W

  abbrev pub read_into : (List Table → W → Read) → Option (List Table) → W → Read
  read_into rest none v = (none, v)
  read_into rest (some tables) v = rest tables v

  abbrev pub after_read : (List Table → W → Read) → List Table → Result Bytes → W → Read
  after_read rest out (err e) v = (some (err e), v)
  after_read rest out (ok sql) v = read_into rest (joined out (parse_sql sql)) v

  unfoldable pub parse_files : List String → List Table → W → Read
  parse_files [] out w = (some (ok out), w)
  parse_files (f ∷ files) out w =
      let (content, v) = fs.read f w in after_read (parse_files files) out content v

  abbrev pub after_glob : (List String → List String) → Result (List String) → W → Read
  after_glob sort (err e) v = (some (err e), v)
  after_glob sort (ok files) v = parse_files (sort files) [] v

  -- `sort` is `sort.Strings`
  unfoldable pub parse_migrations : (List String → List String) → String → W → Read
  parse_migrations sort pattern w = let (files, v) = fs.glob pattern w in after_glob sort files v
