-- ===== src/Genschema/Main.antt =====
-- `main` of scripts/genschema/main.go.
pub mod Ends
use team_tasks.Base.{Option, none, some, List, String}
use team_tasks.Domain.Errors.{Error, Result, ok, err}
use team_tasks.Action.{⊤}
use team_tasks.Genschema.Parse.{Table}
use team_tasks.Genschema.Diagram.{mermaid_erd}
use team_tasks.Genschema.Patch.{Files, parse_migrations, patch_readme}

-- Status 1 after a message on standard error, or the message of success.
pub data Ending : Type 0 where
  panicked updated : Ending
  failed : String → Error → Ending

module _ {W : Type 0} (fs : Files W) where
  abbrev pub patched_or : Result ⊤ × W → Ending × W
  patched_or (ok _, w) = (updated, w)
  patched_or (err e, w) = (failed "genschema: patch readme: " e, w)

  abbrev pub drawn : Option (Result (List Table)) → W → Ending × W
  drawn none w = (panicked, w)
  drawn (some (err e)) w = (failed "genschema: parse migrations: " e, w)
  drawn (some (ok tables)) w = patched_or (patch_readme fs "README.md" (mermaid_erd tables) w)

  unfoldable pub main : (List String → List String) → W → Ending × W
  main sort w = let (tables, v) = parse_migrations fs sort "migrations/*.up.sql" w in drawn tables v
