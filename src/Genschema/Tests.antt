-- ===== src/Genschema/Tests.antt =====
-- A migration that is read, drawn and put into a text twice.
use team_tasks.Base.{true, false, some, [], ◌∷◌, ◌≡◌, refl, if◌then◌else◌, str_eq, arith}
use team_tasks.Genschema.Text.{Bytes, text, to_lower, split, trim_space, fields}
use team_tasks.Genschema.Patterns.{match_here, find_submatch}
use team_tasks.Genschema.Parse.{
  Table, parse_sql, parse_lines, parse_line, process_table_line, add_column_if_valid, add_column_of,
  should_skip, normalize_type, mark, mark_pk_columns, mark_uk_column, add_fk,
}
use team_tasks.Domain.Errors.{ok}
use team_tasks.Genschema.Diagram.{mermaid_erd}
use team_tasks.Genschema.Patch.{Files, patch}
use team_tasks.Genschema.Patch.Index.{IsFree}
use team_tasks.Genschema.Patch.Again.{patch-patch}
use team_tasks.Genschema.Main.{main}
use team_tasks.Genschema.Main.Ends.{IsFiles, Ended, main-Ended}

abbrev migration : Bytes
migration =
    text
      "CREATE TABLE IF NOT EXISTS team_members (\n    team_id   BINARY(16) NOT NULL,\n    role      ENUM('owner','admin','member') NOT NULL,\n    PRIMARY KEY (team_id, user_id),\n    UNIQUE KEY uq_role (role),\n    CONSTRAINT fk_team FOREIGN KEY (team_id) REFERENCES teams (id)\n) ENGINE=InnoDB;"

abbrev team_members : Table
team_members = record {
  name = text "team_members";
  cols =
      record { name = text "team_id"; typ = text "binary"; pk = true; fk = true; uk = false }
      ∷ record { name = text "role"; typ = text "enum"; pk = false; fk = false; uk = true }
      ∷ [];
  fks = record { src_col = text "team_id"; dst_table = text "teams" } ∷ [];
}

parse_migration : parse_sql migration ≡ some (team_members ∷ [])
unfolding text parse_sql parse_lines parse_line process_table_line add_column_if_valid add_column_of
    should_skip normalize_type mark mark_pk_columns mark_uk_column add_fk match_here find_submatch
    to_lower split trim_space fields
parse_migration = refl

draw_migration :
    mermaid_erd (team_members ∷ [])
    ≡ text
        "```mermaid\nerDiagram\n    team_members {\n        binary team_id PK,FK\n        enum role UK\n    }\n    teams ||--o{ team_members : \"team_id\"\n```"
unfolding text mermaid_erd
draw_migration = refl

-- A README with both markers, and files that are this README and one migration.
abbrev readme : Bytes
readme = text "# Schema\n<!-- schema:start -->\nold\n<!-- schema:end -->\n"

abbrev files : Files Bytes
files = record {
  glob = λ pattern w. (ok ("migrations/000001.up.sql" ∷ []), w);
  read = λ path w. (ok (if str_eq path "README.md" then w else migration), w);
  write = λ path new w. (ok tt, if str_eq path "README.md" then new else w);
}

files-IsFiles : IsFiles files
files-IsFiles = record { glob_keeps = λ pattern w. refl; read_keeps = λ path w. refl }

patch_new :
    patch readme (text "new")
    ≡ some (text "# Schema\n<!-- schema:start -->\nnew\n<!-- schema:end -->\n")
unfolding text patch
patch_new = refl

new-IsFree : IsFree (text "new")
unfolding text
new-IsFree = omega arith

patch-patch_example :
    patch (text "# Schema\n<!-- schema:start -->\nnew\n<!-- schema:end -->\n") (text "newer")
    ≡ patch readme (text "newer")
patch-patch_example = patch-patch readme (text "new") (text "newer") _ new-IsFree patch_new

main-Ended_example : Ended files (λ names. names) readme (main files (λ names. names) readme)
main-Ended_example = main-Ended files files-IsFiles (λ names. names) readme
