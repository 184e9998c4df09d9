-- ===== src/Genschema/Diagram.antt =====
-- `mermaidERD` of scripts/genschema/main.go. The name of a column has nothing for `%q` to escape: it
-- is a word that the parser has captured.
use team_tasks.Base.{Bool, true, false, List, [], ◌∷◌, ◌++◌}
use team_tasks.Genschema.Text.{Bytes, text}
use team_tasks.Genschema.Parse.{Column, ForeignKey, Table}

-- By `pk`, `fk` and `uk`.
abbrev pub attribute : Bool → Bool → Bool → Bytes
attribute true true uk = text " PK,FK"
attribute true false uk = text " PK"
attribute false true uk = text " FK"
attribute false false true = text " UK"
attribute false false false = []

abbrev pub column_lines : List Column → Bytes
column_lines [] = []
column_lines (c ∷ cs) =
    text "        "
    ++ (c.typ
        ++ (text " " ++ (c.name ++ (attribute c.pk c.fk c.uk ++ (text "\n" ++ column_lines cs)))))

abbrev pub table_blocks : List Table → Bytes
table_blocks [] = []
table_blocks (t ∷ ts) =
    text "    "
    ++ (t.name ++ (text " {\n" ++ (column_lines t.cols ++ (text "    }\n" ++ table_blocks ts))))

abbrev pub edges_of : Bytes → List ForeignKey → Bytes
edges_of name [] = []
edges_of name (k ∷ ks) =
    text "    "
    ++ (k.dst_table
        ++ (text " ||--o{ "
            ++ (name ++ (text " : \"" ++ (k.src_col ++ (text "\"\n" ++ edges_of name ks))))))

abbrev pub edges : List Table → Bytes
edges [] = []
edges (t ∷ ts) = edges_of t.name t.fks ++ edges ts

unfoldable pub mermaid_erd : List Table → Bytes
mermaid_erd tables =
    text "```mermaid\nerDiagram\n" ++ (table_blocks tables ++ (edges tables ++ text "```"))
