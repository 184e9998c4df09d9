-- ===== src/Genschema/Parse.antt =====
-- `parseMigrations` and `parseSQL` of scripts/genschema/main.go. An index out of its range, at which
-- Go panics, is `none`.
pub mod Captures
pub mod Columns
pub mod Total
use team_tasks.Base.{
  ℕ, zero, suc, Bool, true, false, not, ◌||◌, ◌&&◌, Option, none, some, List, [], ◌∷◌, ◌++◌, map,
  ◌==◌, ltb, if◌then◌else◌, String,
}
use team_tasks.Domain.Errors.{Error, Result, ok, err}
use team_tasks.Action.{Action}
use team_tasks.Genschema.Text.{
  Bytes, text, to_lower, same_bytes, has_prefix, slice_to, index, split, trim_space, fields,
}
use team_tasks.Genschema.Patterns.{find_submatch, re_create_table, re_pk, re_uk, re_fk}

pub record Column : Type 0 where
  pub name : Bytes
  pub typ : Bytes
  pub pk : Bool
  pub fk : Bool
  pub uk : Bool

pub record ForeignKey : Type 0 where
  pub src_col : Bytes
  pub dst_table : Bytes

pub record Table : Type 0 where
  pub name : Bytes
  pub cols : List Column
  pub fks : List ForeignKey

-- The columns of a name, changed.
unfoldable pub mark : Bytes → (Column → Column) → List Column → List Column
mark name change [] = []
mark name change (c ∷ cs) = (if same_bytes c.name name then change c else c) ∷ mark name change cs

abbrev pub mark_pk : List Bytes → List Column → List Column
mark_pk [] cols = cols
mark_pk (c ∷ cs) cols = mark_pk cs (mark (trim_space c) (λ col. record col { pk = true }) cols)

unfoldable pub mark_pk_columns : Table → Bytes → Table
mark_pk_columns cur col_list = record cur { cols = mark_pk (split b',' col_list) cur.cols }

unfoldable pub mark_uk_column : Table → Bytes → Table
mark_uk_column cur name = record cur { cols = mark name (λ col. record col { uk = true }) cur.cols }

unfoldable pub add_fk : Table → Bytes → Bytes → Table
add_fk cur src dst = record cur {
  fks = cur.fks ++ record { src_col = src; dst_table = dst } ∷ [];
  cols = mark src (λ col. record col { fk = true }) cur.cols;
}

abbrev pub skip_prefixes : List Bytes
skip_prefixes =
    text "primary key"
    ∷ text "unique key"
    ∷ text "constraint"
    ∷ text "key "
    ∷ text "index "
    ∷ text ") engine"
    ∷ text ")"
    ∷ []

abbrev pub skip_keywords : List Bytes
skip_keywords = text "primary" ∷ text "unique" ∷ text "constraint" ∷ text "key" ∷ text "index" ∷ []

abbrev pub some_prefix : Bytes → List Bytes → Bool
some_prefix s [] = false
some_prefix s (p ∷ ps) = has_prefix s p || some_prefix s ps

abbrev pub one_of : Bytes → List Bytes → Bool
one_of s [] = false
one_of s (p ∷ ps) = same_bytes s p || one_of s ps

unfoldable pub should_skip : Bytes → Bool
should_skip lower =
    some_prefix lower skip_prefixes || same_bytes lower [] || has_prefix lower (text "--")

-- `if idx := strings.Index(t, "("); idx > 0 { t = t[:idx] }`
abbrev pub cut_arguments : Bytes → Option ℕ → Bytes
cut_arguments t (some (suc i)) = slice_to (suc i) t
cut_arguments t _ = t

abbrev pub first : List Bytes → Option Bytes
first [] = none
first (f ∷ fs) = some f

unfoldable pub normalize_type : Bytes → Option Bytes
normalize_type s = let t = to_lower s in first (fields (cut_arguments t (index t (text "("))))

abbrev pub add_column : Table → Bytes → Option Bytes → Option Table
add_column cur name none = none
add_column cur name (some typ) = some (record cur {
  cols = cur.cols ++ record { name = name; typ = typ; pk = false; fk = false; uk = false } ∷ [];
})

unfoldable pub add_column_of : Table → List Bytes → Option Table
add_column_of cur (name ∷ typ ∷ rest) =
    if one_of (to_lower name) skip_keywords
    then some cur
    else add_column cur name (normalize_type typ)
add_column_of cur _ = some cur

unfoldable pub add_column_if_valid : Table → Bytes → Option Table
add_column_if_valid cur trimmed = add_column_of cur (fields trimmed)

-- The groups of a match, by their numbers.
abbrev pub pk_line : Table → List Bytes → Option Table
pk_line cur (col_list ∷ groups) = some (mark_pk_columns cur col_list)
pk_line cur [] = none

abbrev pub uk_line : Table → List Bytes → Option Table
uk_line cur (name ∷ groups) = some (mark_uk_column cur (trim_space name))
uk_line cur [] = none

abbrev pub fk_line : Table → List Bytes → Option Table
fk_line cur (src ∷ dst ∷ groups) = some (add_fk cur (trim_space src) (trim_space dst))
fk_line cur _ = none

abbrev pub plain_line : Table → Bytes → Bytes → Option Table
plain_line cur trimmed lower =
    if not (should_skip lower) then add_column_if_valid cur trimmed else some cur

-- The three `if m := …; m != nil`, by the matches that they test.
abbrev pub else_fk : Table → Bytes → Bytes → Option (List Bytes) → Option Table
else_fk cur trimmed lower (some m) = fk_line cur m
else_fk cur trimmed lower none = plain_line cur trimmed lower

abbrev pub else_uk : Table → Bytes → Bytes → Option (List Bytes) → Option Table
else_uk cur trimmed lower (some m) = uk_line cur m
else_uk cur trimmed lower none = else_fk cur trimmed lower (find_submatch re_fk trimmed)

abbrev pub else_pk : Table → Bytes → Bytes → Option (List Bytes) → Option Table
else_pk cur trimmed lower (some m) = pk_line cur m
else_pk cur trimmed lower none = else_uk cur trimmed lower (find_submatch re_uk trimmed)

unfoldable pub process_table_line : Table → Bytes → Bytes → Option Table
process_table_line cur trimmed lower = else_pk cur trimmed lower (find_submatch re_pk trimmed)

-- `tables` and `cur`; `inTable` is true exactly where there is a current table.
pub record Parser : Type 0 where
  pub tables : List Table
  pub cur : Option Table

abbrev pub opened : Parser → List Bytes → Option Parser
opened p (name ∷ groups) =
    some (record p { cur = some (record { name = name; cols = []; fks = [] }) })
opened p [] = none

abbrev pub continued : Parser → Option Table → Option Parser
continued p none = none
continued p (some t) = some (record p { cur = some t })

abbrev pub inside : Parser → Option Table → Bytes → Bytes → Option Parser
inside p none trimmed lower = some p
inside p (some cur) trimmed lower =
    if has_prefix lower (text ")")
    then some (record { tables = p.tables ++ cur ∷ []; cur = none })
    else continued p (process_table_line cur trimmed lower)

abbrev pub else_create : Parser → Bytes → Option (List Bytes) → Option Parser
else_create p trimmed (some m) = opened p m
else_create p trimmed none = inside p p.cur trimmed (to_lower trimmed)

-- The body of the loop over the lines.
unfoldable pub parse_line : Parser → Bytes → Option Parser
parse_line p raw =
    let trimmed = trim_space raw in else_create p trimmed (find_submatch re_create_table trimmed)

abbrev pub go_on : (Parser → Option (List Table)) → Option Parser → Option (List Table)
go_on rest none = none
go_on rest (some p) = rest p

unfoldable pub parse_lines : Parser → List Bytes → Option (List Table)
parse_lines p [] = some p.tables
parse_lines p (raw ∷ lines) = go_on (λ q. parse_lines q lines) (parse_line p raw)

unfoldable pub parse_sql : Bytes → Option (List Table)
parse_sql sql = parse_lines (record { tables = []; cur = none }) (split b'\n' sql)
