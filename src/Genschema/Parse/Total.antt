-- ===== src/Genschema/Parse/Total.antt =====
-- No index of the parser is out of its range.
use team_tasks.Base.{
  Option, none, some, List, [], ◌∷◌, ◌++◌, ◌≡◌, inl, inr, refl, arith, Bool-cases, length, All,
}
use team_tasks.Genschema.Text.{Bytes, text, to_lower, has_prefix, split, trim_space, fields}
use team_tasks.Genschema.Patterns.{re_create_table, re_pk, re_uk, re_fk}
use team_tasks.Genschema.Parse.{
  Table, Parser, normalize_type, add_column, add_column_of, add_column_if_valid, pk_line, uk_line,
  fk_line, plain_line, process_table_line, should_skip, one_of, skip_keywords, opened, continued,
  inside, else_fk, else_uk, else_pk, else_create, go_on, parse_line, parse_lines, parse_sql,
}
use team_tasks.Genschema.Parse.Captures.{Captures, find_submatch-Captures}
use team_tasks.Genschema.Parse.Columns.{IsSome, IsField, fields-IsField, normalize_type-IsSome}

add_column-IsSome :
    (cur : Table) (name : Bytes) (o : Option Bytes) → IsSome o → IsSome (add_column cur name o)
add_column-IsSome cur name none (a, e) = cc
add_column-IsSome cur name (some typ) h = (_, refl)

add_column_of-IsSome :
    (cur : Table) (fs : List Bytes) → All IsField fs → IsSome (add_column_of cur fs)
unfolding add_column_of
add_column_of-IsSome cur [] h = (cur, refl)
add_column_of-IsSome cur (name ∷ []) h = (cur, refl)
add_column_of-IsSome cur (name ∷ typ ∷ rest) h =
    elim (Bool-cases (one_of (to_lower name) skip_keywords)) [
      | inl keyword ↦ (cur, rw keyword refl)
      | inr column ↦
          let (t, e) =
            add_column-IsSome cur name (normalize_type typ) (normalize_type-IsSome typ h.1.0) in
          (t, rw column e)
    ]

plain_line-IsSome :
    (cur : Table) (trimmed lowered : Bytes) → IsSome (plain_line cur trimmed lowered)
unfolding add_column_if_valid
plain_line-IsSome cur trimmed lowered =
    let (t, e) = add_column_of-IsSome cur (fields trimmed) (fields-IsField trimmed) in
    elim (Bool-cases (should_skip lowered)) [
      | inl skipped ↦ (cur, rw skipped refl)
      | inr kept ↦ (t, rw kept e)
    ]

pk_line-IsSome : (cur : Table) (m : List Bytes) → length m ≡ 1 → IsSome (pk_line cur m)
pk_line-IsSome cur [] h = absurd (omega arith)
pk_line-IsSome cur (c ∷ m) h = (_, refl)

uk_line-IsSome : (cur : Table) (m : List Bytes) → length m ≡ 1 → IsSome (uk_line cur m)
uk_line-IsSome cur [] h = absurd (omega arith)
uk_line-IsSome cur (c ∷ m) h = (_, refl)

fk_line-IsSome : (cur : Table) (m : List Bytes) → length m ≡ 2 → IsSome (fk_line cur m)
fk_line-IsSome cur [] h = absurd (omega arith)
fk_line-IsSome cur (c ∷ []) h = absurd (omega arith)
fk_line-IsSome cur (c ∷ d ∷ m) h = (_, refl)

opened-IsSome : (p : Parser) (m : List Bytes) → length m ≡ 1 → IsSome (opened p m)
opened-IsSome p [] h = absurd (omega arith)
opened-IsSome p (c ∷ m) h = (_, refl)

else_fk-IsSome :
    (cur : Table) (trimmed lowered : Bytes) (o : Option (List Bytes))
    → Captures 2 o
    → IsSome (else_fk cur trimmed lowered o)
else_fk-IsSome cur trimmed lowered (some m) h = fk_line-IsSome cur m h
else_fk-IsSome cur trimmed lowered none h = plain_line-IsSome cur trimmed lowered

else_uk-IsSome :
    (cur : Table) (trimmed lowered : Bytes) (o : Option (List Bytes))
    → Captures 1 o
    → IsSome (else_uk cur trimmed lowered o)
else_uk-IsSome cur trimmed lowered (some m) h = uk_line-IsSome cur m h
else_uk-IsSome cur trimmed lowered none h =
    else_fk-IsSome cur trimmed lowered _ (find_submatch-Captures re_fk trimmed)

else_pk-IsSome :
    (cur : Table) (trimmed lowered : Bytes) (o : Option (List Bytes))
    → Captures 1 o
    → IsSome (else_pk cur trimmed lowered o)
else_pk-IsSome cur trimmed lowered (some m) h = pk_line-IsSome cur m h
else_pk-IsSome cur trimmed lowered none h =
    else_uk-IsSome cur trimmed lowered _ (find_submatch-Captures re_uk trimmed)

process_table_line-IsSome :
    (cur : Table) (trimmed lowered : Bytes) → IsSome (process_table_line cur trimmed lowered)
unfolding process_table_line
process_table_line-IsSome cur trimmed lowered =
    else_pk-IsSome cur trimmed lowered _ (find_submatch-Captures re_pk trimmed)

continued-IsSome : (p : Parser) (o : Option Table) → IsSome o → IsSome (continued p o)
continued-IsSome p none (t, e) = cc
continued-IsSome p (some t) h = (_, refl)

inside-IsSome :
    (p : Parser) (o : Option Table) (trimmed lowered : Bytes) → IsSome (inside p o trimmed lowered)
inside-IsSome p none trimmed lowered = (p, refl)
inside-IsSome p (some cur) trimmed lowered =
    let (q, e) = continued-IsSome p _ (process_table_line-IsSome cur trimmed lowered) in
    elim (Bool-cases (has_prefix lowered (text ")"))) [
      | inl closing ↦ (record { tables = p.tables ++ cur ∷ []; cur = none }, rw closing refl)
      | inr going ↦ (q, rw going e)
    ]

else_create-IsSome :
    (p : Parser) (trimmed : Bytes) (o : Option (List Bytes))
    → Captures 1 o
    → IsSome (else_create p trimmed o)
else_create-IsSome p trimmed (some m) h = opened-IsSome p m h
else_create-IsSome p trimmed none h = inside-IsSome p p.cur trimmed (to_lower trimmed)

parse_line-IsSome : (p : Parser) (raw : Bytes) → IsSome (parse_line p raw)
unfolding parse_line
parse_line-IsSome p raw =
    else_create-IsSome p (trim_space raw) _
      (find_submatch-Captures re_create_table (trim_space raw))

go_on-IsSome :
    (rest : Parser → Option (List Table)) (o : Option Parser)
    → IsSome o
    → ((p : Parser) → IsSome (rest p))
    → IsSome (go_on rest o)
go_on-IsSome rest none (p, e) law = cc
go_on-IsSome rest (some p) h law = law p

parse_lines-IsSome : (lines : List Bytes) (p : Parser) → IsSome (parse_lines p lines)
unfolding parse_lines
parse_lines-IsSome [] p = (p.tables, refl)
parse_lines-IsSome (raw ∷ lines) p =
    go_on-IsSome (λ q. parse_lines q lines) _ (parse_line-IsSome p raw) (parse_lines-IsSome lines)

-- Whatever text it is given, `parseSQL` comes back with tables: it never panics.
pub parse_sql-IsSome : (sql : Bytes) → IsSome (parse_sql sql)
unfolding parse_sql
parse_sql-IsSome sql = parse_lines-IsSome (split b'\n' sql) _
