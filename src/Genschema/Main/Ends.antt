-- ===== src/Genschema/Main/Ends.antt =====
-- How `main` ends.
use team_tasks.Base.{Option, none, some, List, [], ◌∷◌, ◌++◌, String, ◌≡◌, ◌⊎◌, refl, inl, inr}
use team_tasks.Domain.Errors.{Result, ok, err}
use team_tasks.Action.{⊤}
use team_tasks.Genschema.Text.{Bytes}
use team_tasks.Genschema.Parse.{Table}
use team_tasks.Genschema.Parse.Columns.{IsSome}
use team_tasks.Genschema.Parse.Total.{parse_sql-IsSome}
use team_tasks.Genschema.Diagram.{mermaid_erd}
use team_tasks.Genschema.Patch.{
  Files, joined, read_into, after_read, after_glob, parse_files, parse_migrations, patch,
  patch_readme, written, patched,
}
use team_tasks.Genschema.Main.{Ending, panicked, updated, failed, patched_or, drawn, main}

-- Looking at files does not change them.
pub record IsFiles {W : Type 0} (fs : Files W) : Type 0 where
  pub glob_keeps : (pattern : String) (w : W) → (fs.glob pattern w).1 ≡ w
  pub read_keeps : (path : String) (w : W) → (fs.read path w).1 ≡ w

module _ {W : Type 0} (fs : Files W) where
  -- How `main` may end, at files `w`.
  abbrev pub Ended : (List String → List String) → W → Ending × W → Type 0
  Ended sort w (panicked, v) = ⊥
  Ended sort w (updated, v) =
      (tables : List Table) × (src readme : Bytes) × (u : ⊤) × (parse_migrations fs sort
          "migrations/*.up.sql" w
        ≡ (some (ok tables), w))
      × ((fs.read "README.md" w).0 ≡ ok src)
      × (patch src (mermaid_erd tables) ≡ some readme)
      × (fs.write "README.md" readme w ≡ (ok u, v))
  Ended sort w (failed message e, v) =
      (v ≡ w) ⊎ ((readme : Bytes) × (fs.write "README.md" readme w ≡ (err e, v)))

module _ {W : Type 0} (fs : Files W) (law : IsFiles fs) where
  -- What has been read of the migrations, with the files as they were.
  abbrev Parsed : W → Option (Result (List Table)) × W → Type 0
  Parsed w p = (r : Result (List Table)) × (p ≡ (some r, w))

  read_into-Parsed :
      (rest : List Table → W → Option (Result (List Table)) × W)
      → ((tables : List Table) (w : W) → Parsed w (rest tables w))
      → (o : Option (List Table)) (w : W) → IsSome o
      → Parsed w (read_into fs rest o w)
  read_into-Parsed rest keeps none w (tables, e) = cc
  read_into-Parsed rest keeps (some tables) w h = keeps tables w

  joined-IsSome : (out : List Table) (o : Option (List Table)) → IsSome o → IsSome (joined fs out o)
  joined-IsSome out none (tables, e) = cc
  joined-IsSome out (some tables) h = (out ++ tables, refl)

  after_read-Parsed :
      (rest : List Table → W → Option (Result (List Table)) × W)
      → ((tables : List Table) (w : W) → Parsed w (rest tables w))
      → (out : List Table) (content : Result Bytes) (w : W)
      → Parsed w (after_read fs rest out content w)
  after_read-Parsed rest keeps out (err e) w = (err e, refl)
  after_read-Parsed rest keeps out (ok sql) w =
      read_into-Parsed rest keeps _ w (joined-IsSome out _ (parse_sql-IsSome sql))

  parse_files-Parsed :
      (files : List String) (out : List Table) (w : W) → Parsed w (parse_files fs files out w)
  unfolding parse_files
  parse_files-Parsed [] out w = (ok out, refl)
  parse_files-Parsed (f ∷ files) out w =
      rw (law.read_keeps f w)
        (after_read-Parsed (parse_files fs files) (parse_files-Parsed files) out (fs.read f w).0 w)

  after_glob-Parsed :
      (sort : List String → List String) (files : Result (List String)) (w : W)
      → Parsed w (after_glob fs sort files w)
  after_glob-Parsed sort (err e) w = (err e, refl)
  after_glob-Parsed sort (ok files) w = parse_files-Parsed (sort files) [] w

  parse_migrations-Parsed :
      (sort : List String → List String) (pattern : String) (w : W)
      → Parsed w (parse_migrations fs sort pattern w)
  unfolding parse_migrations
  parse_migrations-Parsed sort pattern w =
      rw (law.glob_keeps pattern w) (after_glob-Parsed sort (fs.glob pattern w).0 w)

  module _ (sort : List String → List String) (w : W) where
    written-Ended :
        (tables : List Table) (src : Bytes) (o : Option Bytes)
        → parse_migrations fs sort "migrations/*.up.sql" w ≡ (some (ok tables), w)
        → (fs.read "README.md" w).0 ≡ ok src
        → patch src (mermaid_erd tables) ≡ o
        → Ended fs sort w (patched_or fs (written fs "README.md" o w))
    written-Ended tables src none parsed read e = inl refl
    written-Ended tables src (some readme) parsed read e =
        wrote (fs.write "README.md" readme w) refl
      where
        wrote :
            (result : Result ⊤ × W)
            → fs.write "README.md" readme w ≡ result
            → Ended fs sort w (patched_or fs result)
        wrote (ok u, v) done = (tables, src, readme, u, parsed, read, e, done)
        wrote (err e, v) done = inr (readme, done)

    patched-Ended :
        (tables : List Table) (content : Result Bytes)
        → parse_migrations fs sort "migrations/*.up.sql" w ≡ (some (ok tables), w)
        → (fs.read "README.md" w).0 ≡ content
        → Ended fs sort w (patched_or fs (patched fs "README.md" (mermaid_erd tables) content w))
    patched-Ended tables (err e) parsed read = inl refl
    patched-Ended tables (ok src) parsed read = written-Ended tables src _ parsed read refl

    drawn-Ended :
        (r : Result (List Table))
        → parse_migrations fs sort "migrations/*.up.sql" w ≡ (some r, w)
        → Ended fs sort w (drawn fs (some r) w)
    unfolding patch_readme
    drawn-Ended (err e) parsed = inl refl
    drawn-Ended (ok tables) parsed =
        rw (law.read_keeps "README.md" w) (patched-Ended tables _ parsed refl)

    -- Where looking at files does not change them, the script never panics. It reports success only
    -- where it has read the migrations and the README, has found the markers there, and has written
    -- the README with the diagram of these migrations between them. Where it reports a failure, no
    -- file is changed, unless it is the write of the README that has failed.
    pub main-Ended : Ended fs sort w (main fs sort w)
    unfolding main
    main-Ended =
        let (r, parsed) = parse_migrations-Parsed sort "migrations/*.up.sql" w in
        rw parsed (drawn-Ended r parsed)
