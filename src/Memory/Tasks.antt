-- ===== src/Memory/Tasks.antt =====
-- The task service in memory.
use Prim.Native.Char.{Char, code}
use text.Mathlib.TextLemmas.{cons-eq-cons, cons-ne-nil}
use mathlib.Core.List.Permᴰ
use team_tasks.Base.Texts.{NoColon}
use team_tasks.Base.{
  ℕ, zero, suc, pos, String, Option, none, some, List, [], ◌∷◌, ◌++◌, ◌≡◌, ◌⊎◌, inl, inr, refl,
  arith, length, str_eq, str_eq_iff, if◌then◌else◌, Bool-cases, ap, sym, ◌≢◌,
}
use team_tasks.Domain.{Task, TaskFilter}
use team_tasks.Domain.Ids.{Uuid}
use team_tasks.Domain.Errors.{Result, ok, err, cache_miss, plain}
use team_tasks.Store.{history_of, role_of, find_task, update_task}
use team_tasks.Task.Key.Laws.{IsUuidText}
use team_tasks.Task.Service.{Deps, CachedList}
use team_tasks.Task.Service.Contract.{IsTaskStore}
use team_tasks.Task.Service.Permission.{IsUp}
use team_tasks.Task.Service.Caching.{IsTaskCache, of_team}
use team_tasks.Memory.{
  World, formats, platform, tally, tallies, or_not_found-Found, or_not_found-Answered, look, write,
  entry_of,
}

abbrev of_status : Option String → List Task → List Task
of_status none ts = ts
of_status (some status) [] = []
of_status (some status) (t ∷ ts) =
    let rest = of_status (some status) ts in if str_eq t.status status then t ∷ rest else rest

abbrev select : Option Uuid → Option String → List Task → CachedList
select none status ts = ([], pos 0)
select (some team_id) status ts =
    let found = of_status status (of_team team_id ts) in (found, pos (length found))

abbrev pub query : TaskFilter → List Task → CachedList
query f ts = select f.team_id f.status ts

-- A codec that can write the empty lists only.
abbrev marshal : CachedList → Result (List ℕ)
marshal ([], pos n) = ok (n ∷ [])
marshal _ = err (plain "unsupported")

abbrev unmarshal : List ℕ → Result CachedList
unmarshal (n ∷ []) = ok ([], pos n)
unmarshal _ = err (plain "malformed")

abbrev pub cached : World → String → Option (List ℕ)
cached w key = entry_of key w.cache

abbrev hit_or_miss : Option (List ℕ) → Result (List ℕ)
hit_or_miss none = err cache_miss
hit_or_miss (some bytes) = ok bytes

abbrev pub service : Deps World
service = record {
  platform = platform;
  save_task = λ t. write (λ b. record b { tasks = t ∷ b.tasks });
  get_task_by_id = λ id. look (λ b. find_task id b.tasks);
  list_tasks = λ f w. (ok (query f w.tables.tasks), w);
  update_task_with_history =
      λ t hs. write (λ b. record b { tasks = update_task t b.tasks; history = b.history ++ hs });
  list_history = λ id w. (ok (history_of id w.tables.history), w);
  get_member_role = λ team_id user_id. look (λ b. role_of team_id user_id b.members);
  cache_get = λ key w. (hit_or_miss (entry_of key w.cache), w);
  cache_set = λ key bytes ttl w. (ok tt, record w { cache = (key, bytes) ∷ w.cache });
  cache_invalidate = λ pattern w. (ok tt, record w { cache = [] });
  ttl = 30;
  marshal = marshal;
  unmarshal = unmarshal;
}

pub service-IsTaskStore : IsTaskStore service (λ w. w.tables)
service-IsTaskStore = record {
  save_task = λ t w. refl;
  get_task_by_id = λ id w. (refl, or_not_found-Found _);
  update_task_with_history = λ t hs new w. refl;
  get_member_role = λ team_id user_id w. (refl, or_not_found-Found _);
  list_history = λ id w. (refl, Permᴰ.refl _);
  list_tasks = λ f w. refl;
  cache_get = λ key w. refl;
  cache_invalidate = λ pattern w. refl;
  new_uuid = λ w. refl;
  now = λ w. refl;
}

pub service-IsUp : IsUp service
service-IsUp = record {
  get_task_by_id = λ id w. or_not_found-Answered _;
  get_member_role = λ team_id user_id w. or_not_found-Answered _;
  update_task_with_history = λ t hs w. refl;
}

query_local :
    (f : TaskFilter) (team_id : Uuid) (ts us : List Task)
    → f.team_id ≡ some team_id
    → of_team team_id ts ≡ of_team team_id us
    → query f ts ≡ query f us
query_local f team_id ts us e same = rw e (
    ap (λ (rows : List Task). let found = of_status f.status rows in (found, pos (length found)))
      same)

hit_or_miss-ok : (o : Option (List ℕ)) {bytes : List ℕ} → hit_or_miss o ≡ ok bytes → o ≡ some bytes
hit_or_miss-ok none e = cc
hit_or_miss-ok (some b) e = cc

pub set_entry :
    (key : String) (bytes : List ℕ) (c : List (String × List ℕ)) (k : String) (b : List ℕ)
    → entry_of k ((key, bytes) ∷ c) ≡ some b
    → ((k ≡ key) × (b ≡ bytes)) ⊎ (entry_of k c ≡ some b)
set_entry key bytes c k b e = elim (Bool-cases (str_eq k key)) [
  | inl same ↦ inl ((str_eq_iff k key).0 same, ground arith)
  | inr other ↦ inr (ground arith)
]

round_trip :
    (found : CachedList) (bytes : List ℕ) → marshal found ≡ ok bytes → unmarshal bytes ≡ ok found
round_trip ([], pos n) bytes e = let same : bytes ≡ n ∷ [] = cc in ap unmarshal same
round_trip _ bytes e = cc

pub service-IsTaskCache : IsTaskCache service (λ w. w.tables) cached query
service-IsTaskCache = record {
  get_member_role = λ team_id user_id w. (refl, λ key bytes e. e);
  get_task_by_id = λ id w. (refl, λ key bytes e. e);
  new_uuid = λ w. (refl, λ key bytes e. e);
  now = λ w. (refl, λ key bytes e. e);
  list_tasks = λ f w. (refl, λ key bytes e. e);
  list_tasks_ok = λ f w e. cc;
  query_local = query_local;
  cache_get = λ key w. (refl, λ key bytes e. e);
  cache_get_ok = λ key w e. hit_or_miss-ok (entry_of key w.cache) e;
  cache_set = λ key bytes ttl w. (refl, set_entry key bytes w.cache);
  round_trip = round_trip;
  save_task = λ t w key bytes e. e;
  update_task_with_history = λ t hs w key bytes e. e;
  cache_invalidate = λ pattern w. (refl, λ key bytes e. cc);
  cache_invalidate_ok = λ prefix rest w e. refl;
}

-- The texts of identifiers.
abbrev dash : Char
dash = "-"

abbrev x_mark : Char
x_mark = "x"

dash_ne_x : dash ≢ x_mark
dash_ne_x e = omega (arith, ap code e)

tally-injective : (m n : ℕ) (s t : String) → tally m s ≡ tally n t → (m ≡ n) × (s ≡ t)
tally-injective zero zero s t e = (refl, (cons-eq-cons.0 e).1)
tally-injective zero (suc n) s t e = absurd (dash_ne_x (cons-eq-cons.0 e).0)
tally-injective (suc m) zero s t e = absurd (dash_ne_x (sym (cons-eq-cons.0 e).0))
tally-injective (suc m) (suc n) s t e =
    let (same, rest) = tally-injective m n s t (cons-eq-cons.0 e).1 in (ap suc same, rest)

tally-ne-empty : (n : ℕ) (s : String) → tally n s ≢ ""
tally-ne-empty zero s e = cons-ne-nil _ _ e
tally-ne-empty (suc n) s e = cons-ne-nil _ _ e

tallies-injective : (a b : List ℕ) → tallies a ≡ tallies b → a ≡ b
tallies-injective [] [] e = refl
tallies-injective [] (n ∷ b) e = absurd (tally-ne-empty n _ (sym e))
tallies-injective (m ∷ a) [] e = absurd (tally-ne-empty m _ e)
tallies-injective (m ∷ a) (n ∷ b) e =
    let (same, rest) = tally-injective m n _ _ e in
    let tails = tallies-injective a b rest in λ i. same i ∷ tails i

tally-NoColon : (n : ℕ) (s : String) → NoColon s → NoColon (tally n s)
tally-NoColon zero s h = (omega arith, h)
tally-NoColon (suc n) s h = (omega arith, tally-NoColon n s h)

tallies-NoColon : (a : List ℕ) → NoColon (tallies a)
tallies-NoColon [] = tt
tallies-NoColon (n ∷ a) = tally-NoColon n _ (tallies-NoColon a)

tally-ne-all : (n : ℕ) (s : String) → tally n s ≢ "all"
tally-ne-all zero s e = omega (arith, ap code (cons-eq-cons.0 e).0)
tally-ne-all (suc n) s e = omega (arith, ap code (cons-eq-cons.0 e).0)

tallies-ne-all : (a : List ℕ) → tallies a ≢ "all"
tallies-ne-all [] e = cons-ne-nil _ _ (sym e)
tallies-ne-all (n ∷ a) e = tally-ne-all n _ e

pub formats-IsUuidText : IsUuidText formats.uuid_string
formats-IsUuidText = record {
  injective = λ a b e.
      ap (λ (bytes : List ℕ). record { bytes = bytes }) (tallies-injective a.bytes b.bytes e);
  no_colon = λ a. tallies-NoColon a.bytes;
  ne_all = λ a. tallies-ne-all a.bytes;
}
