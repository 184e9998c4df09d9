-- ===== src/Task/Key.antt =====
-- `cacheKey` and `cachePattern` of internal/service/task/task.go.
pub mod Laws
use Prim.Native.String.{◌++◌}
use team_tasks.Base.{String, Option, none, some}
use team_tasks.Base.Decimal.{decimal}
use team_tasks.Domain.{TaskFilter}
use team_tasks.Domain.Ids.{Uuid}

abbrev pub cache_key_all : String
cache_key_all = "all"

-- `name := cacheKeyAll; if p != nil { name = text(*p) }`
abbrev pub text_or_all : {A : Type 0} → (A → String) → Option A → String
text_or_all text none = cache_key_all
text_or_all text (some a) = text a

-- The key behind the team. The first argument is `uuid.UUID.String`.
abbrev pub key_tail : (Uuid → String) → TaskFilter → String
key_tail uuid_string f =
    let status = text_or_all (λ s. s) f.status in
    let assignee = text_or_all uuid_string f.assignee_id in
    status
    ++ (":"
        ++ (assignee ++ (":" ++ ("p" ++ (decimal f.page ++ (":" ++ ("l" ++ decimal f.limit)))))))

-- `fmt.Sprintf("tasks:%s:%s:%s:p%d:l%d", …)`
unfoldable pub cache_key : (Uuid → String) → TaskFilter → String
unfolding decimal
cache_key uuid_string f =
    "tasks:" ++ (text_or_all uuid_string f.team_id ++ (":" ++ key_tail uuid_string f))

unfoldable pub cache_pattern : (Uuid → String) → Uuid → String
cache_pattern uuid_string team_id = ("tasks:" ++ uuid_string team_id) ++ ":*"
