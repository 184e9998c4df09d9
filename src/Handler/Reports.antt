-- ===== src/Handler/Reports.antt =====
-- The service of internal/service/analytics/analytics.go and its handlers, `GetTeamSummaries`,
-- `GetTopContributors` and `GetOrphanTasks` of internal/handler/analytics.go. The types of the API
-- have the fields of the domain's and are not told apart from them.
use team_tasks.Base.{Option, List, []}
use team_tasks.Domain.{TeamSummary, TopContributor, OrphanTask}
use team_tasks.Domain.Ids.{Uuid}
use team_tasks.Domain.Errors.{wrapped}
use team_tasks.Action.{Action, on_error}
use team_tasks.Handler.Response.{Response, authorized, answer}

-- The fields of the service, by the methods of their interfaces.
pub record Deps (W : Type 0) : Type 0 where
  pub read_summaries : Action W (List TeamSummary)
  pub read_contributors : Action W (List TopContributor)
  pub read_orphans : Action W (List OrphanTask)

module _ {W : Type 0} (s : Deps W) where
  unfoldable pub team_summaries : Action W (List TeamSummary)
  team_summaries = on_error (wrapped "analytics: team summaries") s.read_summaries

  unfoldable pub top_contributors : Action W (List TopContributor)
  top_contributors = on_error (wrapped "analytics: top contributors") s.read_contributors

  unfoldable pub orphan_tasks : Action W (List OrphanTask)
  orphan_tasks = on_error (wrapped "analytics: orphan tasks") s.read_orphans

  unfoldable pub get_team_summaries : Option Uuid → Action W (Response (List TeamSummary))
  get_team_summaries user = authorized user λ id. answer 200 (λ rows. rows) [] team_summaries

  unfoldable pub get_top_contributors : Option Uuid → Action W (Response (List TopContributor))
  get_top_contributors user = authorized user λ id. answer 200 (λ rows. rows) [] top_contributors

  unfoldable pub get_orphan_tasks : Option Uuid → Action W (Response (List OrphanTask))
  get_orphan_tasks user = authorized user λ id. answer 200 (λ rows. rows) [] orphan_tasks
