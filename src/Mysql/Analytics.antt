-- ===== src/Mysql/Analytics.antt =====
-- The rows of internal/storage/mysql/analytics.go and what its loops make of one row.
use team_tasks.Base.{ℕ, ℤ, String, List}
use team_tasks.Domain.{TeamSummary, TopContributor, OrphanTask}
use team_tasks.Domain.Errors.{Result, ok}
use team_tasks.Mysql.Rows.{bytes_to_uuid, parse}

pub record TeamSummaryRow : Type 0 where
  pub id : List ℕ
  pub name : String
  pub member_count : ℤ
  pub done_last7_days : ℤ

pub record TopContributorRow : Type 0 where
  pub team_id : List ℕ
  pub user_id : List ℕ
  pub task_count : ℤ
  pub rank_in_team : ℤ

pub record OrphanTaskRow : Type 0 where
  pub id : List ℕ
  pub title : String
  pub team_id : List ℕ
  pub assignee_id : List ℕ

unfoldable pub to_team_summary : TeamSummaryRow → Result TeamSummary
to_team_summary r = parse "mysql: parse summary team id" (bytes_to_uuid r.id) λ id. ok (record {
  team_id = id;
  name = r.name;
  member_count = r.member_count;
  done_last7_days = r.done_last7_days;
})

unfoldable pub to_top_contributor : TopContributorRow → Result TopContributor
to_top_contributor r = parse "mysql: parse contributor team_id" (bytes_to_uuid r.team_id) λ team_id.
    parse "mysql: parse contributor user_id" (bytes_to_uuid r.user_id) λ user_id. ok (record {
      team_id = team_id;
      user_id = user_id;
      task_count = r.task_count;
      rank_in_team = r.rank_in_team;
    })

unfoldable pub to_orphan_task : OrphanTaskRow → Result OrphanTask
to_orphan_task r = parse "mysql: parse orphan task id" (bytes_to_uuid r.id) λ id.
    parse "mysql: parse orphan team_id" (bytes_to_uuid r.team_id) λ team_id.
      parse "mysql: parse orphan assignee_id" (bytes_to_uuid r.assignee_id) λ assignee_id.
        ok (record { id = id; title = r.title; team_id = team_id; assignee_id = assignee_id })
