-- ===== src/Mysql/Storage/Analytics.antt =====
-- `AnalyticsStorage` of internal/storage/mysql/analytics.go.
use team_tasks.Base.{String, List, []}
use team_tasks.Domain.{TeamSummary, TopContributor, OrphanTask}
use team_tasks.Domain.Errors.{wrapped}
use team_tasks.Action.{Action, lift, on_error, ◌>>=◌}
use team_tasks.Mysql.Rows.{convert_rows}
use team_tasks.Mysql.Analytics.{to_team_summary, to_top_contributor, to_orphan_task}
use team_tasks.Mysql.Driver.{Db, Scan}

abbrev pub select_summaries : String
select_summaries =
    "SELECT t.id, t.name, COUNT(DISTINCT tm.user_id) AS member_count, COUNT(DISTINCT CASE WHEN tk.status = 'done' AND tk.updated_at >= NOW() - INTERVAL 7 DAY THEN tk.id END) AS done_last_7_days FROM teams t LEFT JOIN team_members tm ON tm.team_id = t.id LEFT JOIN tasks tk ON tk.team_id = t.id GROUP BY t.id, t.name"

abbrev pub select_contributors : String
select_contributors =
    "SELECT team_id, user_id, task_count, rank_in_team FROM ( SELECT tk.team_id, tk.created_by AS user_id, COUNT(*) AS task_count, RANK() OVER ( PARTITION BY tk.team_id ORDER BY COUNT(*) DESC ) AS rank_in_team FROM tasks tk WHERE tk.created_at >= NOW() - INTERVAL 30 DAY GROUP BY tk.team_id, tk.created_by ) ranked WHERE rank_in_team <= 3"

abbrev pub select_orphans : String
select_orphans =
    "SELECT tk.id, tk.title, tk.team_id, tk.assignee_id FROM tasks tk WHERE tk.assignee_id IS NOT NULL AND NOT EXISTS ( SELECT 1 FROM team_members tm WHERE tm.team_id = tk.team_id AND tm.user_id = tk.assignee_id )"

module _ {W : Type 0} (db : Db W) where
  unfoldable pub team_summaries : Action W (List TeamSummary)
  team_summaries = do
    rows ←
        on_error (wrapped "mysql: team summaries") (db.select Scan.summary_rows select_summaries [])
    lift (convert_rows to_team_summary rows)

  unfoldable pub top_contributors : Action W (List TopContributor)
  top_contributors = do
    rows ←
        on_error (wrapped "mysql: top contributors")
          (db.select Scan.contributor_rows select_contributors [])
    lift (convert_rows to_top_contributor rows)

  unfoldable pub orphan_tasks : Action W (List OrphanTask)
  orphan_tasks = do
    rows ← on_error (wrapped "mysql: orphan tasks") (db.select Scan.orphan_rows select_orphans [])
    lift (convert_rows to_orphan_task rows)
