-- ===== src/Mysql/Tests.antt =====
-- Rows that are read back, and one that is not, and the theorems on rows at concrete inputs.
use team_tasks.Base.{
  ℕ, ltb, pos, negsuc, ◌*◌, ◌-◌, if◌then◌else◌, arith, none, some, [], ◌∷◌, ◌≡◌, ◌↔◌, refl, map,
  All,
}
use team_tasks.Domain.{
  Task, User, Team, TaskHistory, Comment, TaskFilter, status_todo, priority_low,
}
use team_tasks.Domain.Ids.{Uuid}
use team_tasks.Domain.Errors.{ok}
use team_tasks.Mysql.Rows.{bytes_to_uuid, bytes_to_uuid_ptr, to_task, task_row, convert_rows}
use team_tasks.Mysql.Conversions.{HasUuids}
use team_tasks.Mysql.Sent.{row_values, convert_rows_iff}
use team_tasks.Base.Int
use team_tasks.Base.Int.{half64, full64}
use team_tasks.Mysql.Storage.Tasks.{offset}
use team_tasks.Mysql.Storage.Tasks.{task_args}
use team_tasks.Mysql.Paging.{offset-pages}

abbrev uuid : ℕ → Uuid
uuid n = record { bytes = n ∷ 0 ∷ 0 ∷ 0 ∷ 0 ∷ 0 ∷ 0 ∷ 0 ∷ 0 ∷ 0 ∷ 0 ∷ 0 ∷ 0 ∷ 0 ∷ 0 ∷ 0 ∷ [] }

abbrev task : Task
task = record {
  id = uuid 1;
  team_id = uuid 2;
  created_by = uuid 3;
  assignee_id = some (uuid 4);
  title = "write";
  description = none;
  status = status_todo;
  priority = priority_low;
  due_date = some 9;
  created_at = 7;
  updated_at = 8;
}

abbrev user : User
user = record { id = uuid 3; email = "o@x"; name = "o"; password = "hash"; created_at = 1 }

-- A task and one without an assignee are read back.
tasks_read :
    let ts = task ∷ record task { assignee_id = none } ∷ [] in
    convert_rows to_task (map task_row ts) ≡ ok ts
unfolding convert_rows to_task bytes_to_uuid bytes_to_uuid_ptr
tasks_read = refl

convert_rows_iff_example :
    (convert_rows to_task (task_row task ∷ []) ≡ ok (task ∷ []))
    ↔ ((map row_values (task_row task ∷ []) ≡ map task_args (task ∷ [])) × All HasUuids (task ∷ []))
convert_rows_iff_example = convert_rows_iff (task_row task ∷ []) (task ∷ [])

-- The first page whose offset is negative, at the greatest limit.
offset_negative : offset (pos 92_233_720_368_547_760) (pos 100) ≡ negsuc 9_223_372_036_854_775_715
unfolding offset Int.◌-ℤ◌ Int.◌*ℤ◌ Int.wrap64
offset_negative = refl

offset-pages_example : offset (pos 92_233_720_368_547_760) (pos 100) ≡ (
    if ltb (92_233_720_368_547_759 * 100) half64
    then pos (92_233_720_368_547_759 * 100)
    else negsuc (full64 - 1 - 92_233_720_368_547_759 * 100))
offset-pages_example = offset-pages 92_233_720_368_547_759 100 (omega arith) (omega arith)

abbrev team : Team
team = record { id = uuid 2; name = "core"; created_by = uuid 3; created_at = 1 }

abbrev history : TaskHistory
history = record {
  id = 0;
  task_id = uuid 1;
  changed_by = uuid 3;
  field = "title";
  old_value = none;
  new_value = some "write";
  changed_at = 8;
}

abbrev comment : Comment
comment = record { id = 0; task_id = uuid 1; user_id = uuid 3; body = "why?"; created_at = 8 }

abbrev filter : TaskFilter
filter = record {
  team_id = some (uuid 2);
  status = some "done?";
  assignee_id = none;
  page = pos 1;
  limit = pos 20;
}
