-- ===== src/Memory/Fixtures.antt =====
-- A team with an owner and a member, a stranger to it, and one task: the data of the tests.
use team_tasks.Base.{ℕ, String, none, some, [], ◌∷◌, pos}
use team_tasks.Domain.{
  Task, User, CreateTaskInput, UpdateTaskInput, TaskFilter, role_owner, role_member, status_todo,
  status_done, priority_low,
}
use team_tasks.Domain.Ids.{Uuid}
use team_tasks.Store.{Tables}
use team_tasks.Memory.{World}

abbrev pub uuid : ℕ → Uuid
uuid n = record { bytes = n ∷ [] }

abbrev pub team_id : Uuid
team_id = uuid 1

abbrev pub owner : Uuid
owner = uuid 2

abbrev pub member : Uuid
member = uuid 3

abbrev pub stranger : Uuid
stranger = uuid 4

abbrev pub task_id : Uuid
task_id = uuid 5

abbrev pub stored_task : Task
stored_task = record {
  id = task_id;
  team_id = team_id;
  created_by = owner;
  assignee_id = none;
  title = "write";
  description = none;
  status = status_todo;
  priority = priority_low;
  due_date = none;
  created_at = 7;
  updated_at = 7;
}

abbrev pub user : Uuid → String → User
user id email = record { id = id; email = email; name = email; password = "hash"; created_at = 1 }

abbrev pub tables : Tables
tables = record {
  users = user owner "o@x" ∷ user member "m@x" ∷ user stranger "s@x" ∷ [];
  teams = record { id = team_id; name = "core"; created_by = owner; created_at = 1 } ∷ [];
  members =
      record { team_id = team_id; user_id = owner; role = role_owner }
      ∷ record { team_id = team_id; user_id = member; role = role_member }
      ∷ [];
  tasks = stored_task ∷ [];
  history = [];
  comments = [];
}

abbrev pub world : World
world = record { tables = tables; cache = []; ticks = 9 }

abbrev pub new_input : CreateTaskInput
new_input = record {
  team_id = team_id;
  title = "test";
  description = none;
  assignee_id = some member;
  due_date = none;
  priority = "";
}

abbrev pub done_input : UpdateTaskInput
done_input = record {
  title = none;
  description = some "all of it";
  status = some status_done;
  assignee_id = some member;
  due_date = none;
  priority = none;
}

abbrev pub team_filter : TaskFilter
team_filter = record {
  team_id = some team_id;
  status = some status_done;
  assignee_id = none;
  page = pos 0;
  limit = pos 500;
}
