-- ===== src/Tests/Stores.antt =====
-- A store with one proposed plan version, and an outside world that prints and counts simply.
use planner_dev.Prelude.{zero, suc, ◌+◌, true, none, some, [], ◌∷◌}
use planner_dev.Payload.Writing.{serialize_plan}
use planner_dev.Database.{Database, Env}
use planner_dev.Database.Tables.{ProjectRow, PlanVersionRow}
use planner_dev.Database.Records.{TextOps}
use planner_dev.Confirm.{raised, url, TaskSink}
use planner_dev.Tests.Samples.{outcome}
use planner_dev.Tests.Snapshots.{tally}

abbrev pub env : Env
env = record { uuid4 = λ n. 100 + n; now = λ n. n }

-- Names without capitals or spaces.
abbrev pub text : TextOps
text = record {
  strip = λ s. s;
  lower = λ s. s;
  replace_yo = λ s. s;
  split = λ s. s ∷ [];
  starts_with = λ s t. true;
  len = λ s. 3;
  sql_lower = λ s. s;
  collate = λ s t. true;
  day_of = λ n. n;
}

abbrev pub campaign : ProjectRow
campaign = record {
  id = 40;
  title = "campaign";
  template_id = none;
  brief_return_date = none;
  deadline = some 9;
  priority = "medium";
  status = "planning";
  notion_page_id = none;
  created_at = 0;
  created_by = none;
}

abbrev pub proposal : PlanVersionRow
proposal = record {
  id = 50;
  project_id = 40;
  status = "proposed";
  created_at = 0;
  created_by = some 1;
  payload = serialize_plan tally outcome;
}

abbrev pub store : Database
store = record {
  people = [];
  roles = [];
  skills = [];
  role_skills = [];
  person_roles = [];
  templates = [];
  template_tasks = [];
  template_task_assignees = [];
  template_dependencies = [];
  projects = campaign ∷ [];
  tasks = [];
  assignments = [];
  dependencies = [];
  day_overrides = [];
  plan_versions = proposal ∷ [];
  audit_log = [];
  task_history = [];
  draws = 0;
}

-- The same with the campaign under way.
abbrev pub running : Database
running = record store { plan_versions = record proposal { status = "committed" } ∷ [] }

-- A mirror whose first call fails.
abbrev pub mirror : TaskSink
mirror zero task = raised
mirror (suc n) task = url "page"
