-- ===== src/Database/Projects.antt =====
-- Projects and templates in `SqlAlchemyRepo` (src/planner/infra/db/repo.py).
use planner_dev.Prelude.{
  ℕ, ◌+◌, String, Bool, ◌&&◌, ◌||◌, Option, none, some, List, [], ◌∷◌, map, keep, leb, ltb,
  if◌then◌else◌, ◌==◌, nat_eq, string_eq, or_else,
}
use planner_dev.Prelude.Dict.{Dict, get}
use planner_dev.Database.{Database, Env}
use planner_dev.Database.Tables.{
  ProjectRow, TemplateRow, TemplateTaskRow, TemplateTaskAssigneeRow, TemplateDependencyRow,
}
use planner_dev.Database.Rows.{find_row, change_rows, order_by, add_row}
use planner_dev.Database.Records.{ProjectRecord, TextOps}

abbrev pub filled_text : String → Option String
filled_text s = if s == "" then none else some s

-- `select(Template.id).where(Template.code == template_code)`
unfoldable pub template_id_of : List TemplateRow → String → Option ℕ
unfolding find_row
template_id_of templates code = elim (find_row (λ t. t.code == code) templates) [
  | none ↦ none
  | some t ↦ some t.id
]

-- The arguments of `create_project`, but the author and the identifier.
pub record NewProject : Type 0 where
  pub title : String
  pub template_code : String
  pub deadline : Option ℕ
  pub brief_return_date : Option ℕ
  pub priority : String

unfoldable pub create_project :
    Env → Database → NewProject → (actor_id project_id : Option ℕ) → ProjectRecord × Database
unfolding template_id_of
create_project env db new actor_id project_id =
    let id = or_else project_id (env.uuid4 db.draws) in
    let row : ProjectRow = record {
      id = id;
      title = new.title;
      template_id = template_id_of db.templates new.template_code;
      brief_return_date = new.brief_return_date;
      deadline = new.deadline;
      priority = new.priority;
      status = "planning";
      notion_page_id = none;
      created_at = env.now db.draws;
      created_by = actor_id;
    } in
    (
      record {
        id = id;
        title = new.title;
        status = "planning";
        deadline = new.deadline;
        priority = new.priority;
        template_code = filled_text new.template_code;
        start_date = none;
        notion_page_id = none;
      },
      record db { projects = add_row db.projects row; draws = db.draws + 1 },
    )

-- The fields that a lookup fills; the others keep their defaults.
abbrev pub project_record : ProjectRow → ProjectRecord
project_record p = record {
  id = p.id;
  title = p.title;
  status = p.status;
  deadline = p.deadline;
  priority = "medium";
  template_code = none;
  start_date = none;
  notion_page_id = p.notion_page_id;
}

abbrev pub found_project : Option ProjectRow → Option ProjectRecord
found_project none = none
found_project (some p) = some (project_record p)

unfoldable pub get_project_by_title : TextOps → Database → String → Option ProjectRecord
unfolding find_row
get_project_by_title text db title =
    found_project (find_row (λ p. text.sql_lower p.title == text.lower title) db.projects)

unfoldable pub get_project : Database → ℕ → Option ProjectRecord
unfolding find_row
get_project db project_id = found_project (find_row (λ p. p.id == project_id) db.projects)

unfoldable pub set_project_status : Database → ℕ → String → Database
unfolding change_rows
set_project_status db project_id status = record db {
  projects = change_rows (λ p. p.id == project_id) (λ p. record p { status = status }) db.projects;
}

unfoldable pub set_project_notion_page : Database → ℕ → String → Database
unfolding change_rows
set_project_notion_page db project_id page_id = record db {
  projects =
      change_rows (λ p. p.id == project_id) (λ p. record p { notion_page_id = some page_id })
        db.projects;
}

abbrev code_of : List TemplateRow → Option ℕ → Option String
code_of templates none = none
code_of templates (some id) = elim (find_row (λ t. t.id == id) templates) [
  | none ↦ none
  | some t ↦ some t.code
]

unfoldable pub list_projects : TextOps → Database → List ProjectRecord
unfolding order_by find_row
list_projects text db =
    map
      (λ p. record {
        id = p.id;
        title = p.title;
        status = p.status;
        deadline = p.deadline;
        priority = p.priority;
        template_code = code_of db.templates p.template_id;
        start_date = some (text.day_of p.created_at);
        notion_page_id = none;
      })
      (order_by (λ p q. leb q.created_at p.created_at) db.projects)

-- A task of a template, with its dependencies by order number.
pub record TemplateTaskSpec : Type 0 where
  pub ord : ℕ
  pub name : String
  pub duration_hours : ℕ
  pub allowed_person_ids : List ℕ
  pub depends_on_ords : List ℕ
  pub link_types : List String
  pub dep_lags : List ℕ
  pub is_splittable : Bool
  pub pair_mode : String
  pub duration_is_window : Bool

pub record ProjectTemplate : Type 0 where
  pub code : String
  pub tasks : List TemplateTaskSpec

-- A dependency of a template task: its order number, link and lag.
pub record OrdLink : Type 0 where
  pub dep_ord : ℕ
  pub link_type : String
  pub lag : ℕ

-- `id_to_ord`, for the tasks of one template.
abbrev pub ords : List TemplateTaskRow → Dict ℕ ℕ
ords l = map (λ tt. (tt.id, tt.ord)) l

-- The dependencies of one template task on tasks of the same template.
unfoldable pub links_of : Dict ℕ ℕ → ℕ → List TemplateDependencyRow → List OrdLink
links_of id_to_ord id [] = []
links_of id_to_ord id (d ∷ l) =
    let rest = links_of id_to_ord id l in
    if d.template_task_id == id
    then elim (get id_to_ord d.depends_on_id) [
      | none ↦ rest
      | some dep_ord ↦
          record { dep_ord = dep_ord; link_type = d.link_type; lag = d.lag_working_days } ∷ rest
    ]
    else rest

-- Priority first, then strictness.
abbrev pub assignee_le : TextOps → TemplateTaskAssigneeRow → TemplateTaskAssigneeRow → Bool
assignee_le text a b =
    ltb a.priority b.priority
    || ((a.priority == b.priority) && text.collate a.strictness b.strictness)

unfoldable pub spec_of : TextOps → Database → Dict ℕ ℕ → TemplateTaskRow → TemplateTaskSpec
unfolding links_of order_by
spec_of text db id_to_ord tt =
    let links = links_of id_to_ord tt.id db.template_dependencies in
    record {
      ord = tt.ord;
      name = tt.name;
      duration_hours = tt.duration_hours;
      allowed_person_ids =
          map (λ a. a.person_id)
            (keep (λ a. a.template_task_id == tt.id)
              (order_by (assignee_le text) db.template_task_assignees));
      depends_on_ords = map (λ d. d.dep_ord) links;
      link_types = map (λ d. d.link_type) links;
      dep_lags = map (λ d. d.lag) links;
      is_splittable = tt.is_splittable;
      pair_mode = tt.pair_mode;
      duration_is_window = tt.duration_is_window;
    }

unfoldable pub get_project_template : TextOps → Database → String → Option ProjectTemplate
unfolding spec_of find_row order_by
get_project_template text db code = elim (find_row (λ t. t.code == code) db.templates) [
  | none ↦ none
  | some template ↦
      let tt_rows =
        order_by (λ a b. leb a.ord b.ord)
          (keep (λ tt. tt.template_id == template.id) db.template_tasks) in
      some (record { code = code; tasks = map (spec_of text db (ords tt_rows)) tt_rows })
]
