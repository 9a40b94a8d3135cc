-- ===== src/Lib.antt =====
-- The planning core of planner_dev, a Telegram bot that schedules the tasks of a presales team: from
-- the people, tasks and dependencies of a request to dated assignments, risks and their snapshot.
--
-- Parts, the files that model them, and the code (paths from the repository's root):
--   Calendar      src/planner/domain/calendar/ports.py and rules.py: working days. `WorkingCalendar`
--                 is the protocol and `weekend_calendar` the class WeekendCalendar. Laws states what
--                 a client needs of a calendar, Weekend shows it, Counting is about the helpers,
--                 Working counts working days.
--   Units         src/planner/domain/units.py and slots.py: hours shown as days and as slots.
--   Models        src/planner/domain/models.py: the value objects, one record for each.
--   Networkx      the interface of the graph library that the solver imports, with its documented
--                 behaviour as hypotheses; Reference is one implementation, for the examples.
--   Capacity      the class CapacityIndex of src/planner/domain/solver/greedy.py.
--   Allocate      `_allocate_single`, `_allocate_split`, `_allocate_window` and `_allocate_pair` of
--                 the same file. Search and Whole are about the first and the last, Spread,
--                 SpreadLaws, Spans and Splitting about the second.
--   Greedy        `GreedySolver.plan` of the same file: Dag and Edges (`build_dag`), Starts
--                 (`_earliest_start`), Choice (the ways to place a task); the loop over the order
--                 and the risks are in Greedy itself. Placed and Ways are about one placement,
--                 Steps, Precedence and Run about the loop, Dependencies and Assigned about plans.
--   Diff          src/planner/domain/solver/diff.py: what changes between two plans.
--   Payload       the JSON snapshot of a plan in src/planner/app/add_project.py.
--   Vacation      src/planner/app/set_vacation.py, over the three methods of RepoPort that it calls, and
--                 with the repository of Database as `sql_repo`; Overrides is about a single override,
--                 Writes about a vacation, what it writes and what it leaves.
--   History       src/planner/infra/history.py: the last texts of each chat.
--   Throttle      src/planner/bot/middlewares/throttle.py: messages that come too fast are dropped.
--   Intents       src/planner/domain/intent.py and permissions.py: what a user asks for, and the roles.
--   Critical      src/planner/domain/solver/critical_path.py: the end of the longest chain of tasks;
--                 Bases, Finishes and Chains show that it is the longest.
--   Capability    src/planner/domain/capability.py and src/planner/app/suggest_assignees.py: who could
--                 take a task; Ranking is about the order of the suggestions,
--                 Labels about the required skills, Considered about who is suggested, with which.
--   Database      src/planner/infra/db/models.py (Tables), the records of src/planner/app/ports.py
--                 (Records) and the class SqlAlchemyRepo of src/planner/infra/db/repo.py: People,
--                 Plans, Moves (changes within stored plans), Projects, Work (tasks), Boards (the board
--                 and the audit log) and Saving. Rows is what the queries do, RowLaws what they keep;
--                 Naming, Resetting and SavedHours are about the methods they name.
--   Confirm       src/planner/app/confirm_plan.py; Steps, Committed and Once are about its
--                 transition.
--   MarkDone      src/planner/app/mark_task_done.py.
--   Capture       src/planner/app/capture_task.py; Stored and Duplicates are about a task captured
--                 twice.
--   AddProject    `instantiate_template` and the class AddProjectUseCase of
--                 src/planner/app/add_project.py, over any solver; Templates and Loaded are about the
--                 former, Proposal about what is stored and confirmed later, and
--                 Cases about the two ends of a call.
--   UseCases      the calls of AddProject, Capture, Confirm, MarkDone and the reset, one after the other;
--                 Consistent is about the references between the rows that they keep: Owners, Pages
--                 and Owned of tasks to projects, Versions of plan versions to projects, Assigned and
--                 Tasked of assignments to tasks.
--   Keys          lemmas on the keys of a dict and on sums over it.
--   Prelude       what Python gives the source: comparisons, lists, dicts, exceptions.
--   Tests         sample data, runs of the code, and the theorems at concrete inputs.
--
-- How they interact: `plan` makes a CapacityIndex of the request, pins the tasks that are done, walks
-- the topological order of the graph, places each task from the earliest start that its predecessors
-- allow, by asking the index what remains and occupying what it chose, and collects the risks.
-- The use-cases read and write the Database by the methods of the repository: AddProject stores a
-- proposal, Confirm commits it, and Capability reads the load from the committed ones.
--
-- How Python is read: a date is its ordinal, without the end of the calendar at date.max; a
-- UUID is a number; hours, lags and capacities are natural numbers, and what remains of a day is an
-- integer; a dict is a list of pairs in insertion order, and reading a key of a defaultdict enters it;
-- an exception is a value of Error. The state of the index is passed and returned. The text of a risk
-- is its template with the values it shows. Log calls are left
-- out. A quotient of floats is read as exact; that of hours and capacity is, as to its rounding up,
-- below 2 ** 53 hours.
--
-- How the database is read: a table is the list of its rows in the order of insertion, a query a list
-- operation that reads it in that order, ORDER BY a stable sort, an UPDATE a change of the rows that
-- meet its condition, and a transaction one step. Constraints are not enforced. The n-th `uuid4()` and
-- the time of the n-th transaction that inserts come from outside, as does what Python and the database
-- do with texts (TextOps); a time of day is its minutes. A mirror is a function of the number of its
-- call, which raises, answers nothing, or answers an address; its failure changes no state.
--
-- Fuel: the loops of the allocations run limit + 1 - day rounds, the number of days from the first to
-- the limit; the loop of `next_working_day` runs to the latest holiday and a week-end behind it, since
-- one of the days behind the latest holiday is no week-end; the loop of a vacation runs once for each
-- of its days.
--
-- Not modelled: the LLM, Telegram, Notion, speech and web adapters, which call remote services and
-- third-party frameworks; the construction of the engine, the migrations and the seed; of
-- src/planner/app the load summary, the board of the web admin, the explanations of a plan, the texts
-- of errors and the charts; of src/planner/infra the download of the production calendar, the voice
-- flags and the scheduler.
pub mod Prelude
pub mod Keys
pub mod Calendar
pub mod Units
pub mod Models
pub mod Networkx
pub mod Capacity
pub mod Allocate
pub mod Greedy
pub mod Tests
pub mod Diff
pub mod Payload
pub mod Throttle
pub mod History
pub mod Vacation
pub mod Database
pub mod Intents
pub mod Critical
pub mod Capability
pub mod Confirm
pub mod AddProject
pub mod MarkDone
pub mod Capture
pub mod UseCases
