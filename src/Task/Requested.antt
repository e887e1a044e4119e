-- ===== src/Task/Requested.antt =====
-- What a request asks of the columns of a task, column by column.
use task_scheduling_platform.Base.{
  ℕ, String, Option, none, some, List, [], ◌≡◌, ◌≢◌, ◌⊎◌, Bool, inl, inr, refl, arith, Bool-cases,
  eq_iff, str_eq, given, same_number, false, text_or, not, ◌&&◌, nonempty, if◌then◌else◌,
  Option-cases,
}
use task_scheduling_platform.Platform.Entities.{Task}
use task_scheduling_platform.Task.Dto.{UpdateTaskDto, CreateTaskDto}
use task_scheduling_platform.Task.Create.{date_of, new_task}
use task_scheduling_platform.Task.Update.{new_due_date, given_option, apply_update, joined_assignee}

-- A column takes the value of the field, or stays where there is none.
abbrev pub Given : {A : Type 0} → Option A → A → A → Type 0
Given none old new = new ≡ old
Given (some a) old new = new ≡ a

abbrev pub GivenOption : {A : Type 0} → Option A → Option A → Option A → Type 0
GivenOption none old new = new ≡ old
GivenOption (some a) old new = new ≡ some a

-- An empty date is none.
abbrev pub DateOf : (String → ℕ) → String → Option ℕ → Type 0
DateOf parse s new = ((s ≡ "") × (new ≡ none)) ⊎ ((s ≢ "") × (new ≡ some (parse s)))

abbrev pub DueAs : (String → ℕ) → Option String → Option ℕ → Option ℕ → Type 0
DueAs parse none old new = new ≡ old
DueAs parse (some s) old new = DateOf parse s new

-- The completion date, by the status asked for and the status and completion date before.
abbrev pub CompletedAs : Option String → (now : ℕ) (status : String) (old new : Option ℕ) → Type 0
CompletedAs none now status old new = new ≡ old
CompletedAs (some s) now status old new =
    ((s ≡ "DONE") × (status ≢ "DONE") × (new ≡ some now))
    ⊎ (((s ≡ "DONE") × (status ≡ "DONE") × (new ≡ old))
        ⊎ (((s ≢ "DONE") × (s ≢ "") × (new ≡ none)) ⊎ ((s ≡ "") × (new ≡ old))))

-- The stored assignee: a task that has one keeps it, whatever is asked.
abbrev pub AssignedAs : Option ℕ → Option ℕ → Option ℕ → Type 0
AssignedAs asked none new = GivenOption asked none new
AssignedAs asked (some a) new = new ≡ some a

pub record Requested (parse : String → ℕ) (now : ℕ) (dto : UpdateTaskDto) (old row : Task)
    : Type 0 where
  pub title : Given dto.title old.title row.title
  pub description : GivenOption dto.description old.description row.description
  pub status : Given dto.status old.status row.status
  pub priority : Given dto.priority old.priority row.priority
  pub labels : GivenOption dto.labels old.labels row.labels
  pub attachments : GivenOption dto.attachments old.attachments row.attachments
  pub due_date : DueAs parse dto.due_date old.due_date row.due_date
  pub completed_at : CompletedAs dto.status now old.status old.completed_at row.completed_at
  pub assigned_to : AssignedAs dto.assigned_to old.assigned_to row.assigned_to
  pub same_place : (row.workspace_id ≡ old.workspace_id) × (row.project_id ≡ old.project_id)
  pub same_parent : row.parent_task_id ≡ old.parent_task_id
  pub same_creator : row.created_by ≡ old.created_by
  pub still_live : row.deleted_at ≡ old.deleted_at

given-Given : {A : Type 0} (o : Option A) (a : A) → Given o a (given o a)
given-Given none a = refl
given-Given (some b) a = refl

given_option-GivenOption : {A : Type 0} (o a : Option A) → GivenOption o a (given_option o a)
given_option-GivenOption none a = refl
given_option-GivenOption (some b) a = refl

date_of-DateOf : (parse : String → ℕ) (s : String) → DateOf parse s (date_of parse (some s))
date_of-DateOf parse s = elim (Bool-cases (str_eq s "")) [
  | inl empty ↦ ground (arith, eq_iff s "")
  | inr full ↦ ground (arith, eq_iff s "")
]

new_due_date-DueAs :
    (parse : String → ℕ) (o : Option String) (old : Option ℕ)
    → DueAs parse o old (new_due_date parse o old)
new_due_date-DueAs parse none old = refl
new_due_date-DueAs parse (some s) old = date_of-DateOf parse s

completed_at_as :
    (now : ℕ) (s status : String) (old : Option ℕ)
    → CompletedAs (some s) now status old (
        if str_eq s "DONE" && not (str_eq status "DONE")
        then some now
        else if nonempty s && not (str_eq s "DONE")
        then none
        else old)
completed_at_as now s status old =
    ground (arith, eq_iff s "DONE", eq_iff status "DONE", eq_iff s "")

-- The assignment that `updateTask` makes.
abbrev assignment : Option ℕ → Option ℕ → Option ℕ
assignment asked current =
    if elim asked as (λ a. Bool) [ none ↦ false | some a ↦ not (same_number (some a) current) ]
    then asked
    else current

assigned_as :
    (asked current : Option ℕ)
    → AssignedAs asked current (given_option current (assignment asked current))
assigned_as none none = refl
assigned_as (some a) none = refl
assigned_as asked (some b) = refl

answered_as : (asked current : Option ℕ) → GivenOption asked current (assignment asked current)
answered_as none current = refl
answered_as (some a) none = refl
answered_as (some a) (some b) = ground arith

module _ (parse : String → ℕ) (now : ℕ) (dto : UpdateTaskDto) (t : Task) where
  apply_update-CompletedAs :
      CompletedAs dto.status now t.status t.completed_at (apply_update parse now dto t).completed_at
  unfolding apply_update
  apply_update-CompletedAs = elim (Option-cases dto.status) [
    | inl unnamed ↦ rw unnamed refl
    | inr (s, named) ↦ rw named (completed_at_as now s t.status t.completed_at)
  ]

  pub apply_update-Requested :
      (id version created_at updated_at : ℕ)
      → Requested parse now dto t (record (joined_assignee t (apply_update parse now dto t)) {
        id = id;
        version = version;
        created_at = created_at;
        updated_at = updated_at;
      })
  unfolding apply_update
  apply_update-Requested id version created_at updated_at = record {
    title = given-Given dto.title t.title;
    description = given_option-GivenOption dto.description t.description;
    status = given-Given dto.status t.status;
    priority = given-Given dto.priority t.priority;
    labels = given_option-GivenOption dto.labels t.labels;
    attachments = given_option-GivenOption dto.attachments t.attachments;
    due_date = new_due_date-DueAs parse dto.due_date t.due_date;
    completed_at = apply_update-CompletedAs;
    assigned_to = assigned_as dto.assigned_to t.assigned_to;
    same_place = (refl, refl);
    same_parent = refl;
    same_creator = refl;
    still_live = refl;
  }

  -- The entity in memory has the assignee that is asked for.
  pub apply_update-GivenOption :
      GivenOption dto.assigned_to t.assigned_to (apply_update parse now dto t).assigned_to
  unfolding apply_update
  apply_update-GivenOption = answered_as dto.assigned_to t.assigned_to

-- A missing or empty priority is MEDIUM.
abbrev pub PriorityAs : Option String → String → Type 0
PriorityAs none new = new ≡ "MEDIUM"
PriorityAs (some s) new = ((s ≡ "") × (new ≡ "MEDIUM")) ⊎ ((s ≢ "") × (new ≡ s))

abbrev pub AttachmentsAs : {A : Type 0} → Option (List A) → Option (List A) → Type 0
AttachmentsAs none new = new ≡ some []
AttachmentsAs (some l) new = new ≡ some l

pub record RequestedNew (parse : String → ℕ) (workspace_id project_id user_id : ℕ)
    (dto : CreateTaskDto) (row : Task) : Type 0 where
  pub in_workspace : row.workspace_id ≡ workspace_id
  pub in_project : row.project_id ≡ project_id
  pub by : row.created_by ≡ user_id
  pub title : row.title ≡ dto.title
  pub description : row.description ≡ dto.description
  pub parent : row.parent_task_id ≡ dto.parent_task_id
  pub status : row.status ≡ "TODO"
  pub priority : PriorityAs dto.priority row.priority
  pub assigned_to : row.assigned_to ≡ dto.assigned_to
  pub due_date : DueAs parse dto.due_date none row.due_date
  pub labels : row.labels ≡ dto.labels
  pub attachments : AttachmentsAs dto.attachments row.attachments
  pub not_completed : row.completed_at ≡ none
  pub live : row.deleted_at ≡ none

text_or-PriorityAs : (o : Option String) → PriorityAs o (text_or o "MEDIUM")
text_or-PriorityAs none = refl
text_or-PriorityAs (some s) = ground (arith, eq_iff s "")

attachments_as : {A : Type 0} (o : Option (List A)) → AttachmentsAs o (some (given o []))
attachments_as none = refl
attachments_as (some l) = refl

due_as : (parse : String → ℕ) (o : Option String) → DueAs parse o none (date_of parse o)
due_as parse none = refl
due_as parse (some s) = date_of-DateOf parse s

pub new_task-RequestedNew :
    (parse : String → ℕ) (workspace_id project_id user_id : ℕ) (dto : CreateTaskDto)
    (id version created_at updated_at : ℕ)
    → RequestedNew parse workspace_id project_id user_id dto
        (record (new_task parse workspace_id project_id user_id dto) {
          id = id;
          version = version;
          created_at = created_at;
          updated_at = updated_at;
        })
new_task-RequestedNew parse workspace_id project_id user_id dto id version created_at updated_at =
    record {
      in_workspace = refl;
      in_project = refl;
      by = refl;
      title = refl;
      description = refl;
      parent = refl;
      status = refl;
      priority = text_or-PriorityAs dto.priority;
      assigned_to = refl;
      due_date = due_as parse dto.due_date;
      labels = refl;
      attachments = attachments_as dto.attachments;
      not_completed = refl;
      live = refl;
    }
