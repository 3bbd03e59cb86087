-- ===== src/Workflows.antt =====
-- internal/workflow/service.go: workflows and the record of their runs.
--
-- `encoding/json` is the parameter `JsonLib`, over the type `V` of the JSON values that an
-- `interface{}` holds. The ids of new rows and the time at which a run starts are arguments.
pub mod Reading
pub mod Operations
pub mod Histories
pub mod Statements
pub mod Requests
pub mod Disabled
pub mod Runs
pub mod Listing
mod Tests
use immich_go_backend.Base.{
  ℕ, ◌<>◌, String, Bool, true, false, not, Option, none, some, List, [], ◌∷◌, map, length, ltb,
  ◌=ₛ◌, if◌then◌else◌,
}
use immich_go_backend.Base.Int.{ℤ, pos, negsuc, to_int32}
use immich_go_backend.Db.{
  Workflow, WorkflowExecution, Db, Outcome, ok, err, M, continue, ◌>>=◌, ◌>>◌, return, fail, wrap,
  need, check, UuidLib,
}
use immich_go_backend.Db.Workflows.{
  list_workflow_rows, get_workflow_by_id, create_workflow_row, WorkflowUpdate, update_workflow_row,
  delete_workflow_row, create_workflow_execution, increment_workflow_execution_count,
  list_workflow_executions, count_workflow_executions,
}

pub record Trigger (V : Type 0) : Type 0 where
  pub kind : String
  pub cron_expression : String
  pub conditions : Option V

pub record Action (V : Type 0) : Type 0 where
  pub kind : String
  pub params : Option V
  pub order : ℤ

pub record ActionResult : Type 0 where
  pub kind : String
  pub success : Bool
  pub error_message : String
  pub duration_ms : ℕ

pub record JsonLib (V : Type 0) : Type 0 where
  pub marshal_trigger : Trigger V → Option String
  pub unmarshal_trigger : String → Option (Trigger V)
  pub marshal_actions : List (Action V) → Option String
  pub unmarshal_actions : String → Option (List (Action V))
  pub marshal_data : Option V → Option String
  pub unmarshal_data : String → Option V
  pub marshal_results : List ActionResult → Option String
  pub unmarshal_results : String → Option (List ActionResult)

pub record WorkflowInfo (V : Type 0) : Type 0 where
  pub id : String
  pub name : String
  pub description : String
  pub status : String
  pub enabled : Bool
  pub trigger : Trigger V
  pub actions : List (Action V)
  pub created_at : ℕ
  pub updated_at : ℕ
  pub created_by : String
  pub error_message : String
  pub execution_count : ℕ
  pub last_execution_at : Option ℕ

pub record ExecutionInfo (V : Type 0) : Type 0 where
  pub id : String
  pub workflow_id : String
  pub status : String
  pub started_at : ℕ
  pub completed_at : Option ℕ
  pub error_message : String
  pub trigger_data : Option V
  pub action_results : List ActionResult

abbrev pub status_of : Bool → String
status_of true = "active"
status_of false = "disabled"

abbrev pub text_or_empty : Option String → String
text_or_empty none = ""
text_or_empty (some s) = s

abbrev pub join : {A B : Type 0} → Option A → (A → Option B) → Option B
join none f = none
join (some a) f = f a

-- The value of an argument that is there.
abbrev pub marshal_some : {A : Type 0} → String → (A → Option String) → Option A → M (Option String)
marshal_some message marshal none = return none
marshal_some message marshal (some a) = need message (marshal a) >>= λ s. return (some s)

abbrev pub some_unless_empty : {A : Type 0} → List A → Option (List A)
some_unless_empty [] = none
some_unless_empty (a ∷ rest) = some (a ∷ rest)

-- `if limit <= 0 { limit = 50 }`
abbrev pub limit_or_default : ℤ → ℤ
limit_or_default (pos n) = if ltb 0 n then pos n else pos 50
limit_or_default (negsuc n) = pos 50

module _ {V : Type 0} (u : UuidLib) (j : JsonLib V) where
  unfoldable pub trigger_from_db : String → M (Trigger V)
  trigger_from_db text =
      if text =ₛ ""
      then return (record { kind = ""; cron_expression = ""; conditions = none })
      else need "parse trigger" (j.unmarshal_trigger text)

  unfoldable pub actions_from_db : String → M (List (Action V))
  actions_from_db text =
      if text =ₛ "" then return [] else need "parse actions" (j.unmarshal_actions text)

  unfoldable pub workflow_from_db : Workflow → M (WorkflowInfo V)
  workflow_from_db row = do
    trigger ← trigger_from_db row.trigger
    actions ← actions_from_db row.actions
    return (record {
      id = u.format row.id;
      name = row.name;
      description = row.description;
      status = row.status;
      enabled = row.enabled;
      trigger = trigger;
      actions = actions;
      created_at = row.created_at;
      updated_at = row.updated_at;
      created_by = u.format row.owner_id;
      error_message = "";
      execution_count = row.execution_count;
      last_execution_at = row.last_execution_at;
    })

  -- Values that do not parse are left out.
  unfoldable pub execution_from_db : WorkflowExecution → ExecutionInfo V
  execution_from_db row = record {
    id = u.format row.id;
    workflow_id = u.format row.workflow_id;
    status = row.status;
    started_at = row.started_at;
    completed_at = row.completed_at;
    error_message = text_or_empty row.error_message;
    trigger_data = join row.trigger_data j.unmarshal_data;
    action_results = or_empty (join row.action_results j.unmarshal_results);
  }
    where
      or_empty : Option (List ActionResult) → List ActionResult
      or_empty none = []
      or_empty (some rs) = rs

  unfoldable pub workflows_from_db : List Workflow → M (List (WorkflowInfo V))
  workflows_from_db [] = return []
  workflows_from_db (row ∷ rest) =
      workflow_from_db row >>= λ info. workflows_from_db rest >>= λ later. return (info ∷ later)

  unfoldable pub list_workflows : M (List (WorkflowInfo V))
  list_workflows = do rows ← wrap "list workflows" list_workflow_rows; workflows_from_db rows

  abbrev pub missing : String → String
  missing workflow_id = "workflow not found: " <> workflow_id

  unfoldable pub get_workflow : String → M (WorkflowInfo V)
  get_workflow workflow_id = do
    id ← need (missing workflow_id) (u.parse workflow_id)
    row ← wrap (missing workflow_id) (get_workflow_by_id id)
    workflow_from_db row

  unfoldable pub create_workflow :
      ℕ → String → String → Trigger V → List (Action V) → Bool → String → M (WorkflowInfo V)
  create_workflow new_id name description trigger actions enabled created_by = do
    owner ← need "invalid owner id" (u.parse created_by)
    trigger_json ← need "marshal trigger" (j.marshal_trigger trigger)
    actions_json ← need "marshal actions" (j.marshal_actions actions)
    row ← wrap "create workflow" (
        create_workflow_row (record {
          id = new_id;
          owner_id = owner;
          name = name;
          description = description;
          enabled = enabled;
          status = status_of enabled;
          trigger = trigger_json;
          actions = actions_json;
          execution_count = 0;
          last_execution_at = none;
          created_at = 0;
          updated_at = 0;
        }))
    workflow_from_db row

  unfoldable pub update_workflow :
      String
      → Option String
      → Option String
      → Option (Trigger V)
      → List (Action V)
      → M (WorkflowInfo V)
  update_workflow workflow_id name description trigger actions = do
    id ← need (missing workflow_id) (u.parse workflow_id)
    trigger_json ← marshal_some "marshal trigger" j.marshal_trigger trigger
    actions_json ← marshal_some "marshal actions" j.marshal_actions (some_unless_empty actions)
    row ← wrap (missing workflow_id) (
        update_workflow_row id (record {
          name = name;
          description = description;
          enabled = none;
          status = none;
          trigger = trigger_json;
          actions = actions_json;
        }))
    workflow_from_db row

  unfoldable pub delete_workflow : String → M (Unit {0})
  delete_workflow workflow_id = do
    id ← need (missing workflow_id) (u.parse workflow_id)
    found ← wrap (missing workflow_id) (get_workflow_by_id id)
    wrap "delete workflow" (delete_workflow_row id)

  abbrev pub action_result : Action V → ActionResult
  action_result action = record {
    kind = action.kind;
    success = true;
    error_message = "";
    duration_ms = 1;
  }

  unfoldable pub trigger_workflow : ℕ → ℕ → String → Option V → M (ExecutionInfo V)
  trigger_workflow new_id now workflow_id trigger_data = do
    workflow ← get_workflow workflow_id
    check workflow.enabled ("workflow is disabled: " <> workflow_id)
    id ← need (missing workflow_id) (u.parse workflow_id)
    row ← wrap "create execution" (
        create_workflow_execution (record {
          id = new_id;
          workflow_id = id;
          status = "completed";
          started_at = now;
          completed_at = some now;
          error_message = none;
          trigger_data = j.marshal_data trigger_data;
          action_results = j.marshal_results (map action_result workflow.actions);
        }))
    counted ← wrap "increment execution count" (increment_workflow_execution_count id)
    return (execution_from_db row)

  unfoldable pub get_workflow_executions :
      String → ℤ → ℤ → Option String → M (List (ExecutionInfo V) × ℕ)
  get_workflow_executions workflow_id limit offset status = do
    found ← get_workflow workflow_id
    id ← need (missing workflow_id) (u.parse workflow_id)
    rows ←
        wrap "list executions"
          (list_workflow_executions id status (to_int32 (limit_or_default limit)) (to_int32 offset))
    total ← wrap "count executions" (count_workflow_executions id status)
    return (map execution_from_db rows, total)

  unfoldable pub set_workflow_enabled : String → Bool → M (WorkflowInfo V)
  set_workflow_enabled workflow_id enabled = do
    id ← need (missing workflow_id) (u.parse workflow_id)
    row ← wrap (missing workflow_id) (
        update_workflow_row id (record {
          name = none;
          description = none;
          enabled = some enabled;
          status = some (status_of enabled);
          trigger = none;
          actions = none;
        }))
    workflow_from_db row
