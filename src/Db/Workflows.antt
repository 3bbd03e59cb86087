-- ===== src/Db/Workflows.antt =====
-- The statements on `workflows` and `workflow_executions` in internal/db/sqlc/queries.sql.go, with the
-- constraints of sqlc/schema.sql: the primary keys, and the references to users and, ON DELETE
-- CASCADE, to workflows. Columns of JSON are texts.
use immich_go_backend.Base.{
  ℕ, ◌+◌, ◌^◌, ltb, if◌then◌else◌, String, Bool, true, false, not, ◌&&◌, Option, none, some, List,
  ◌∷◌, ◌==◌, ◌=ₛ◌, select, any, length, take, drop,
}
use immich_go_backend.Base.Int.{ℤ, pos, negsuc}
use immich_go_backend.Db.{
  Workflow, WorkflowExecution, M, ok, err, no_rows, conflict, refused, statement,
}
use immich_go_backend.Db.Assets.{find, update_where, sort_by, is_among, row}
use immich_go_backend.Db.Links.{coalesce}

abbrev pub has_workflow_id : ℕ → Workflow → Bool
has_workflow_id id w = w.id == id

unfoldable pub list_workflow_rows : M (List Workflow)
list_workflow_rows = statement λ db. ok (sort_by (λ w. w.created_at) db.workflows) db

unfoldable pub get_workflow_by_id : ℕ → M Workflow
get_workflow_by_id id = statement λ db. row (find (has_workflow_id id) db.workflows) db

abbrev pub insert_workflow : Bool → Workflow → M Workflow
insert_workflow true w db = ok w (record db { workflows = w ∷ db.workflows })
insert_workflow false w db = err conflict db

unfoldable pub create_workflow_row : Workflow → M Workflow
create_workflow_row params = statement λ db.
    insert_workflow
      (not (any (has_workflow_id params.id) db.workflows) && is_among db.users params.owner_id)
      (record params {
        execution_count = 0;
        last_execution_at = none;
        created_at = db.clock;
        updated_at = db.clock;
      })
      db

-- The arguments of UpdateWorkflow; `none` is NULL.
pub record WorkflowUpdate : Type 0 where
  pub name : Option String
  pub description : Option String
  pub enabled : Option Bool
  pub status : Option String
  pub trigger : Option String
  pub actions : Option String

abbrev pub write_workflow : WorkflowUpdate → ℕ → Workflow → Workflow
write_workflow p now w = record w {
  name = coalesce p.name w.name;
  description = coalesce p.description w.description;
  enabled = coalesce p.enabled w.enabled;
  status = coalesce p.status w.status;
  trigger = coalesce p.trigger w.trigger;
  actions = coalesce p.actions w.actions;
  updated_at = now;
}

-- UPDATE … RETURNING, by the primary key.
abbrev pub update_workflow_where : ℕ → (Workflow → Workflow) → Option Workflow → M Workflow
update_workflow_where id f none db = err no_rows db
update_workflow_where id f (some w) db =
    ok (f w) (record db { workflows = update_where (has_workflow_id id) f db.workflows })

unfoldable pub update_workflow_row : ℕ → WorkflowUpdate → M Workflow
update_workflow_row id p = statement λ db.
    update_workflow_where id (write_workflow p db.clock) (find (has_workflow_id id) db.workflows) db

unfoldable pub delete_workflow_row : ℕ → M (Unit {0})
delete_workflow_row id = statement λ db. ok tt (record db {
  workflows = select (λ w. not (w.id == id)) db.workflows;
  executions = select (λ e. not (e.workflow_id == id)) db.executions;
})

abbrev pub insert_execution : Bool → WorkflowExecution → M WorkflowExecution
insert_execution true e db = ok e (record db { executions = e ∷ db.executions })
insert_execution false e db = err conflict db

unfoldable pub create_workflow_execution : WorkflowExecution → M WorkflowExecution
create_workflow_execution e = statement λ db.
    insert_execution
      (not (any (λ x. x.id == e.id) db.executions)
        && any (has_workflow_id e.workflow_id) db.workflows)
      e db

abbrev pub count_run : ℕ → Workflow → Workflow
count_run now w = record w {
  execution_count = w.execution_count + 1;
  last_execution_at = some now;
  updated_at = now;
}

-- "executionCount" is an integer of 32 bits: PostgreSQL refuses a sum out of its range, and the
-- statement fails.
abbrev pub count_found : ℕ → Option Workflow → M Workflow
count_found id none db = err no_rows db
count_found id (some w) db =
    if ltb (w.execution_count + 1) (2 ^ 31)
    then update_workflow_where id (count_run db.clock) (some w) db
    else err refused db

unfoldable pub increment_workflow_execution_count : ℕ → M Workflow
increment_workflow_execution_count id =
    statement λ db. count_found id (find (has_workflow_id id) db.workflows) db

abbrev pub has_status : Option String → WorkflowExecution → Bool
has_status none e = true
has_status (some s) e = e.status =ₛ s

abbrev pub runs_of : ℕ → Option String → List WorkflowExecution → List WorkflowExecution
runs_of id status = select (λ e. e.workflow_id == id && has_status status e)

-- PostgreSQL refuses a negative LIMIT or OFFSET.
abbrev pub page : ℤ → ℤ → List WorkflowExecution → M (List WorkflowExecution)
page (pos limit) (pos offset) rows db = ok (take limit (drop offset rows)) db
page (pos limit) (negsuc n) rows db = err refused db
page (negsuc n) offset rows db = err refused db

unfoldable pub list_workflow_executions : ℕ → Option String → ℤ → ℤ → M (List WorkflowExecution)
list_workflow_executions id status limit offset =
    statement
      λ db. page limit offset (sort_by (λ e. e.started_at) (runs_of id status db.executions)) db

unfoldable pub count_workflow_executions : ℕ → Option String → M ℕ
count_workflow_executions id status =
    statement λ db. ok (length (runs_of id status db.executions)) db
