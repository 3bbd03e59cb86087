-- ===== src/Workflows/Tests.antt =====
-- An enabled workflow of one user, and the theorems of Workflows at concrete inputs.
use immich_go_backend.Base.{
  select, map, refl, String, true, false, none, some, List, [], ◌∷◌, ◌=ₛ◌, if◌then◌else◌, arith,
}
use immich_go_backend.Base.Int.{pos}
use immich_go_backend.Db.{Workflow, WorkflowExecution, Db, UuidLib}
use immich_go_backend.Db.Triples.{Post}
use immich_go_backend.Workflows.{
  JsonLib, Trigger, Action, trigger_workflow, set_workflow_enabled, get_workflow_executions,
}
use immich_go_backend.Workflows.Statements.{Consistent}
use immich_go_backend.Workflows.Operations.{
  Request, create, update, trigger, enable, delete, perform_all,
}
use immich_go_backend.Workflows.Histories.{Idle, Spares, perform_all-Idle}
use immich_go_backend.Db.Rows.{All}
use immich_go_backend.Workflows.Requests.{perform_all-Consistent}
use immich_go_backend.Workflows.Disabled.{Unchanged, trigger_workflow_disabled}
use immich_go_backend.Workflows.Listing.{is_asked, Lists, get_workflow_executions-Lists}
use immich_go_backend.Workflows.Runs.{succeeded, Recorded, trigger_workflow_records}

abbrev uuids : UuidLib
uuids = record {
  parse = λ s. if s =ₛ "1" then some 1 else if s =ₛ "5" then some 5 else none;
  format = λ n. "5";
}

abbrev on_upload : Trigger String
on_upload = record { kind = "asset_uploaded"; cron_expression = ""; conditions = none }

abbrev add_tag : Action String
add_tag = record { kind = "add_tag"; params = some "{}"; order = pos 1 }

abbrev json : JsonLib String
json = record {
  marshal_trigger = λ t. some "t";
  unmarshal_trigger = λ s. some on_upload;
  marshal_actions = λ actions. some "a";
  unmarshal_actions = λ s. some (add_tag ∷ []);
  marshal_data = λ v. some "null";
  unmarshal_data = λ s. none;
  marshal_results = λ rs. some "r";
  unmarshal_results = λ s. none;
}

abbrev tagging : Workflow
tagging = record {
  id = 5;
  owner_id = 1;
  name = "tagging";
  description = "";
  enabled = true;
  status = "active";
  trigger = "t";
  actions = "a";
  execution_count = 1;
  last_execution_at = some 40;
  created_at = 10;
  updated_at = 40;
}

abbrev first_run : WorkflowExecution
first_run = record {
  id = 70;
  workflow_id = 5;
  status = "completed";
  started_at = 40;
  completed_at = some 40;
  error_message = none;
  trigger_data = none;
  action_results = none;
}

abbrev automation : Db
automation = record {
  users = 1 ∷ [];
  albums = [];
  album_assets = [];
  album_users = [];
  exif_sizes = [];
  assets = [];
  stacks = [];
  links = [];
  link_assets = [];
  workflows = tagging ∷ [];
  executions = first_run ∷ [];
  clock = 100;
  outages = [];
}

automation-Consistent : Consistent automation
automation-Consistent = record { agree = ((refl, omega arith), tt); linked = (refl, tt) }

abbrev session : List (Request String)
session =
    create 6 "more" "" on_upload [] false "1"
    ∷ trigger 71 90 "5" none
    ∷ enable "5" false
    ∷ trigger 72 95 "5" none
    ∷ delete "5"
    ∷ []

perform_all-Consistent_example : Consistent (perform_all uuids json session automation)
perform_all-Consistent_example =
    perform_all-Consistent uuids json session automation automation-Consistent

-- The workflow is disabled; its name changes, and it is triggered twice.
abbrev paused : Db
paused = record automation {
  workflows = record tagging { enabled = false; status = "disabled" } ∷ [];
}

abbrev pokes : List (Request String)
pokes =
    trigger 71 90 "5" none
    ∷ update "5" (some "paused") none none []
    ∷ create 6 "more" "" on_upload [] true "1"
    ∷ trigger 72 95 "5" none
    ∷ []

pokes-All : All (Spares uuids 5) pokes
pokes-All = (tt, (tt, ((λ e. absurd (omega (arith, e))), (tt, tt))))

perform_all-Idle_example : Idle 5 1 (perform_all uuids json pokes paused)
perform_all-Idle_example = perform_all-Idle uuids json 5 pokes paused ((λ e. refl), tt) pokes-All

trigger_workflow_disabled_example :
    Post
      (λ info disabled.
        Post
          (λ r final. ⊥)
          (Unchanged disabled)
          (trigger_workflow uuids json 71 90 "5" none disabled))
      (λ final. Unit)
      (set_workflow_enabled uuids json "5" false automation)
trigger_workflow_disabled_example =
    trigger_workflow_disabled uuids json 71 90 5 "5" "5" none automation refl refl

abbrev second_run : WorkflowExecution
second_run = record {
  id = 71;
  workflow_id = 5;
  status = "completed";
  started_at = 90;
  completed_at = some 90;
  error_message = none;
  trigger_data = json.marshal_data none;
  action_results = json.marshal_results (map succeeded (add_tag ∷ []));
}

trigger_workflow_records_example :
    Post
      (λ r final. Recorded tagging second_run automation final)
      (λ final. ⊥)
      (trigger_workflow uuids json 71 90 "5" none automation)
trigger_workflow_records_example =
    trigger_workflow_records uuids json 5 "5" tagging on_upload (add_tag ∷ []) automation refl refl
      refl refl refl refl refl 71 90 none refl refl (omega arith)

get_workflow_executions-Lists_example :
    Post
      (λ r final.
        Lists uuids json (select (is_asked 5 (some "completed")) automation.executions) 50 0 r)
      (λ final. ⊥)
      (get_workflow_executions uuids json "5" (pos 0) (pos 0) (some "completed") automation)
get_workflow_executions-Lists_example =
    get_workflow_executions-Lists uuids json 5 "5" tagging on_upload (add_tag ∷ []) automation 0 0
      (some "completed") refl refl refl refl refl refl refl (omega arith) (omega arith)
