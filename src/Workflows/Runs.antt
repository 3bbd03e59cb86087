-- ===== src/Workflows/Runs.antt =====
-- What TriggerWorkflow of internal/workflow/service.go records where no statement fails.
use immich_go_backend.Base.{
  ℕ, ◌<◌, ◌+◌, ◌^◌, ◌≢◌, none, ◌≡◌, refl, ap, ◌∙◌, String, true, false, Option, some, List, [], ◌∷◌,
  map, arith, ◌==◌, inl, inr, Bool-cases, ltb, ◌=ₛ◌, any,
}
use immich_go_backend.Db.{Workflow, WorkflowExecution, Db, wrap, need, check, statement, UuidLib}
use immich_go_backend.Db.Assets.{find, update_where}
use immich_go_backend.Db.Workflows.{
  has_workflow_id, get_workflow_by_id, create_workflow_execution,
  increment_workflow_execution_count, count_run,
}
use immich_go_backend.Db.Triples.{Post}
use immich_go_backend.Workflows.{
  JsonLib, Trigger, Action, ActionResult, trigger_from_db, actions_from_db, workflow_from_db,
  get_workflow, trigger_workflow,
}

-- The result of an action in a run: every action succeeds in 1 ms.
abbrev pub succeeded : {V : Type 0} → Action V → ActionResult
succeeded a = record { kind = a.kind; success = true; error_message = ""; duration_ms = 1 }

-- The database has one more run, the given one, in front of the others. The workflow `w` with the id
-- of the run counts it and has it as its last at the time of the statement, and no other row of
-- `workflows` is found changed.
pub record Recorded (w : Workflow) (run : WorkflowExecution) (start db : Db) : Type 0 where
  pub recorded : db.executions ≡ run ∷ start.executions
  pub counted :
      find (has_workflow_id run.workflow_id) db.workflows
      ≡ some (record w {
        execution_count = w.execution_count + 1;
        last_execution_at = some start.clock;
        updated_at = start.clock;
      })
  pub others :
      (other : ℕ)
      → other ≢ run.workflow_id
      → find (has_workflow_id other) db.workflows ≡ find (has_workflow_id other) start.workflows

any-find :
    (id : ℕ) (ws : List Workflow) (w : Workflow)
    → find (has_workflow_id id) ws ≡ some w
    → any (has_workflow_id id) ws ≡ true
any-find id [] w e = absurd cc
any-find id (x ∷ ws) w e = elim (Bool-cases (x.id == id)) [
  | inl q ↦ rw q refl
  | inr q ↦ rw q (any-find id ws w (rw q at e))
]

module _ (id : ℕ) (f : Workflow → Workflow) (keeps : (w : Workflow) → (f w).id ≡ w.id) where
  find-updated :
      (ws : List Workflow) (w : Workflow)
      → find (has_workflow_id id) ws ≡ some w
      → find (has_workflow_id id) (update_where (has_workflow_id id) f ws) ≡ some (f w)
  find-updated [] w e = absurd cc
  find-updated (x ∷ ws) w e = elim (Bool-cases (x.id == id)) [
    | inl q ↦
        let same : some x ≡ some w = rw q at e in
        let x≡w : x ≡ w = cc in
        let hit : ((f x).id == id) ≡ true = rw (keeps x) q in rw (q, hit) (ap (λ t. some (f t)) x≡w)
    | inr q ↦ rw (q, q) (find-updated ws w (rw q at e))
  ]

  find-other :
      (other : ℕ) (ws : List Workflow)
      → other ≢ id
      → find (has_workflow_id other) (update_where (has_workflow_id id) f ws)
        ≡ find (has_workflow_id other) ws
  find-other other [] ne = refl
  find-other other (x ∷ ws) ne = elim (Bool-cases (x.id == id)) [
    | inl q ↦
        let miss : (x.id == other) ≡ false = ground arith in
        rw (q, keeps x, miss) (find-other other ws ne)
    | inr q ↦ rw (q, find-other other ws ne) refl
  ]

module _ {V : Type 0} (u : UuidLib) (j : JsonLib V) (id : ℕ) (text : String) (w : Workflow)
    (t : Trigger V) (actions : List (Action V)) (db : Db) (calm : db.outages ≡ [])
    (parsed : u.parse text ≡ some id) (found : find (has_workflow_id id) db.workflows ≡ some w)
    (has_trigger : (w.trigger =ₛ "") ≡ false) (trigger : j.unmarshal_trigger w.trigger ≡ some t)
    (has_actions : (w.actions =ₛ "") ≡ false)
    (read_actions : j.unmarshal_actions w.actions ≡ some actions) where
  -- A trigger of an enabled workflow, whatever the id of the run, the time and the data: it succeeds,
  -- exactly one run comes, completed at that time with the data and one success for each action, in
  -- order; the workflow counts one run more, last at the time of the statement, and no other workflow
  -- changes. No statement fails, the row of the workflow is there and its JSON parses, the id of the
  -- run is new, and the count has room in its 32 bits.
  pub trigger_workflow_records :
      (new_id now : ℕ) (value : Option V)
      → w.enabled ≡ true
      → any (λ x. x.id == new_id) db.executions ≡ false
      → w.execution_count + 1 < 2 ^ 31
      → Post
          (λ r final.
            Recorded w
              (record {
                id = new_id;
                workflow_id = id;
                status = "completed";
                started_at = now;
                completed_at = some now;
                error_message = none;
                trigger_data = j.marshal_data value;
                action_results = j.marshal_results (map succeeded actions);
              })
              db
              final)
          (λ final. ⊥)
          (trigger_workflow u j new_id now text value db)
  unfolding trigger_workflow get_workflow get_workflow_by_id workflow_from_db trigger_from_db
      actions_from_db wrap need check statement create_workflow_execution
      increment_workflow_execution_count
  trigger_workflow_records new_id now value enabled fresh room =
      let small : ltb (w.execution_count + 1) (2 ^ 31) ≡ true = ground arith in
      rw
        (
          parsed,
          calm,
          found,
          has_trigger,
          trigger,
          has_actions,
          read_actions,
          enabled,
          fresh,
          any-find id db.workflows w found,
          found,
          small,
        )
        (record {
          recorded = refl;
          counted =
              find-updated id (count_run db.clock) (λ x. refl) db.workflows w found
              ∙ rw enabled refl;
          others = λ other. find-other id (count_run db.clock) (λ x. refl) other db.workflows;
        })
