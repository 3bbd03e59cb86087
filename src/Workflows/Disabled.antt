-- ===== src/Workflows/Disabled.antt =====
-- SetWorkflowEnabled and TriggerWorkflow of internal/workflow/service.go together: a workflow that is
-- disabled does not run.
use immich_go_backend.Base.{
  ℕ, ◌≡◌, refl, sym, ◌∙◌, subst, String, Bool, true, false, Option, none, some, List, [], ◌∷◌, ◌==◌,
  inl, inr, Bool-cases,
}
use immich_go_backend.Db.{Workflow, Db, Outcome, ok, err, need, check, UuidLib}
use immich_go_backend.Db.Assets.{find, update_where}
use immich_go_backend.Db.Workflows.{
  has_workflow_id, get_workflow_by_id, WorkflowUpdate, write_workflow, update_workflow_where,
  update_workflow_row,
}
use immich_go_backend.Db.Triples.{
  Post, Triple, bind-Triple, wrap-Triple, post-Triple, row-Post, statement-Triple,
}
use immich_go_backend.Db.Rows.{All}
use immich_go_backend.Workflows.Reading.{info_kept}
use immich_go_backend.Workflows.{
  JsonLib, WorkflowInfo, get_workflow, set_workflow_enabled, trigger_workflow,
}

-- The workflow is disabled, if it is there.
abbrev pub Off : ℕ → List Workflow → Type 0
Off id ws = All (λ (w : Workflow). (w.id == id) ≡ true → w.enabled ≡ false) ws

pub find-Off :
    (id : ℕ) (ws : List Workflow) (w : Workflow)
    → Off id ws
    → find (has_workflow_id id) ws ≡ some w
    → w.enabled ≡ false
find-Off id [] w h e = cc
find-Off id (x ∷ ws) w (h, hs) e = elim (Bool-cases (x.id == id)) [
  | inl q ↦
      let found : some x ≡ some w = rw q at e in
      let same : x ≡ w = cc in subst (λ (v : Workflow). v.enabled ≡ false) same (h q)
  | inr q ↦ find-Off id ws w hs (rw q at e)
]

Off-update_where :
    (id : ℕ) (f : Workflow → Workflow) (ws : List Workflow)
    → ((w : Workflow) → (f w).enabled ≡ false)
    → Off id (update_where (has_workflow_id id) f ws)
Off-update_where id f [] h = tt
Off-update_where id f (w ∷ ws) h = elim (Bool-cases (w.id == id)) [
  | inl e ↦ rw e ((λ q. h w), Off-update_where id f ws h)
  | inr e ↦ rw e ((λ q. absurd cc), Off-update_where id f ws h)
]

-- The workflows and their runs are as before.
pub record Unchanged (start db : Db) : Type 0 where
  pub workflows_kept : db.workflows ≡ start.workflows
  pub executions_kept : db.executions ≡ start.executions

module _ {V : Type 0} (u : UuidLib) (j : JsonLib V) where
  module _ (id : ℕ) (start : Db) (off : Off id start.workflows) where
    same :
        (db : Db) (later : List Bool)
        → Unchanged start db
        → Unchanged start (record db { outages = later })
    same db later h = record {
      workflows_kept = h.workflows_kept;
      executions_kept = h.executions_kept;
    }

    off_row :
        Triple
          (Unchanged start)
          (get_workflow_by_id id)
          (λ w db. Unchanged start db × (w.enabled ≡ false))
          (Unchanged start)
    unfolding get_workflow_by_id
    off_row =
        statement-Triple same (λ db k. k)
          (record {
            run = λ db k.
                row-Post _ _ db (find (has_workflow_id id) db.workflows)
                  (λ w e.
                    (k, find-Off id db.workflows w (subst (Off id) (sym k.workflows_kept) off) e))
                  k;
          })

    off_info :
        (text : String)
        → u.parse text ≡ some id
        → Triple
            (Unchanged start)
            (get_workflow u j text)
            (λ i db. Unchanged start db × (i.enabled ≡ false))
            (Unchanged start)
    unfolding get_workflow need
    off_info text parsed = rw parsed (
        bind-Triple (wrap-Triple _ off_row) λ w. record {
          run = λ db (k, e).
              (post-Triple (λ i final (h, q). (h, q ∙ e)) (info_kept u j (Unchanged start) w)).run
                db k;
        })

    -- TriggerWorkflow refuses.
    refuses :
        (new_id now : ℕ) (text : String) (value : Option V)
        → u.parse text ≡ some id
        → Triple
            (Unchanged start)
            (trigger_workflow u j new_id now text value)
            (λ r db. ⊥)
            (Unchanged start)
    unfolding trigger_workflow check
    refuses new_id now text value parsed =
        bind-Triple (off_info text parsed) λ i. record { run = λ db (k, e). rw e k }

  Any : Db → Type 0
  Any db = Unit

  found-Post :
      (id : ℕ) (p : WorkflowUpdate) (now : ℕ) (o : Option Workflow) (db : Db)
      → p.enabled ≡ some false
      → Post
          (λ (w : Workflow) final. Off id final.workflows)
          (λ final. Unit)
          (update_workflow_where id (write_workflow p now) o db)
  found-Post id p now none db e = tt
  found-Post id p now (some w) db e =
      Off-update_where id (write_workflow p now) db.workflows (λ w. rw e refl)

  disabling :
      (text : String) (id : ℕ)
      → u.parse text ≡ some id
      → Triple
          (λ db. Unit)
          (set_workflow_enabled u j text false)
          (λ i db. Off id db.workflows)
          (λ db. Unit)
  unfolding set_workflow_enabled need update_workflow_row
  disabling text id parsed = rw parsed (
      bind-Triple
        (wrap-Triple _ (
          statement-Triple (λ db later k. tt) (λ db k. tt)
            (record {
              run = λ db k.
                  found-Post id
                    (record {
                      name = none;
                      description = none;
                      enabled = some false;
                      status = some "disabled";
                      trigger = none;
                      actions = none;
                    })
                    db.clock (find (has_workflow_id id) db.workflows) db refl;
            })))
        λ w. record {
          run = λ db k. weaken w _ ((info_kept u j (λ final. Off id final.workflows) w).run db k);
        })
    where
      weaken :
          (w : Workflow) (o : Outcome (WorkflowInfo V))
          → Post
              (λ i final. Off id final.workflows × (i.enabled ≡ w.enabled))
              (λ final. Off id final.workflows)
              o
          → Post (λ (i : WorkflowInfo V) final. Off id final.workflows) (λ final. Unit) o
      weaken w (ok i db) (h, e) = h
      weaken w (err e db) h = tt

  -- After a successful SetWorkflowEnabled with `false`, a trigger of the workflow fails and records no
  -- run, whatever statements fail. Both ids parse to the same UUID.
  pub trigger_workflow_disabled :
      (new_id now id : ℕ) (first second : String) (value : Option V) (db : Db)
      → u.parse first ≡ some id
      → u.parse second ≡ some id
      → Post
          (λ info disabled.
            Post
              (λ r final. ⊥)
              (Unchanged disabled)
              (trigger_workflow u j new_id now second value disabled))
          (λ final. Unit)
          (set_workflow_enabled u j first false db)
  trigger_workflow_disabled new_id now id first second value db e f =
      (post-Triple
          (λ info disabled off.
            (refuses id disabled off new_id now second value f).run disabled
              (record { workflows_kept = refl; executions_kept = refl }))
          (disabling first id e)).run
        db tt
