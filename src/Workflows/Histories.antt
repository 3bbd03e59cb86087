-- ===== src/Workflows/Histories.antt =====
-- A disabled workflow of internal/workflow/service.go stays idle over any sequence of requests.
use immich_go_backend.Base.{
  ltb, ◌+◌, ◌^◌, Bool-cases, inl, inr, ℕ, ◌≤◌, ◌≡◌, ◌≢◌, refl, sym, ◌∙◌, subst, ap, inl, inr,
  String, Bool, true, false, not, ◌&&◌, Option, none, some, List, [], ◌∷◌, arith, ◌==◌, select, any,
  Bool-cases,
}
use immich_go_backend.Base.Int.{ℤ, pos, negsuc}
use immich_go_backend.Db.{Workflow, WorkflowExecution, Db, UuidLib}
use immich_go_backend.Db.Assets.{find, update_where, sort_by, is_among}
use immich_go_backend.Db.Links.{coalesce}
use immich_go_backend.Db.Workflows.{
  has_workflow_id, list_workflow_rows, get_workflow_by_id, insert_workflow, create_workflow_row,
  WorkflowUpdate, write_workflow, update_workflow_where, update_workflow_row, delete_workflow_row,
  insert_execution, create_workflow_execution, count_run, count_found,
  increment_workflow_execution_count, runs_of, page, list_workflow_executions,
  count_workflow_executions,
}
use immich_go_backend.Db.Triples.{
  Post, Triple, bind-Triple, wrap-Triple, need-Triple, check-Triple, post-Triple, return-Triple,
  row-Post, statement-Triple,
}
use immich_go_backend.Db.Rows.{All, All-map, All-select}
use immich_go_backend.Workflows.{JsonLib, get_workflow, trigger_workflow}
use immich_go_backend.Workflows.Reading.{info_kept}
use immich_go_backend.Workflows.Statements.{runs}
use immich_go_backend.Workflows.Disabled.{Off, find-Off}
use immich_go_backend.Workflows.Operations.{
  Request, listing, get, delete, create, update, trigger, executions, enable, perform_all, Kept,
  Permitted, perform_kept,
}

runs_fewer :
    (id : ℕ) (p : WorkflowExecution → Bool) (es : List WorkflowExecution)
    → runs id (select p es) ≤ runs id es
runs_fewer id p [] = omega arith
runs_fewer id p (e ∷ es) = ground (arith, runs_fewer id p es)

-- The request neither makes a new workflow with the id nor enables it.
abbrev pub Spares : {V : Type 0} → UuidLib → ℕ → Request V → Type 0
Spares u id (create new_id name description t actions enabled created_by) = new_id ≢ id
Spares u id (enable text enabled) = u.parse text ≡ some id → enabled ≡ false
Spares u id _ = Unit

module _ (id n : ℕ) where
  -- The workflow is disabled, and has at most `n` runs.
  pub record Idle (db : Db) : Type 0 where
    pub off : Off id db.workflows
    pub few : runs id db.executions ≤ n

  abbrev OtherId : Workflow → Type 0
  OtherId w = w.id ≢ id

  abbrev StaysOff : ℕ → WorkflowUpdate → Type 0
  StaysOff m p = m ≡ id → coalesce p.enabled false ≡ false

  free : (db : Db) (later : List Bool) → Idle db → Idle (record db { outages = later })
  free db later h = record { off = h.off; few = h.few }

  page-Post :
      (limit offset : ℤ) (rows : List WorkflowExecution) (db : Db)
      → Idle db
      → Post (λ (r : List WorkflowExecution). Idle) Idle (page limit offset rows db)
  page-Post (pos l) (pos o) rows db k = k
  page-Post (pos l) (negsuc o) rows db k = k
  page-Post (negsuc l) o rows db k = k

  insert-Post :
      (allowed : Bool) (w : Workflow) (db : Db)
      → OtherId w
      → Idle db
      → Post (λ (r : Workflow). Idle) Idle (insert_workflow allowed w db)
  insert-Post false w db ne k = k
  insert-Post true w db ne k = record {
    off = ((λ q. let same : w.id ≡ id = ground arith in absurd (ne same)), k.off);
    few = k.few;
  }

  Off-update :
      (m : ℕ) (f : Workflow → Workflow) (ws : List Workflow)
      → ((w : Workflow) → (f w).id ≡ w.id)
      → ((w : Workflow) → m ≡ id → w.enabled ≡ false → (f w).enabled ≡ false)
      → Off id ws
      → Off id (update_where (has_workflow_id m) f ws)
  Off-update m f [] keeps h k = tt
  Off-update m f (w ∷ ws) keeps h (o, k) = elim (Bool-cases (w.id == m)) [
    | inl e ↦ rw e ((λ q. stays e (rw (keeps w) at q)), Off-update m f ws keeps h k)
    | inr e ↦ rw e (o, Off-update m f ws keeps h k)
  ]
    where
      stays : (w.id == m) ≡ true → (w.id == id) ≡ true → (f w).enabled ≡ false
      stays e q = let same : m ≡ id = ground arith in h w same (o q)

  update-Post :
      (m : ℕ) (f : Workflow → Workflow) (o : Option Workflow) (db : Db)
      → ((w : Workflow) → (f w).id ≡ w.id)
      → ((w : Workflow) → m ≡ id → w.enabled ≡ false → (f w).enabled ≡ false)
      → Idle db
      → Post (λ (w : Workflow). Idle) Idle (update_workflow_where m f o db)
  update-Post m f none db keeps h k = k
  update-Post m f (some w) db keeps h k = record {
    off = Off-update m f db.workflows keeps h k.off;
    few = k.few;
  }

  kept : Kept Idle OtherId StaysOff
  unfolding list_workflow_rows get_workflow_by_id count_workflow_executions list_workflow_executions
      create_workflow_row update_workflow_row delete_workflow_row
  kept = record {
    rows = statement-Triple free (λ db k. k) (record { run = λ db k. k });
    row = λ m.
        statement-Triple free (λ db k. k)
          (record {
            run = λ db k. row-Post _ _ db (find (has_workflow_id m) db.workflows) (λ w e. k) k;
          });
    count = λ m status. statement-Triple free (λ db k. k) (record { run = λ db k. k });
    list = λ m status limit offset.
        statement-Triple free (λ db k. k)
          (record {
            run = λ db k.
                page-Post limit offset
                  (sort_by (λ e. e.started_at) (runs_of m status db.executions)) db k;
          });
    create_row = λ w ne.
        statement-Triple free (λ db k. k)
          (record {
            run = λ db k.
                insert-Post
                  (not (any (has_workflow_id w.id) db.workflows) && is_among db.users w.owner_id)
                  (record w {
                    execution_count = 0;
                    last_execution_at = none;
                    created_at = db.clock;
                    updated_at = db.clock;
                  })
                  db ne k;
          });
    update_row = λ m p stays.
        statement-Triple free (λ db k. k)
          (record {
            run = λ db k.
                update-Post m (write_workflow p db.clock) (find (has_workflow_id m) db.workflows) db
                  (λ w. refl) (λ w e h. rw h (stays e)) k;
          });
    delete_row = λ m.
        statement-Triple free (λ db k. k)
          (record {
            run = λ db k. record {
              off =
                  All-map _ _ (select (λ w. not (w.id == m)) db.workflows) (λ (w : Workflow) q. q.0)
                    (All-select _ (λ w. not (w.id == m)) db.workflows k.off);
              few =
                  let less = runs_fewer id (λ e. not (e.workflow_id == m)) db.executions in
                  let few = k.few in omega arith;
            };
          });
  }

  run-Post :
      (allowed : Bool) (e : WorkflowExecution) (db : Db)
      → e.workflow_id ≢ id
      → Idle db
      → Post (λ (r : WorkflowExecution). Idle) Idle (insert_execution allowed e db)
  run-Post false e db ne k = k
  run-Post true e db ne k =
      let miss : (e.workflow_id == id) ≡ false = ground arith in
      record { off = k.off; few = rw miss k.few }

  run-Triple :
      (e : WorkflowExecution)
      → e.workflow_id ≢ id
      → Triple Idle (create_workflow_execution e) (λ r. Idle) Idle
  unfolding create_workflow_execution
  run-Triple e ne =
      statement-Triple free (λ db k. k) (record { run = λ db k. run-Post _ e db ne k })

  count-Post :
      (m : ℕ) (o : Option Workflow) (db : Db)
      → Idle db
      → Post (λ (w : Workflow). Idle) Idle (count_found m o db)
  count-Post m none db k = k
  count-Post m (some w) db k = elim (Bool-cases (ltb (w.execution_count + 1) (2 ^ 31))) [
    | inl e ↦ rw e (update-Post m (count_run db.clock) (some w) db (λ x. refl) (λ x q h. h) k)
    | inr e ↦ rw e k
  ]

  increment-Triple : (m : ℕ) → Triple Idle (increment_workflow_execution_count m) (λ w. Idle) Idle
  unfolding increment_workflow_execution_count
  increment-Triple m =
      statement-Triple free (λ db k. k)
        (record { run = λ db k. count-Post m (find (has_workflow_id m) db.workflows) db k })

  row-Triple :
      (m : ℕ)
      → Triple Idle (get_workflow_by_id m) (λ w db. Idle db × (w.enabled ≡ true → m ≢ id)) Idle
  unfolding get_workflow_by_id
  row-Triple m =
      statement-Triple free (λ db k. k)
        (record {
          run = λ db k.
              row-Post _ _ db (find (has_workflow_id m) db.workflows)
                (λ w e. (
                  k,
                  λ on same. contradiction w on (
                      find-Off id db.workflows w k.off
                        (subst (λ t. find (has_workflow_id t) db.workflows ≡ some w) same e)),
                ))
                k;
        })
    where
      contradiction : (w : Workflow) → w.enabled ≡ true → w.enabled ≡ false → ⊥
      contradiction w on off = let both : true ≡ false = sym on ∙ off in cc

  module _ {V : Type 0} (u : UuidLib) (j : JsonLib V) where
    get-Triple :
        (text : String)
        → Triple Idle
            (get_workflow u j text)
            (λ i db. Idle db × (i.enabled ≡ true → u.parse text ≢ some id))
            Idle
    unfolding get_workflow
    get-Triple text = bind-Triple (need-Triple _ (u.parse text) (λ db k. k)) λ m. record {
      run = λ db (k, e).
          (bind-Triple (wrap-Triple _ (row-Triple m)) λ w. record {
            run = λ next (h, ne).
                (post-Triple (λ i final (q, s). (q, λ on p. ne (sym s ∙ on) (unsome m (sym e ∙ p))))
                    (info_kept u j Idle w)).run
                  next h;
          }).run
            db k;
    }
      where
        unsome : (m : ℕ) → some m ≡ some id → m ≡ id
        unsome m e = cc

    trigger-Triple :
        (new_id now : ℕ) (text : String) (value : Option V)
        → Triple Idle (trigger_workflow u j new_id now text value) (λ r. Idle) Idle
    unfolding trigger_workflow
    trigger-Triple new_id now text value = bind-Triple (get-Triple text) λ i. record {
      run = λ db (k, ne).
          (bind-Triple (check-Triple {P = Idle} _ i.enabled (λ db k. k)) λ done. record {
            run = λ next (h, on).
                (bind-Triple (need-Triple _ (u.parse text) (λ db k. k)) λ m. record {
                  run = λ later (q, e).
                      (bind-Triple (wrap-Triple _ (run-Triple _ (λ same. ne on (e ∙ ap some same))))
                          λ r.
                            bind-Triple (wrap-Triple _ (increment-Triple m))
                              λ counted. return-Triple _).run
                        later q;
                }).run
                  next h;
          }).run
            db k;
    }

    permitted : (r : Request V) → Spares u id r → Permitted u j Idle OtherId StaysOff kept r
    permitted listing s = tt
    permitted (get text) s = tt
    permitted (delete text) s = tt
    permitted (create new_id name description t actions enabled created_by) s =
        λ w e q same. s (sym e ∙ same)
    permitted (update text name description t actions) s = λ m p e q same. rw e refl
    permitted (trigger new_id now text value) s = trigger-Triple new_id now text value
    permitted (executions text limit offset status) s = tt
    permitted (enable text enabled) s = λ m p e q t same. rw q (s (e ∙ ap some same))

    history :
        (requests : List (Request V)) (db : Db)
        → All (Spares u id) requests
        → Idle db
        → Idle (perform_all u j requests db)
    history [] db h k = k
    history (r ∷ rest) db (s, h) k =
        history rest _ h (perform_kept u j Idle OtherId StaysOff kept r db (permitted r s) k)

-- A disabled workflow does not run: over any requests, and with whatever outages, it stays disabled and
-- no run of it is recorded, as long as no request enables it or makes a new workflow with its id.
pub perform_all-Idle :
    {V : Type 0} (u : UuidLib) (j : JsonLib V) (id : ℕ) (requests : List (Request V)) (db : Db)
    → Off id db.workflows
    → All (Spares u id) requests
    → Idle id (runs id db.executions) (perform_all u j requests db)
perform_all-Idle u j id requests db off h =
    history id (runs id db.executions) u j requests db h (record { off = off; few = omega arith })
