-- ===== src/Workflows/Statements.antt =====
-- What the statements on workflows and their runs keep.
use immich_go_backend.Base.{
  ltb, ◌+◌, ◌^◌, Bool-cases, inl, inr, ℕ, ◌+◌, ◌≤◌, ◌≡◌, refl, sym, ◌∙◌, inl, inr, String, Bool,
  true, false, not, ◌&&◌, Option, none, some, List, [], ◌∷◌, arith, ◌==◌, select, any, length,
  Bool-cases,
}
use immich_go_backend.Base.Int.{ℤ, pos, negsuc}
use immich_go_backend.Db.{Workflow, WorkflowExecution, Db}
use immich_go_backend.Db.Assets.{find, update_where, sort_by, is_among}
use immich_go_backend.Db.Links.{coalesce}
use immich_go_backend.Db.Workflows.{
  has_workflow_id, list_workflow_rows, get_workflow_by_id, insert_workflow, create_workflow_row,
  WorkflowUpdate, write_workflow, update_workflow_where, update_workflow_row, delete_workflow_row,
  insert_execution, create_workflow_execution, count_run, count_found,
  increment_workflow_execution_count, runs_of, page, list_workflow_executions,
  count_workflow_executions,
}
use immich_go_backend.Db.Triples.{Post, Triple, row-Post, statement-Triple}
use immich_go_backend.Db.Rows.{All, All-map, All-zip, All-select}
use immich_go_backend.Workflows.{status_of}

-- The runs of a workflow.
abbrev pub runs : ℕ → List WorkflowExecution → ℕ
runs id es = length (runs_of id none es)

-- A workflow is active where it is enabled, and counts no run that is not recorded.
abbrev pub Agrees : List WorkflowExecution → Workflow → Type 0
Agrees es w = (w.status ≡ status_of w.enabled) × (w.execution_count ≤ runs w.id es)

abbrev pub HasWorkflow : List Workflow → WorkflowExecution → Type 0
HasWorkflow ws e = any (has_workflow_id e.workflow_id) ws ≡ true

-- Every recorded run is one of a workflow that is there.
pub record Consistent (db : Db) : Type 0 where
  pub agree : All (Agrees db.executions) db.workflows
  pub linked : All (HasWorkflow db.workflows) db.executions

-- A run of the workflow is recorded and not yet counted.
abbrev pub Uncounted : ℕ → Db → Type 0
Uncounted id db =
    All (λ (w : Workflow). (w.id == id) ≡ true → w.execution_count + 1 ≤ runs w.id db.executions)
      db.workflows

abbrev K : Db → Type 0
K = Consistent

free : (db : Db) (later : List Bool) → K db → K (record db { outages = later })
free db later h = record { agree = h.agree; linked = h.linked }

pub rows-Triple : Triple K list_workflow_rows (λ rows. K) K
unfolding list_workflow_rows
rows-Triple = statement-Triple free (λ db k. k) (record { run = λ db k. k })

pub row-Triple : (id : ℕ) → Triple K (get_workflow_by_id id) (λ w. K) K
unfolding get_workflow_by_id
row-Triple id =
    statement-Triple free (λ db k. k)
      (record {
        run = λ db k. row-Post _ _ db (find (has_workflow_id id) db.workflows) (λ w e. k) k;
      })

pub count-Triple :
    (id : ℕ) (status : Option String) → Triple K (count_workflow_executions id status) (λ n. K) K
unfolding count_workflow_executions
count-Triple id status = statement-Triple free (λ db k. k) (record { run = λ db k. k })

page-Post :
    (limit offset : ℤ) (rows : List WorkflowExecution) (db : Db)
    → K db
    → Post (λ (r : List WorkflowExecution). K) K (page limit offset rows db)
page-Post (pos l) (pos o) rows db k = k
page-Post (pos l) (negsuc o) rows db k = k
page-Post (negsuc l) o rows db k = k

pub list-Triple :
    (id : ℕ) (status : Option String) (limit offset : ℤ)
    → Triple K (list_workflow_executions id status limit offset) (λ rows. K) K
unfolding list_workflow_executions
list-Triple id status limit offset =
    statement-Triple free (λ db k. k)
      (record {
        run = λ db k.
            page-Post limit offset (sort_by (λ e. e.started_at) (runs_of id status db.executions))
              db k;
      })

insert-Post :
    (allowed : Bool) (w : Workflow) (db : Db)
    → w.status ≡ status_of w.enabled
    → w.execution_count ≡ 0
    → K db
    → Post (λ (r : Workflow). K) K (insert_workflow allowed w db)
insert-Post false w db s z k = k
insert-Post true w db s z k = record {
  agree = ((s, omega (arith, z)), k.agree);
  linked =
      All-map _ _ db.executions
        (λ (e : WorkflowExecution) (h : any (has_workflow_id e.workflow_id) db.workflows ≡ true).
          ground arith)
        k.linked;
}

pub create-Triple :
    (w : Workflow) → w.status ≡ status_of w.enabled → Triple K (create_workflow_row w) (λ r. K) K
unfolding create_workflow_row
create-Triple w s =
    statement-Triple free (λ db k. k)
      (record {
        run = λ db k.
            insert-Post
              (not (any (has_workflow_id w.id) db.workflows) && is_among db.users w.owner_id)
              (record w {
                execution_count = 0;
                last_execution_at = none;
                created_at = db.clock;
                updated_at = db.clock;
              })
              db s refl k;
      })

-- An UPDATE that keeps the ids.
module _ (id : ℕ) (f : Workflow → Workflow) (keeps : (w : Workflow) → (f w).id ≡ w.id) where
  any-update_where :
      (other : ℕ) (ws : List Workflow)
      → any (has_workflow_id other) (update_where (has_workflow_id id) f ws)
        ≡ any (has_workflow_id other) ws
  any-update_where other [] = refl
  any-update_where other (w ∷ ws) = elim (Bool-cases (w.id == id)) [
    | inl e ↦ rw (e, keeps w, any-update_where other ws) refl
    | inr e ↦ rw (e, any-update_where other ws) refl
  ]

  All-update_where :
      (P : Workflow → Type 0) (ws : List Workflow)
      → All (λ (w : Workflow). P w × ((w.id == id) ≡ true → P (f w))) ws
      → All P (update_where (has_workflow_id id) f ws)
  All-update_where P [] h = tt
  All-update_where P (w ∷ ws) ((p, q), h) = elim (Bool-cases (w.id == id)) [
    | inl e ↦ rw e (q e, All-update_where P ws h)
    | inr e ↦ rw e (p, All-update_where P ws h)
  ]

  pub update-Post :
      (o : Option Workflow) (db : Db)
      → All (λ (w : Workflow). (w.id == id) ≡ true → Agrees db.executions (f w)) db.workflows
      → K db
      → Post (λ (r : Workflow). K) K (update_workflow_where id f o db)
  update-Post none db h k = k
  update-Post (some w) db h k = record {
    agree =
        All-update_where (Agrees db.executions) db.workflows
          (All-zip _ _ _ db.workflows (λ (w : Workflow) a b. (a, b)) k.agree h);
    linked =
        All-map _ _ db.executions
          (λ (e : WorkflowExecution) l. any-update_where e.workflow_id db.workflows ∙ l) k.linked;
  }

-- The arguments of an update set both of status and enabled, or neither.
pub record Fits (p : WorkflowUpdate) : Type 0 where
  pub fits :
      (b : Bool) (s : String)
      → s ≡ status_of b
      → coalesce p.status s ≡ status_of (coalesce p.enabled b)

pub update-Triple :
    (id : ℕ) (p : WorkflowUpdate) → Fits p → Triple K (update_workflow_row id p) (λ w. K) K
unfolding update_workflow_row
update-Triple id p fit =
    statement-Triple free (λ db k. k)
      (record {
        run = λ db k.
            update-Post id (write_workflow p db.clock) (λ w. refl)
              (find (has_workflow_id id) db.workflows) db
              (All-map _ _ db.workflows
                (λ (w : Workflow) (s, n) e. (fit.fits w.enabled w.status s, n)) k.agree)
              k;
      })

counted :
    (now : ℕ) (es : List WorkflowExecution) (w : Workflow)
    → Agrees es w
    → w.execution_count + 1 ≤ runs w.id es
    → Agrees es (count_run now w)
counted now es w (s, n) h = (s, h)

count-Post :
    (id : ℕ) (o : Option Workflow) (db : Db)
    → All
        (λ (w : Workflow). (w.id == id) ≡ true → Agrees db.executions (count_run db.clock w))
        db.workflows
    → K db
    → Post (λ (r : Workflow). K) K (count_found id o db)
count-Post id none db h k = k
count-Post id (some w) db h k = elim (Bool-cases (ltb (w.execution_count + 1) (2 ^ 31))) [
  | inl e ↦ rw e (update-Post id (count_run db.clock) (λ x. refl) (some w) db h k)
  | inr e ↦ rw e k
]

pub increment-Triple :
    (id : ℕ)
    → Triple (λ db. K db × Uncounted id db) (increment_workflow_execution_count id) (λ w. K) K
unfolding increment_workflow_execution_count
increment-Triple id =
    statement-Triple (λ db later (k, h). (free db later k, h)) (λ db (k, h). k)
      (record {
        run = λ db (k, h).
            count-Post id (find (has_workflow_id id) db.workflows) db
              (All-zip _ _ _ db.workflows
                (λ (w : Workflow) a more e. counted db.clock db.executions w a (more e)) k.agree h)
              k;
      })

runs_grow :
    (id : ℕ) (e : WorkflowExecution) (es : List WorkflowExecution) → runs id es ≤ runs id (e ∷ es)
runs_grow id e es = ground arith

record_run-Post :
    (fresh there : Bool) (e : WorkflowExecution) (db : Db)
    → there ≡ any (has_workflow_id e.workflow_id) db.workflows
    → K db
    → Post
        (λ (r : WorkflowExecution) final. K final × Uncounted e.workflow_id final)
        K
        (insert_execution (fresh && there) e db)
record_run-Post false there e db q k = k
record_run-Post true false e db q k = k
record_run-Post true true e db q k = (
  record {
    agree =
        All-map _ _ db.workflows
          (λ (w : Workflow) (s, n). let more = runs_grow w.id e db.executions in (s, omega arith))
          k.agree;
    linked = (sym q, k.linked);
  },
  All-map _ _ db.workflows
      (λ (w : Workflow) (s, n) same.
        let it : (e.workflow_id == w.id) ≡ true = ground arith in rw it (omega arith))
      k.agree,
)

pub run-Triple :
    (e : WorkflowExecution)
    → Triple K (create_workflow_execution e) (λ r db. K db × Uncounted e.workflow_id db) K
unfolding create_workflow_execution
run-Triple e =
    statement-Triple free (λ db k. k)
      (record {
        run = λ db k.
            record_run-Post (not (any (λ x. x.id == e.id) db.executions))
              (any (has_workflow_id e.workflow_id) db.workflows) e db refl k;
      })

-- The runs of the other workflows survive a deletion.
runs-select :
    (id other : ℕ) (es : List WorkflowExecution)
    → (other == id) ≡ false
    → runs other (select (λ e. not (e.workflow_id == id)) es) ≡ runs other es
runs-select id other [] ne = refl
runs-select id other (e ∷ es) ne = ground (arith, runs-select id other es ne)

any-select :
    (id other : ℕ) (ws : List Workflow)
    → (other == id) ≡ false
    → any (has_workflow_id other) (select (λ w. not (w.id == id)) ws)
      ≡ any (has_workflow_id other) ws
any-select id other [] ne = refl
any-select id other (w ∷ ws) ne = ground (arith, any-select id other ws ne)

pub delete-Triple : (id : ℕ) → Triple K (delete_workflow_row id) (λ u. K) K
unfolding delete_workflow_row
delete-Triple id =
    statement-Triple free (λ db k. k)
      (record {
        run = λ db k. record {
          agree =
              All-map _ _ (select (λ w. not (w.id == id)) db.workflows)
                (λ (w : Workflow) ((s, n), q).
                  let ne : (w.id == id) ≡ false = ground arith in
                  (s, rw (runs-select id w.id db.executions ne) n))
                (All-select (Agrees db.executions) (λ w. not (w.id == id)) db.workflows k.agree);
          linked =
              All-map _ _ (select (λ e. not (e.workflow_id == id)) db.executions)
                (λ (e : WorkflowExecution) (l, q).
                  let ne : (e.workflow_id == id) ≡ false = ground arith in
                  any-select id e.workflow_id db.workflows ne ∙ l)
                (All-select (HasWorkflow db.workflows) (λ e. not (e.workflow_id == id))
                  db.executions k.linked);
        };
      })
