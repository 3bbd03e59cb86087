-- ===== src/Workflows/Reading.antt =====
-- Reading the JSON of a workflow's row, as workflowFromDB of internal/workflow/service.go does: the
-- database stays as it is.
use immich_go_backend.Base.{◌≡◌, refl, String, Option, inl, inr, Bool-cases, ◌=ₛ◌}
use immich_go_backend.Db.{Workflow, Db, need, UuidLib}
use immich_go_backend.Db.Triples.{Triple, bind-Triple, need-Triple, post-Triple, return-Triple}
use immich_go_backend.Workflows.{JsonLib, trigger_from_db, actions_from_db, workflow_from_db}

module _ {V : Type 0} (u : UuidLib) (j : JsonLib V) (K : Db → Type 0) where
  pub need_kept :
      {A : Type 0} (message : String) (o : Option A) → Triple K (need message o) (λ a. K) K
  need_kept message o = post-Triple (λ a db p. p.0) (need-Triple message o (λ db k. k))

  trigger_kept : (text : String) → Triple K (trigger_from_db u j text) (λ t. K) K
  unfolding trigger_from_db
  trigger_kept text = elim (Bool-cases (text =ₛ "")) [
    | inl e ↦ rw e (return-Triple _)
    | inr e ↦ rw e (need_kept "parse trigger" (j.unmarshal_trigger text))
  ]

  actions_kept : (text : String) → Triple K (actions_from_db u j text) (λ t. K) K
  unfolding actions_from_db
  actions_kept text = elim (Bool-cases (text =ₛ "")) [
    | inl e ↦ rw e (return-Triple _)
    | inr e ↦ rw e (need_kept "parse actions" (j.unmarshal_actions text))
  ]

  pub info_kept :
      (w : Workflow) → Triple K (workflow_from_db u j w) (λ i db. K db × (i.enabled ≡ w.enabled)) K
  unfolding workflow_from_db
  info_kept w =
      bind-Triple (trigger_kept w.trigger)
        λ t. bind-Triple (actions_kept w.actions) λ actions. record { run = λ db k. (k, refl) }
