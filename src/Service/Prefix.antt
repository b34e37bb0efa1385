-- ===== src/Service/Prefix.antt =====
-- DeleteVMPlacementGroupsByNamePrefix of pkg/service/vm.go: what the answer means to the deletion of a
-- cluster, which goes on when no name is given.
use cluster_api_provider_elf.Base.{
  ◌≡◌, refl, subst, String, true, false, List, [], ◌∷◌, map, Result, ok, err,
}
use cluster_api_provider_elf.Action.{go_on, wrap, ◌>>=◌}
use cluster_api_provider_elf.Action.Always.{
  Always, Any, Always-pure, Always-raise, Always-bind, Always-if,
}
use cluster_api_provider_elf.Tower.{PlacementGroup}
use cluster_api_provider_elf.Outside.{Shared, Call}
use cluster_api_provider_elf.Service.Gpus.{
  TowerObjects, deletion_started, delete_found_groups, delete_vm_placement_groups_by_name_prefix,
  deletion_timeout, has_failed,
}

abbrev Free : {C T : Type 0} → Shared C T → Type 0
Free s = Unit

-- An answer with a name.
abbrev Named : Result (List String) → Type 0
Named (ok []) = true ≡ false
Named (ok (name ∷ names)) = Unit
Named (err e) = Unit

module _ {C T : Type 0} (client : TowerObjects C T) (prefix : String) where
  any_lem : {A : Type 0} (m : Call C T A) → Always Free Any m
  any_lem m = record { at = λ s i. (tt, tt) }

  started_lem :
      (name : String) (names task_ids : List String)
      → Always Free Named (deletion_started client prefix (name ∷ names) task_ids)
  unfolding deletion_started
  started_lem name names [] = Always-pure (name ∷ names) tt
  started_lem name names (task_id ∷ task_ids) =
      Always-bind
        (wrap (deletion_timeout prefix client.timeout_text task_id) (client.wait_for task_id)) _
        (any_lem _)
        (λ task q.
          Always-if (has_failed task.status) _ _ (λ e. Always-raise _ tt)
            (λ e. Always-pure (name ∷ names) tt))
        (λ e. tt)

  groups_lem :
      (group : PlacementGroup) (groups : List PlacementGroup)
      → Always Free Named (delete_found_groups client prefix (group ∷ groups))
  unfolding delete_found_groups
  groups_lem group groups =
      Always-bind (client.delete_groups_with_prefix prefix) _ (any_lem _)
        (λ task_ids q. started_lem group.name (map (λ x. x.name) groups) task_ids) (λ e. tt)

  run_lem :
      (r : Result (List PlacementGroup)) (s : Shared C T)
      → (go_on (delete_found_groups client prefix) r s).0 ≡ ok []
      → r ≡ ok []
  run_lem (ok []) s h = refl
  run_lem (ok (group ∷ groups)) s h =
      let absurd : true ≡ false = subst Named h ((groups_lem group groups).at s tt).0 in cc
  run_lem (err e) s h = let absurd : err e ≡ ok [] = h in cc

  -- DeleteVMPlacementGroupsByNamePrefix answers with no names and no error only if Tower answered,
  -- before anything was deleted, that it has no placement group with the prefix.
  pub no_names_left :
      (s : Shared C T)
      → (delete_vm_placement_groups_by_name_prefix client prefix s).0 ≡ ok []
      → (client.groups_with_prefix prefix s).0 ≡ ok []
  unfolding delete_vm_placement_groups_by_name_prefix ◌>>=◌
  no_names_left s h =
      run_lem (client.groups_with_prefix prefix s).0 (client.groups_with_prefix prefix s).1 h
