-- ===== src/PlacementGroup/Removal.antt =====
-- deletePlacementGroup of controllers/elfmachine_controller_placement_group.go.
pub mod Frame
use cluster_api_provider_elf.Base.{
  Bool, true, false, not, ◌&&◌, ◌||◌, [], ◌∷◌, ltb, has_prefix, if◌then◌else◌, Result, ok, err,
}
use cluster_api_provider_elf.Action.{pure, raise, attempt, ◌>>=◌, ◌>>◌}
use cluster_api_provider_elf.Cache.{GoCache}
use cluster_api_provider_elf.Memory.{Value}
use cluster_api_provider_elf.Kubernetes.{Deployment, is_control_plane_machine}
use cluster_api_provider_elf.Tower.{PlacementGroup}
use cluster_api_provider_elf.Messages.{is_vm_placement_group_not_found}
use cluster_api_provider_elf.TowerCache.Caches.{del_pg_caches}
use cluster_api_provider_elf.Outside.{VmService, Reconcile, ask, on_memory, read_ctx}
use cluster_api_provider_elf.PlacementGroup.{
  get_md_by_machine, group_name, get_vm_placement_group_name_prefix, with_group_ticket,
}

module _ {S C T : Type 0} (v : VmService S C T) ⦃g : GoCache C Value⦄ where
  -- What is done under the ticket.
  unfoldable pub delete_locked : PlacementGroup → Reconcile S C T Bool
  unfolding ◌>>=◌ ◌>>◌ pure ask on_memory del_pg_caches
  delete_locked group = do
    deleted ← ask (v.delete_vm_placement_group_by_id group.id)
    if not deleted
        then pure false
        else do on_memory (λ m. (tt, del_pg_caches (group.name ∷ []) m)); pure true

  unfoldable pub delete_found : Result PlacementGroup → Reconcile S C T Bool
  unfolding pure raise with_group_ticket delete_locked
  delete_found (ok group) = with_group_ticket v group.name false (delete_locked group)
  delete_found (err e) = if is_vm_placement_group_not_found e then pure true else raise e

  -- The group of a deployment that is going away, by the answer for the deployment.
  unfoldable pub delete_of_deployment : Result Deployment → Reconcile S C T Bool
  unfolding ◌>>=◌ pure raise ask attempt read_ctx group_name get_vm_placement_group_name_prefix
      has_prefix delete_found
  delete_of_deployment (err e) = if v.is_not_found e then pure true else raise e
  delete_of_deployment (ok md) = if not md.deleted && ltb 0 md.spec_replicas then pure true else do
    name ← group_name v
    ctx ← read_ctx (λ x. x)
    let prefix = get_vm_placement_group_name_prefix v.resource_prefix ctx.owner
    if not (has_prefix name prefix)
        then pure true
        else do found ← attempt (ask (v.get_vm_placement_group name)); delete_found found

  unfoldable pub delete_placement_group : Reconcile S C T Bool
  unfolding ◌>>=◌ pure ask attempt read_ctx is_control_plane_machine get_md_by_machine
      delete_of_deployment
  delete_placement_group = do
    ctx ← read_ctx (λ x. x)
    if ctx.owner.deleted || is_control_plane_machine ctx.machine
        then pure true
        else do md ← attempt (ask (get_md_by_machine v ctx.machine)); delete_of_deployment md
