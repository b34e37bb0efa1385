-- ===== src/PlacementGroup/Frame.antt =====
-- Finding a placement group leaves the machine of the reconcile alone.
use cluster_api_provider_elf.Base.{ℕ, String, not, ◌||◌, Option, none, some}
use cluster_api_provider_elf.Action.{◌>>=◌}
use cluster_api_provider_elf.Action.Always.{Always, Always-pure, Always-if, Always-bind, Any}
use cluster_api_provider_elf.Cache.{GoCache}
use cluster_api_provider_elf.Memory.{Value}
use cluster_api_provider_elf.Tower.{PlacementGroup}
use cluster_api_provider_elf.Uuid.{is_uuid}
use cluster_api_provider_elf.TowerCache.Caches.{get_pg_from_cache}
use cluster_api_provider_elf.Context.{MachineContext}
use cluster_api_provider_elf.Outside.{
  VmService, Site, Reconcile, ask, on_memory, read_ctx, time_now,
}
use cluster_api_provider_elf.Outside.Frame.{
  HasCtx, Always-ask, Always-read_ctx, Always-on_memory, Always-time_now,
}
use cluster_api_provider_elf.PlacementGroup.{
  get_vm_placement_group_name, group_name, fetch_placement_group, cached_or_fetched,
  get_placement_group,
}

module _ {S C T : Type 0} (v : VmService S C T) (ctx : MachineContext S) where
  pub group_name_frame : Always {S = Site S C T} (HasCtx ctx) Any (group_name v)
  unfolding group_name
  group_name_frame =
      Always-bind (read_ctx (λ x. x)) (λ x. ask (get_vm_placement_group_name v x.machine x.owner))
        (Always-read_ctx ctx (λ x. x)) (λ x q. record { at = λ s i. (tt, i) }) (λ e. tt)

  module _ ⦃g : GoCache C Value⦄ where
    fetch_frame :
        (name : String) → Always {S = Site S C T} (HasCtx ctx) Any (fetch_placement_group v name)
    unfolding fetch_placement_group
    fetch_frame name =
        Always-bind (ask (v.get_vm_placement_group name)) _
          (Always-ask ctx (v.get_vm_placement_group name))
          (λ group q.
            Always-if (not (is_uuid group.local_id) || group.entity_async_status) _ _
              (λ h. Always-pure none tt) (λ h. record { at = λ s i. (tt, i) }))
          (λ e. tt)

    found_frame :
        (name : String) (cached : Option PlacementGroup)
        → Always {S = Site S C T} (HasCtx ctx) Any (cached_or_fetched v name cached)
    unfolding cached_or_fetched
    found_frame name none = fetch_frame name
    found_frame name (some group) = Always-pure (some group) tt

    pub get_group_frame :
        (name : String) → Always {S = Site S C T} (HasCtx ctx) Any (get_placement_group v name)
    unfolding get_placement_group
    get_group_frame name =
        let read : ℕ → Reconcile S C T (Option PlacementGroup) =
          λ now. on_memory (get_pg_from_cache now name) in
        Always-bind (time_now v) (λ now. read now >>= cached_or_fetched v name)
          (Always-time_now v ctx)
          (λ now q.
            Always-bind (read now) (cached_or_fetched v name)
              (Always-on_memory ctx (get_pg_from_cache now name))
              (λ cached q. found_frame name cached) (λ e. tt))
          (λ e. tt)
