-- ===== src/PlacementGroup/Removal/Frame.antt =====
-- deletePlacementGroup leaves the machine of the reconcile alone.
use cluster_api_provider_elf.Base.{
  ℕ, String, Bool, true, false, not, ◌&&◌, ◌||◌, Result, ok, err, has_prefix, ltb, if◌then◌else◌,
}
use cluster_api_provider_elf.Action.{pure, attempt, deferred, ◌>>=◌}
use cluster_api_provider_elf.Action.Always.{
  Always, Always-pure, Always-raise, Always-if, Always-bind, Always-deferred, Any,
}
use cluster_api_provider_elf.Cache.{GoCache}
use cluster_api_provider_elf.Memory.{Memory, Value}
use cluster_api_provider_elf.Tower.{PlacementGroup}
use cluster_api_provider_elf.Kubernetes.{Deployment, is_control_plane_machine}
use cluster_api_provider_elf.Context.{MachineContext}
use cluster_api_provider_elf.Messages.{is_vm_placement_group_not_found}
use cluster_api_provider_elf.Limiter.{
  acquire_ticket_for_placement_group_operation, release_ticket_for_placement_group_operation,
}
use cluster_api_provider_elf.Outside.{
  set_memory, VmService, Call, Site, Reconcile, ask, on_memory, read_ctx, time_now,
}
use cluster_api_provider_elf.Outside.Frame.{HasCtx, Always-on_memory, Always-time_now}
use cluster_api_provider_elf.PlacementGroup.{
  group_name, with_group_ticket, get_md_by_machine, get_vm_placement_group_name_prefix,
}
use cluster_api_provider_elf.PlacementGroup.Frame.{group_name_frame}
use cluster_api_provider_elf.PlacementGroup.Removal.{
  delete_locked, delete_found, delete_of_deployment, delete_placement_group,
}

module _ {S C T : Type 0} (v : VmService S C T) ⦃g : GoCache C Value⦄ (ctx : MachineContext S) where
  -- The action leaves the machine of the reconcile alone.
  abbrev Frames : {A : Type 0} → Reconcile S C T A → Type 0
  Frames m = Always (HasCtx ctx) Any m

  then_frames :
      {A B : Type 0} (m : Reconcile S C T A) (f : A → Reconcile S C T B)
      → Frames m
      → ((a : A) → Frames (f a))
      → Frames (m >>= f)
  then_frames m f km kf = Always-bind m f km (λ a q. kf a) (λ e. tt)

  asked : {A : Type 0} (m : Call C T A) → Frames (ask m)
  unfolding ask
  asked m = record { at = λ s i. (tt, i) }

  attempted : {A : Type 0} (m : Reconcile S C T A) → Frames m → Frames (attempt m)
  unfolding attempt
  attempted m k = record { at = λ s i. (tt, (k.at s i).1) }

  read : {A : Type 0} (f : MachineContext S → A) → Frames (read_ctx f)
  unfolding read_ctx
  read f = record { at = λ s i. (tt, i) }

  ticketed :
      {A : Type 0} (name : String) (busy : A) (body : Reconcile S C T A)
      → Frames body
      → Frames (with_group_ticket v name busy body)
  unfolding with_group_ticket
  ticketed {A} name busy body k =
      let release : Result A → Site S C T → Site S C T =
        λ _. set_memory (release_ticket_for_placement_group_operation name) in
      let acquire : ℕ → Memory C → Bool × Memory C =
        λ now. acquire_ticket_for_placement_group_operation now name in
      let rest : Bool → Reconcile S C T A =
        λ acquired. if acquired then deferred release body else pure busy in
      then_frames (time_now v) (λ now. on_memory (acquire now) >>= rest) (Always-time_now v ctx)
        (λ now.
          then_frames (on_memory (acquire now)) rest (Always-on_memory ctx (acquire now))
            (λ acquired.
              Always-if acquired (deferred release body) (pure busy)
                (λ h. Always-deferred release body (λ r s i. i) k) (λ h. Always-pure busy tt)))

  locked_frame : (group : PlacementGroup) → Frames (delete_locked v group)
  unfolding delete_locked
  locked_frame group =
      then_frames (ask (v.delete_vm_placement_group_by_id group.id)) _ (asked _) (λ deleted.
        Always-if (not deleted) _ _ (λ h. Always-pure false tt)
          (λ h. record { at = λ s i. (tt, i) }))

  found_frame : (found : Result PlacementGroup) → Frames (delete_found v found)
  unfolding delete_found
  found_frame (ok group) = ticketed group.name false (delete_locked v group) (locked_frame group)
  found_frame (err e) =
      Always-if (is_vm_placement_group_not_found e) _ _ (λ h. Always-pure true tt)
        (λ h. Always-raise e tt)

  deployment_frame : (md : Result Deployment) → Frames (delete_of_deployment v md)
  unfolding delete_of_deployment
  deployment_frame (err e) =
      Always-if (v.is_not_found e) _ _ (λ h. Always-pure true tt) (λ h. Always-raise e tt)
  deployment_frame (ok md) =
      Always-if (not md.deleted && ltb 0 md.spec_replicas) _ _ (λ h. Always-pure true tt)
        (λ h. then_frames (group_name v) _ (group_name_frame v ctx) (λ name.
          then_frames (read_ctx (λ x. x)) _ (read (λ x. x)) (λ x.
            Always-if
              (not (has_prefix name (get_vm_placement_group_name_prefix v.resource_prefix x.owner)))
              _ _ (λ h. Always-pure true tt)
              (λ h.
                then_frames (attempt (ask (v.get_vm_placement_group name))) _
                  (attempted _ (asked _)) found_frame))))

  pub group_removal_frame : Frames (delete_placement_group v)
  unfolding delete_placement_group
  group_removal_frame = then_frames (read_ctx (λ x. x)) _ (read (λ x. x)) (λ x.
      Always-if (x.owner.deleted || is_control_plane_machine x.machine) _ _
        (λ h. Always-pure true tt)
        (λ h.
          then_frames (attempt (ask (get_md_by_machine v x.machine))) _ (attempted _ (asked _))
            deployment_frame))
