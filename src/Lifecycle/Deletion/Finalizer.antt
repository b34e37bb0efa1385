-- ===== src/Lifecycle/Deletion/Finalizer.antt =====
-- When a machine that is deleted is let go.
use cluster_api_provider_elf.Base.{
  String, ◌≡◌, ◌⊎◌, inl, inr, refl, sym, ap, ◌∙◌, subst, Bool, true, false, not, Result, ok, err,
  arith, if◌then◌else◌,
}
use cluster_api_provider_elf.Action.{pure, attempt, deferred, go_on, ◌>>=◌, ◌>>◌}
use cluster_api_provider_elf.Action.Always.{Always, Always-pure, Always-if, Gives, Any}
use cluster_api_provider_elf.Cache.{GoCache}
use cluster_api_provider_elf.Memory.{Value}
use cluster_api_provider_elf.Conditions.{Conditions}
use cluster_api_provider_elf.Tower.{Vm}
use cluster_api_provider_elf.Context.{MachineContext}
use cluster_api_provider_elf.Messages.{is_vm_not_found}
use cluster_api_provider_elf.Outside.{on_machine, VmService, Site, Reconcile, ask, read_ctx}
use cluster_api_provider_elf.PlacementGroup.Removal.{delete_placement_group}
use cluster_api_provider_elf.Machine.{has_vm}
use cluster_api_provider_elf.Task.{mark}
use cluster_api_provider_elf.Conditions.{info}
use cluster_api_provider_elf.Reasons.{vm_provisioned_condition}
use cluster_api_provider_elf.Lifecycle.Deletion.{
  reconcile_delete_vm, remove_finalizer, delete_created, delete_unsaved, delete_machine, let_go,
  reconcile_delete, deleting_reason,
}
use cluster_api_provider_elf.PlacementGroup.Removal.Frame.{group_removal_frame}
use cluster_api_provider_elf.Lifecycle.Deletion.Steps.{
  then_step, ask_step, attempt_then, gone_step, created_step, unsaved_step,
}

module _ {S C T : Type 0} (v : VmService S C T) ⦃c : Conditions S⦄ ⦃g : GoCache C Value⦄ where
  -- The cluster is deleted by force, or an error that says that the virtual machine is not found is
  -- one that GetByName for the name of the machine, or reconcileDeleteVM, gives in some state.
  abbrev pub Reason : MachineContext S → Type 0
  Reason ctx =
      (ctx.force_delete_cluster ≡ true)
      ⊎ ((e : String) × (is_vm_not_found e ≡ true)
          × (Gives {S = Site S C T} (ask (v.get_by_name ctx.elf_machine.name)) (err e)
              ⊎ Gives (reconcile_delete_vm v) (err e)))

  abbrev Kept : MachineContext S → Site S C T → Type 0
  Kept ctx s = (s.ctx.elf_machine.has_finalizer ≡ true) ⊎ Reason ctx

  from_vm :
      (ctx : MachineContext S) (e : String)
      → Gives (reconcile_delete_vm v) (err e)
      → is_vm_not_found e ≡ true
      → Reason ctx
  from_vm ctx e q h = inr (e, h, inr q)

  -- After the placement group.
  chosen_step :
      (ctx : MachineContext S) (gone : Bool)
      → Always (Kept ctx) Any (
          if not gone
          then pure true
          else if ctx.force_delete_cluster
          then on_machine remove_finalizer >> pure false
          else if has_vm ctx.elf_machine
          then delete_created v
          else (attempt (ask (v.get_by_name ctx.elf_machine.name)) >>= delete_unsaved v))
  unfolding ◌>>◌
  chosen_step ctx gone =
      let R = Reason ctx in
      let asked : Reconcile S C T Vm = ask (v.get_by_name ctx.elf_machine.name) in
      Always-if (not gone) _ _ (λ h. Always-pure true tt)
        (λ h.
          Always-if ctx.force_delete_cluster _ _
            (λ k.
              then_step v R (on_machine remove_finalizer) _ (gone_step v R (inl k))
                (λ u. Always-pure false tt))
            (λ k.
              Always-if (has_vm ctx.elf_machine) _ _ (λ j. created_step v R (from_vm ctx))
                (λ j.
                  attempt_then v R asked (delete_unsaved v)
                    (ask_step v R (v.get_by_name ctx.elf_machine.name))
                    (λ r q.
                      unsaved_step v R (from_vm ctx) r
                        (λ e p h. inr (e, h, inl (subst (Gives asked) p q)))))))

  go_on_step :
      {A : Type 0} (ctx : MachineContext S) (f : Bool → Reconcile S C T A) (r : Result Bool)
      (s : Site S C T)
      → Kept ctx s
      → ((gone : Bool) → Kept ctx (f gone s).1)
      → Kept ctx (go_on f r s).1
  go_on_step ctx f (ok gone) s i k = k gone
  go_on_step ctx f (err e) s i k = i

  machine_step :
      (s : Site S C T) → s.ctx.elf_machine.has_finalizer ≡ true → Kept s.ctx (delete_machine v s).1
  unfolding delete_machine ◌>>=◌ read_ctx
  machine_step s i =
      let after = (delete_placement_group v s).1 in
      let same = ((group_removal_frame v s.ctx).at s refl).1 in
      let held : Kept s.ctx after = inl (rw same i) in
      go_on_step s.ctx _ (delete_placement_group v s).0 after held
        (λ gone. rw same ((chosen_step s.ctx gone).at after held).1)

  let_go_ctx : (s : Site S C T) → (let_go v s).ctx ≡ s.ctx
  unfolding let_go
  let_go_ctx s = ground arith

  -- If a machine has its finalizer and reconcileDelete takes it away, then the cluster is deleted by
  -- force, or GetByName for the name of the machine, or else reconcileDeleteVM, can fail, in some
  -- state, with an error that says that the virtual machine is not found. So no other answer makes
  -- the machine go.
  pub let_go_justified :
      (s : Site S C T)
      → s.ctx.elf_machine.has_finalizer ≡ true
      → (reconcile_delete v s).1.ctx.elf_machine.has_finalizer ≡ false
      → Reason s.ctx
  unfolding reconcile_delete ◌>>=◌ ◌>>◌ deferred on_machine
  let_go_justified s i gone =
      let marked = mark vm_provisioned_condition deleting_reason info "" s.ctx.elf_machine in
      let start : Site S C T = record s { ctx = record s.ctx { elf_machine = marked } } in
      let after = (delete_machine v start).1 in
      let same = ap (λ (x : MachineContext S). x.elf_machine.has_finalizer) (let_go_ctx after) in
      elim (machine_step start i) [
        | inl held ↦ let clash : true ≡ false = sym held ∙ sym same ∙ gone in cc
        | inr reason ↦ reason
      ]
