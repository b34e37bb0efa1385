-- ===== src/Lifecycle/Deletion/Steps.antt =====
-- The steps of a deletion keep the finalizer of the machine, but where there is a reason to let it go.
use cluster_api_provider_elf.Base.{
  ℕ, String, ◌≡◌, ◌⊎◌, inl, inr, refl, ◌∙◌, subst, Bool, true, false, not, ◌&&◌, ◌||◌, List, [],
  ◌∷◌, Result, ok, err, str_eq, ltb, leb, length, ◌+◌, if◌then◌else◌,
}
use cluster_api_provider_elf.Action.{raise, attempt, ◌>>=◌, ◌>>◌}
use cluster_api_provider_elf.Action.Always.{
  Always, Always-pure, Always-raise, Always-if, Always-bind, Gives, Any,
}
use cluster_api_provider_elf.Cache.{GoCache}
use cluster_api_provider_elf.Memory.{Value}
use cluster_api_provider_elf.Conditions.{Conditions}
use cluster_api_provider_elf.Tower.{Task, Vm}
use cluster_api_provider_elf.Context.{MachineContext}
use cluster_api_provider_elf.Messages.{is_vm_not_found}
use cluster_api_provider_elf.Outside.{
  on_machine, VmService, Call, Site, Reconcile, ask, read_ctx, time_now,
}
use cluster_api_provider_elf.PlacementGroup.{get_vm_placement_group_name, group_name}
use cluster_api_provider_elf.Machine.{ElfMachine, set_vm, set_task, has_task}
use cluster_api_provider_elf.Task.{mark}
use cluster_api_provider_elf.Task.Finalizer.{task_finalizer}
use cluster_api_provider_elf.PlacementGroup.Room.{is_running, is_stopped}
use cluster_api_provider_elf.Conditions.{warning}
use cluster_api_provider_elf.Reasons.{vm_provisioned_condition}
use cluster_api_provider_elf.Lifecycle.Deletion.{
  handle_task, run_task, stop_vm, destroy_vm, delete_found_vm, reconcile_delete_vm, delete_vm,
  delete_first, delete_duplicate_vms, check_duplicate_vm_duration, remove_finalizer, delete_last,
  delete_created, delete_unsaved, is_powered_off, get_vm_ref, deletion_failed_reason,
}

module _ {S C T : Type 0} (v : VmService S C T) ⦃c : Conditions S⦄ ⦃g : GoCache C Value⦄
    (R : Type 0) where
  -- The machine is held, or there is the reason to let it go.
  abbrev HeldOr : Site S C T → Type 0
  HeldOr s = (s.ctx.elf_machine.has_finalizer ≡ true) ⊎ R

  abbrev Holds : {A : Type 0} → Reconcile S C T A → Type 0
  Holds m = Always HeldOr Any m

  pub then_step :
      {A B : Type 0} (m : Reconcile S C T A) (f : A → Reconcile S C T B)
      → Holds m
      → ((a : A) → Holds (f a))
      → Holds (m >>= f)
  then_step m f km kf = Always-bind m f km (λ a q. kf a) (λ e. tt)

  pub ask_step : {A : Type 0} (m : Call C T A) → Holds (ask m)
  unfolding ask
  ask_step m = record { at = λ s i. (tt, i) }

  read_step : {A : Type 0} (f : MachineContext S → A) → Holds (read_ctx f)
  unfolding read_ctx
  read_step f = record { at = λ s i. (tt, i) }

  time_step : Holds (time_now v)
  unfolding time_now
  time_step = record { at = λ s i. (tt, i) }

  attempt_step : {A : Type 0} (m : Reconcile S C T A) → Holds m → Holds (attempt m)
  unfolding attempt
  attempt_step m k = record { at = λ s i. (tt, (k.at s i).1) }

  -- A change of the machine that keeps the finalizer.
  change_step :
      (f : ElfMachine S → ElfMachine S)
      → ((m : ElfMachine S) → (f m).has_finalizer ≡ m.has_finalizer)
      → Holds (on_machine f)
  unfolding on_machine
  change_step f k = record {
    at = λ s i. (tt, elim i [ inl h ↦ inl (k s.ctx.elf_machine ∙ h) | inr r ↦ inr r ]);
  }

  handled_step :
      (now : ℕ) (name : Result String) (found : Result Task) (busy : Bool)
      → Holds (handle_task v now name found busy)
  unfolding handle_task
  handled_step now name found busy = record {
    at = λ s i.
        (tt, elim i [ inl h ↦ inl (task_finalizer now name found busy _ ∙ h) | inr r ↦ inr r ]);
  }

  name_step : Holds (group_name v)
  unfolding group_name
  name_step =
      then_step (read_ctx (λ x. x)) _ (read_step (λ x. x))
        (λ x. ask_step (get_vm_placement_group_name v x.machine x.owner))

  task_step : (busy : Bool) → Holds (run_task v busy)
  unfolding run_task
  task_step busy = then_step (read_ctx (λ x. x)) _ (read_step (λ x. x)) (λ x.
      let m = x.elf_machine in
      let asking : Reconcile S C T Task =
        if has_task m then ask (v.get_task m.status.task_ref) else raise "" in
      then_step (attempt asking) _
        (attempt_step asking (
          Always-if (has_task m) _ _ (λ h. ask_step (v.get_task m.status.task_ref))
            (λ h. Always-raise "" tt)))
        (λ found.
          then_step (attempt (group_name v)) _ (attempt_step (group_name v) name_step) (λ name.
            then_step (time_now v) (λ now. handle_task v now name found busy) time_step
              (λ now. handled_step now name found busy))))

  pub attempt_then :
      {A B : Type 0} (m : Reconcile S C T A) (f : Result A → Reconcile S C T B)
      → Holds m
      → ((r : Result A) → Gives m r → Holds (f r))
      → Holds (attempt m >>= f)
  unfolding attempt ◌>>=◌
  attempt_then m f km kf = record {
    at = λ s i. (tt, ((kf (m s).0 (s, refl)).at (m s).1 (km.at s i).1).1);
  }

  set_task_step : (task : String) → Holds (on_machine (set_task task))
  unfolding set_task
  set_task_step task = change_step (set_task task) (λ m. refl)

  stop_step : Holds (stop_vm v)
  unfolding stop_vm
  stop_step = then_step (read_ctx (λ x. x)) _ (read_step (λ x. x)) (λ x.
      let ref = x.elf_machine.status.vm_ref in
      let asked = if is_powered_off v x then v.power_off ref else v.shut_down ref in
      then_step (ask asked) (λ task. on_machine (set_task task)) (ask_step asked) set_task_step)

  destroy_step : Holds (destroy_vm v)
  unfolding destroy_vm ◌>>◌
  destroy_step = then_step (read_ctx (λ x. x)) _ (read_step (λ x. x)) (λ x.
      then_step (ask (v.delete_node x)) _ (ask_step (v.delete_node x)) (λ u.
        let asked = v.delete x.elf_machine.status.vm_ref in
        then_step (ask asked) (λ task. on_machine (set_task task)) (ask_step asked) set_task_step))

  set_vm_step : (ref : String) → Holds (on_machine (set_vm ref))
  unfolding set_vm
  set_vm_step ref = change_step (set_vm ref) (λ m. refl)

  found_step : (found : Result Vm) → Holds (delete_found_vm v found)
  unfolding delete_found_vm ◌>>◌
  found_step (err e) =
      Always-if (is_vm_not_found e) _ _
        (λ h. then_step (on_machine (set_vm "")) _ (set_vm_step "") (λ u. Always-raise e tt))
        (λ h. Always-raise e tt)
  found_step (ok vm) =
      then_step (run_task v vm.entity_async_status) _ (task_step vm.entity_async_status) (λ done.
        Always-if (not done) _ _ (λ h. Always-pure tt tt)
          (λ h. Always-if (is_running vm) _ _ (λ k. stop_step) (λ k. destroy_step)))

  vm_step : Holds (reconcile_delete_vm v)
  unfolding reconcile_delete_vm
  vm_step = then_step (read_ctx (λ x. x)) _ (read_step (λ x. x)) (λ x.
      let asked = ask (v.get x.elf_machine.status.vm_ref) in
      then_step (attempt asked) (delete_found_vm v)
        (attempt_step asked (ask_step (v.get x.elf_machine.status.vm_ref))) found_step)

  delete_vm_step : (vm : Vm) → Holds (delete_vm v vm)
  unfolding delete_vm
  delete_vm_step vm =
      Always-if vm.entity_async_status _ _ (λ h. Always-pure tt tt)
        (λ h.
          then_step (ask (v.delete vm.id)) _ (ask_step (v.delete vm.id))
            (λ task. Always-pure tt tt))

  first_step : (own : String) (vms : List Vm) → Holds (delete_first v own vms)
  unfolding delete_first ◌>>◌
  first_step own [] = Always-pure false tt
  first_step own (vm ∷ vms) =
      Always-if (str_eq vm.id own || (str_eq vm.local_id own || not (is_stopped vm))) _ _
        (λ h. first_step own vms)
        (λ h. then_step (delete_vm v vm) _ (delete_vm_step vm) (λ u. Always-pure true tt))

  duplicates_step : Holds (delete_duplicate_vms v)
  unfolding delete_duplicate_vms
  duplicates_step = then_step (read_ctx (λ x. x)) _ (read_step (λ x. x)) (λ x.
      let m = x.elf_machine in
      then_step (time_now v) _ time_step (λ now.
        Always-if (not m.deleted && ltb (m.creation_timestamp + check_duplicate_vm_duration) now) _
          _ (λ h. Always-pure false tt)
          (λ h.
            then_step (ask (v.find_vms_by_name m.name)) _ (ask_step (v.find_vms_by_name m.name))
              (λ vms.
                Always-if (leb (length vms) 1) _ _ (λ k. Always-pure false tt)
                  (λ k.
                    Always-if (str_eq m.status.vm_ref "") _ _ (λ j. Always-pure true tt)
                      (λ j. first_step m.status.vm_ref vms))))))

  -- With the reason at hand the machine is let go.
  pub gone_step : R → Holds (on_machine {S = S} {C = C} {T = T} remove_finalizer)
  unfolding on_machine
  gone_step r = record { at = λ s i. (tt, inr r) }

  -- A mark on the machine.
  mark_step :
      (reason text : String)
      → Holds (on_machine (mark vm_provisioned_condition reason warning text))
  mark_step reason text =
      change_step (mark vm_provisioned_condition reason warning text) (λ m. refl)

  last_step :
      (r : Result (Unit {0}))
      → ((e : String) → r ≡ err e → is_vm_not_found e ≡ true → R)
      → Holds (delete_last v r)
  unfolding delete_last ◌>>◌
  last_step (ok u) k = Always-pure true tt
  last_step (err e) k =
      Always-if (is_vm_not_found e) _ _
        (λ h.
          then_step (on_machine remove_finalizer) _ (gone_step (k e refl h))
            (λ u. Always-pure false tt))
        (λ h.
          then_step (on_machine (mark vm_provisioned_condition deletion_failed_reason warning e)) _
            (mark_step deletion_failed_reason e) (λ u. Always-raise e tt))

  pub created_step :
      ((e : String) → Gives (reconcile_delete_vm v) (err e) → is_vm_not_found e ≡ true → R)
      → Holds (delete_created v)
  unfolding delete_created
  created_step k = then_step (delete_duplicate_vms v) _ duplicates_step (λ again.
      Always-if again _ _ (λ h. Always-pure true tt)
        (λ h.
          attempt_then (reconcile_delete_vm v) (delete_last v) vm_step
            (λ r q. last_step r (λ e p. k e (subst (Gives (reconcile_delete_vm v)) p q)))))

  pub unsaved_step :
      ((e : String) → Gives (reconcile_delete_vm v) (err e) → is_vm_not_found e ≡ true → R)
      → (r : Result Vm) → ((e : String) → r ≡ err e → is_vm_not_found e ≡ true → R)
      → Holds (delete_unsaved v r)
  unfolding delete_unsaved ◌>>◌
  unsaved_step k (ok vm) kr =
      then_step (on_machine (set_vm (get_vm_ref vm))) _ (set_vm_step (get_vm_ref vm))
        (λ u. created_step k)
  unsaved_step k (err e) kr =
      Always-if (is_vm_not_found e) _ _
        (λ h.
          then_step (on_machine remove_finalizer) _ (gone_step (kr e refl h))
            (λ u. Always-pure false tt))
        (λ h. Always-raise e tt)
