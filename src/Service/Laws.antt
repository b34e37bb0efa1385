-- ===== src/Service/Laws.antt =====
-- What TowerVMService gives.
use cluster_api_provider_elf.Base.{
  ◌≡◌, refl, subst, ℕ, zero, suc, String, true, false, none, some, List, [], ◌∷◌, Result, ok, err,
  str_eq, ltb, arith, ◌∙◌, if◌then◌else◌,
}
use cluster_api_provider_elf.Base.Dict.{IsMap}
use cluster_api_provider_elf.Action.{pure, bind_of_ok, ◌>>◌}
use cluster_api_provider_elf.Action.Always.{
  Always, Any, Always-pure, Always-raise, Always-bind, Always-if,
}
use cluster_api_provider_elf.Tower.{Host, Task}
use cluster_api_provider_elf.Collections.{IsKeyed, insert_all}
use cluster_api_provider_elf.Collections.Laws.{insert_all_wf}
use cluster_api_provider_elf.Hosts.{Hosts}
use cluster_api_provider_elf.Outside.{Shared, Call}
use cluster_api_provider_elf.Service.{
  TowerClient, get_hosts_by_cluster, new_hosts, wait_task, get_task, is_ended, deadline_exceeded,
}

-- Nothing is asked of the state.
abbrev pub Free : {C T : Type 0} → Shared C T → Type 0
Free s = Unit

abbrev pub KeyedHosts : Result Hosts → Type 0
KeyedHosts (ok hosts) = IsMap hosts × IsKeyed (λ h. h.id) hosts
KeyedHosts (err e) = Unit

abbrev Ended : Result Task → Type 0
Ended (ok task) = is_ended task.status ≡ true
Ended (err e) = Unit

module _ {C T : Type 0} (client : TowerClient C T) where
  any_lem : {A : Type 0} (m : Call C T A) → Always Free Any m
  any_lem m = record { at = λ s i. (tt, tt) }

  new_hosts_lem : (hosts : List Host) → Always (Free {C = C} {T = T}) KeyedHosts (new_hosts hosts)
  unfolding new_hosts
  new_hosts_lem [] = Always-raise "HOST_NOT_FOUND" tt
  new_hosts_lem (h ∷ hs) =
      Always-pure (insert_all (λ x. x.id) (h ∷ hs) []) (insert_all_wf (λ x. x.id) (h ∷ hs) [] tt tt)

  pub hosts_lem :
      (cluster datastore : String)
      → Always Free KeyedHosts (get_hosts_by_cluster client cluster datastore)
  unfolding get_hosts_by_cluster
  hosts_lem cluster datastore =
      let mount = if str_eq datastore "" then none else some datastore in
      Always-bind (client.get_hosts cluster mount) new_hosts (any_lem _)
        (λ hosts q. new_hosts_lem hosts) (λ e. tt)

  wait_lem : (n : ℕ) (id : String) → Always Free Ended (wait_task client n id)
  unfolding wait_task ◌>>◌
  wait_lem zero id = Always-raise deadline_exceeded tt
  wait_lem (suc n) id =
      Always-bind (get_task client id)
        (λ task. if is_ended task.status then pure task else client.sleep >> wait_task client n id)
        (any_lem _)
        (λ task q.
          Always-if (is_ended task.status) (pure task) (client.sleep >> wait_task client n id)
            (λ e. Always-pure task e)
            (λ e.
              Always-bind client.sleep (λ u. wait_task client n id) (any_lem _)
                (λ u p. wait_lem n id) (λ e'. tt)))
        (λ e. tt)

  -- From the state `s`, the reads of the task and the waits between them: after `k` of them that
  -- find the task under way, it is found as `task`, in the state `s'`.
  pub data Finds (id : String) (task : Task) (s' : Shared C T) : ℕ → Shared C T → Type 0 where
    at_once :
        {s : Shared C T}
        → get_task client id s ≡ (ok task, s')
        → is_ended task.status ≡ true
        → Finds id task s' 0 s
    later :
        {k : ℕ} {s s1 s2 : Shared C T} {seen : Task}
        → get_task client id s ≡ (ok seen, s1)
        → is_ended seen.status ≡ false
        → client.sleep s1 ≡ (ok tt, s2)
        → Finds id task s' k s2
        → Finds id task s' (suc k) s

  finds_lem :
      (k n : ℕ) (id : String) (s : Shared C T) (task : Task) (s' : Shared C T)
      → Finds id task s' k s
      → ltb k n ≡ true
      → wait_task client n id s ≡ (ok task, s')
  unfolding wait_task ◌>>◌ pure
  finds_lem k zero id s task s' f h = ground arith
  finds_lem zero (suc n) id s task s' (at_once got ended) h =
      bind_of_ok (get_task client id) _ s task s' got ∙ rw ended refl
  finds_lem (suc k) (suc n) id s task s' (later {s1} {s2} {seen} got going slept f) h =
      bind_of_ok (get_task client id) _ s seen s1 got
      ∙ rw going (bind_of_ok client.sleep (λ u. wait_task client n id) s1 tt s2 slept)
      ∙ finds_lem k n id s2 task s' f (ground arith)

  -- WaitTask answers with a task that has failed or succeeded, however Tower answers; and it does
  -- answer with the task as it is first found so, if the timeout leaves room for one more poll than
  -- find it under way.
  pub wait_task_ended :
      (polls : ℕ) (id : String) (s : Shared C T)
      → ((task : Task) → (wait_task client polls id s).0 ≡ ok task → is_ended task.status ≡ true)
        × ((k : ℕ) (task : Task) (s' : Shared C T)
            → Finds id task s' k s
            → ltb k polls ≡ true
            → wait_task client polls id s ≡ (ok task, s'))
  wait_task_ended polls id s = (
    (λ task h. subst Ended h ((wait_lem polls id).at s tt).0),
    λ k task s' f h. finds_lem k polls id s task s' f h,
  )
