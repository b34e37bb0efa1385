-- ===== src/TowerCache/Retries.antt =====
-- How a record of an error, controllers/tower_cache.go, holds back the operations that failed.
use cluster_api_provider_elf.Base.{
  ℕ, ◌+◌, ◌≤◌, String, ◌≡◌, ◌≢◌, refl, sym, ap, ◌∙◌, Bool, true, false, Option, none, some, ◌&&◌,
  ◌||◌, arith, leb, ltb, if◌then◌else◌,
}
use cluster_api_provider_elf.Base.Int.{ℤ, pos, ltb_ℤ}
use cluster_api_provider_elf.Base.Dict.{eq_self}
use cluster_api_provider_elf.Cache.{GoCache}
use cluster_api_provider_elf.Memory.{ClusterResource, Memory, Value, nil, resource, write}
use cluster_api_provider_elf.Limiter.{
  get_in_memory, set_placement_group_duplicate, can_create_placement_group,
  placement_group_silence_time,
}
use cluster_api_provider_elf.TowerCache.{
  resource_silence_time, resource_duration, get_key_for_duplicate_placement_group_error,
  record_resource, resource_of, get_cluster_resource, retry_resource, can_retry, record_or_delete,
}

write_eq : (h : ℕ → ClusterResource) (p : ℕ) (r : ClusterResource) → write h p r p ≡ r
write_eq h p r = ground arith

and_self : (b : Bool) → (b && b) ≡ b
and_self true = refl
and_self false = refl

module _ {C : Type 0} ⦃g : GoCache C Value⦄ where
  resource_of_if :
      (key : String) (b : Bool) (p : ℕ) (m : Memory C)
      → resource_of key (if b then some (resource p) else none) m
        ≡ ((if b then some p else none), m)
  unfolding resource_of
  resource_of_if key true p m = refl
  resource_of_if key false p m = refl

  -- The entry that a record makes.
  pub get_record :
      (start later : ℕ) (key : String) (asked : ℤ) (m : Memory C)
      → get_in_memory later key (record_resource start key asked m)
        ≡ (if leb later (start + resource_duration) then some (resource m.next_resource) else none)
  unfolding record_resource
  get_record start later key asked m =
      g.get-set start later key key (resource m.next_resource) (some resource_duration) m.in_memory
      ∙ ap
          (λ c.
            if c
            then (if leb later (start + resource_duration)
                then some (resource m.next_resource)
                else none)
            else get_in_memory later key m)
          (eq_self key)

  -- What a retry answers when the record stands at `p` as long as `b` says.
  retry_if : ℕ → ℤ → Bool → ℕ → Memory C → Bool × Memory C
  unfolding retry_resource
  retry_if now amount b p m = elim (if b then some p else none) [
    | none ↦ (false, m)
    | some p ↦ retry_resource now amount p m
  ]

  can_retry_if :
      (now : ℕ) (key : String) (amount : ℤ) (b : Bool) (p : ℕ) (m : Memory C)
      → get_in_memory now key m ≡ (if b then some (resource p) else none)
      → can_retry now key amount m ≡ retry_if now amount b p m
  unfolding can_retry retry_if get_cluster_resource
  can_retry_if now key amount b p m h =
      ap
        (λ (o : Option ℕ × Memory C). elim o.0 [
          | none ↦ (false, o.1)
          | some p ↦ retry_resource now amount p o.1
        ])
        (ap (λ o. resource_of key o m) h ∙ resource_of_if key b p m)

  retry_if_lem :
      (now : ℕ) (amount : ℤ) (b : Bool) (p : ℕ) (m : Memory C)
      → (retry_if now amount b p m).0 ≡ (
          b
          && (ltb_ℤ amount (m.resources p).request_amount
              || (leb ((m.resources p).last_detected + resource_silence_time) now
                  && leb ((m.resources p).last_retried + resource_silence_time) now)))
  unfolding retry_if retry_resource
  retry_if_lem now amount false p m = refl
  retry_if_lem now amount true p m = ground arith

  -- After an error is recorded a retry is let through as long as the record lasts, ten minutes, if
  -- it asks for less than was asked for, or if five minutes have passed.
  pub can_retry-record :
      (start later : ℕ) (key : String) (asked amount : ℤ) (m : Memory C)
      → (can_retry later key amount (record_or_delete start key asked true m)).0 ≡ (
          leb later (start + resource_duration)
          && (ltb_ℤ amount asked || leb (start + resource_silence_time) later))
  unfolding record_or_delete record_resource
  can_retry-record start later key asked amount m =
      let b = leb later (start + resource_duration) in
      let m' = record_resource start key asked m in
      let r : ClusterResource = record {
        last_detected = start;
        last_retried = start;
        request_amount = asked;
      } in
      ap (λ (o : Bool × Memory C). o.0)
        (can_retry_if later key amount b m.next_resource m' (get_record start later key asked m))
      ∙ retry_if_lem later amount b m.next_resource m'
      ∙ ap
          (λ (r : ClusterResource).
            b
            && (ltb_ℤ amount r.request_amount
                || (leb (r.last_detected + resource_silence_time) later
                    && leb (r.last_retried + resource_silence_time) later)))
          (write_eq m.resources m.next_resource r)
      ∙ ap (λ c. b && (ltb_ℤ amount asked || c))
          (and_self (leb (start + resource_silence_time) later))

  -- What a retry leaves of a record of which it asks no less: the time of the retry.
  retry_if_after :
      (now : ℕ) (amount : ℤ) (b : Bool) (p : ℕ) (m : Memory C)
      → ltb_ℤ amount (m.resources p).request_amount ≡ false
      → (retry_if now amount b p m).0 ≡ true
      → (b ≡ true)
        × (leb ((m.resources p).last_detected + resource_silence_time) now ≡ true)
        × ((retry_if now amount b p m).1 ≡ record m {
          resources = write m.resources p (record (m.resources p) { last_retried = now });
        })
  unfolding retry_if retry_resource
  retry_if_after now amount false p m h r = cc
  retry_if_after now amount true p m h r = (refl, ground arith, ground arith)

  -- The same record, once a retry has been let through at `later`.
  retried : ℕ → ℕ → String → ℤ → Memory C → Memory C
  unfolding record_resource
  retried start later key asked m =
      let m' = record_resource start key asked m in
      record m' {
        resources =
            write m'.resources m.next_resource
              (record (m'.resources m.next_resource) { last_retried = later });
      }

  can_retry-retried :
      (start later again : ℕ) (key : String) (asked amount : ℤ) (m : Memory C)
      → (can_retry again key amount (retried start later key asked m)).0 ≡ (
          leb again (start + resource_duration)
          && (ltb_ℤ amount asked
              || (leb (start + resource_silence_time) again
                  && leb (later + resource_silence_time) again)))
  unfolding retried record_resource
  can_retry-retried start later again key asked amount m =
      let b = leb again (start + resource_duration) in
      let m' = retried start later key asked m in
      let r₀ : ClusterResource = record {
        last_detected = start;
        last_retried = start;
        request_amount = asked;
      } in
      let h = (record_resource start key asked m).resources in
      let r : ClusterResource = record (h m.next_resource) { last_retried = later } in
      ap (λ (o : Bool × Memory C). o.0)
        (can_retry_if again key amount b m.next_resource m' (get_record start again key asked m))
      ∙ retry_if_lem again amount b m.next_resource m'
      ∙ ap
          (λ (r : ClusterResource).
            b
            && (ltb_ℤ amount r.request_amount
                || (leb (r.last_detected + resource_silence_time) again
                    && leb (r.last_retried + resource_silence_time) again)))
          (write_eq h m.next_resource r)
      ∙ ap
          (λ (r : ClusterResource).
            b
            && (ltb_ℤ amount r.request_amount
                || (leb (r.last_detected + resource_silence_time) again
                    && leb (later + resource_silence_time) again)))
          (write_eq m.resources m.next_resource r₀)

  -- Of the operations that ask for no less than the one that failed, one is let through: after it,
  -- none is until the record is gone, but at the very end of the tenth minute.
  pub one_retry :
      (start later again : ℕ) (key : String) (asked amount amount' : ℤ) (m : Memory C)
      → ltb_ℤ amount asked ≡ false
      → ltb_ℤ amount' asked ≡ false
      → again ≢ start + resource_duration
      → let m' = record_or_delete start key asked true m in
        (can_retry later key amount m').0 ≡ true
        → (can_retry again key amount' (can_retry later key amount m').1).0 ≡ false
  unfolding record_or_delete retried
  one_retry start later again key asked amount amount' m h h' ne r =
      let m' = record_resource start key asked m in
      let b = leb later (start + resource_duration) in
      let e =
        can_retry_if later key amount b m.next_resource m' (get_record start later key asked m) in
      let r₀ : ClusterResource = record {
        last_detected = start;
        last_retried = start;
        request_amount = asked;
      } in
      let w = write_eq m.resources m.next_resource r₀ in
      let (l, d, q) =
        retry_if_after later amount b m.next_resource m'
          (ap (λ (r : ClusterResource). ltb_ℤ amount r.request_amount) w ∙ h)
          (sym (ap (λ (o : Bool × Memory C). o.0) e) ∙ r) in
      let d' =
        sym (ap (λ (r : ClusterResource). leb (r.last_detected + resource_silence_time) later) w)
        ∙ d in
      ap (λ n. (can_retry again key amount' n).0) (ap (λ (o : Bool × Memory C). o.1) e ∙ q)
      ∙ can_retry-retried start later again key asked amount' m
      ∙ ground arith

  -- The records of a broken placement policy and of a duplicate placement group share their key.
  -- When Tower has reported a duplicate of a placement group, a look for a record of a broken policy
  -- deletes the mark, and the group may at once be created again.
  pub read_undoes_silence :
      (start now later : ℕ) (group : String) (m : Memory C)
      → now ≤ start + placement_group_silence_time
      → let m' = set_placement_group_duplicate start group m in
        (can_create_placement_group now group m' ≡ false)
        × (can_create_placement_group later group
              (get_cluster_resource now (get_key_for_duplicate_placement_group_error group) m').1
            ≡ true)
  unfolding get_cluster_resource resource_of can_create_placement_group
      set_placement_group_duplicate
  read_undoes_silence start now later group m h =
      let key = get_key_for_duplicate_placement_group_error group in
      let c = g.set start key nil (some placement_group_silence_time) m.in_memory in
      let now_found =
        g.get-set start now key key nil (some placement_group_silence_time) m.in_memory in
      (
        ground (arith, now_found, eq_self key),
        ground (arith, now_found, g.get-delete later key key c, eq_self key),
      )

  -- A recorded breach of the placement policy keeps the group from being created as long as the
  -- record lasts, and no longer.
  record_silences :
      (start later : ℕ) (group : String) (m : Memory C)
      → can_create_placement_group later group (
          record_or_delete start (get_key_for_duplicate_placement_group_error group) (pos 0) true m)
        ≡ ltb (start + resource_duration) later
  unfolding can_create_placement_group record_or_delete
  record_silences start later group m =
      let key = get_key_for_duplicate_placement_group_error group in
      ground (arith, get_record start later key (pos 0) m)
