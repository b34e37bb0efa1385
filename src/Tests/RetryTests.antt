-- ===== src/Tests/RetryTests.antt =====
-- Runs of the records of errors.
use cluster_api_provider_elf.Base.{◌≡◌, refl, true, false, arith}
use cluster_api_provider_elf.Base.Dict.{lookup, insert}
use cluster_api_provider_elf.Base.Int.{pos}
use cluster_api_provider_elf.Cache.Assoc.{get, put, read, assoc_cache}
use cluster_api_provider_elf.Limiter.{can_create_placement_group, set_placement_group_duplicate}
use cluster_api_provider_elf.TowerCache.{
  can_retry, record_or_delete, record_resource, get_cluster_resource, resource_of, retry_resource,
  get_key_for_duplicate_placement_group_error,
}
use cluster_api_provider_elf.TowerCache.Retries.{can_retry-record, one_retry, read_undoes_silence}
use cluster_api_provider_elf.Tests.HistoryTests.{empty_memory}

-- Five minutes after an error, a request for as much is let through.
can_retry-record_example :
    (can_retry 400 "k" (pos 8) (record_or_delete 100 "k" (pos 8) true empty_memory)).0 ≡ true
can_retry-record_example = can_retry-record 100 400 "k" (pos 8) (pos 8) empty_memory

one_retry_example :
    let m' = record_or_delete 100 "k" (pos 8) true empty_memory in
    (can_retry 500 "k" (pos 9) (can_retry 400 "k" (pos 8) m').1).0 ≡ false
unfolding can_retry record_or_delete record_resource retry_resource resource_of get read lookup put
    insert
one_retry_example =
    one_retry 100 400 500 "k" (pos 8) (pos 8) (pos 9) empty_memory refl refl (λ e. omega arith) refl

read_undoes_silence_example :
    let m' = set_placement_group_duplicate 100 "g" empty_memory in
    (can_create_placement_group 110 "g" m' ≡ false)
    × (can_create_placement_group 120 "g"
          (get_cluster_resource 110 (get_key_for_duplicate_placement_group_error "g") m').1
        ≡ true)
read_undoes_silence_example = read_undoes_silence 100 110 120 "g" empty_memory (omega arith)
