-- ===== src/Tests/Lifecycle.antt =====
-- The theorems on the lifecycle, the tables and the retries at sample values.
use vk_cocoon.Base.{
  true, false, List, ◌≡◌, ◌≤◌, inl, refl, arith, none, some, [], ◌∷◌, ◌+◌, ◌==◌, ltb, if◌then◌else◌,
  ◌↔◌,
}
use vk_cocoon.Base.Table.{lookup, contains}
use vk_cocoon.Kube.{LifecycleState, LifecycleStatus}
use vk_cocoon.Vm.{err}
use vk_cocoon.Provider.State.{new_tables, Tables}
use vk_cocoon.Provider.World.{ApiReply, World, call}
use vk_cocoon.Provider.Lifecycle.{lifecycle_owned}
use vk_cocoon.Provider.Lifecycle.Writes.{WriteRequest, Holds, write_all, write_all-Holds}
use vk_cocoon.Provider.Lifecycle.Sticky.{HasFailed, write_all-HasFailed}
use vk_cocoon.Provider.Flush.{
  flush_lifecycle, flushed, flush_attempts, patch_incarnation_annotations, patch_superseded,
}
use vk_cocoon.Provider.Flush.Fence.{
  patches, flushed_row, flush_lifecycle-patches, flush_lifecycle-settled, flush_lifecycle-intent,
}
use vk_cocoon.Provider.Sections.{Section, run_sections}
use vk_cocoon.Provider.Sections.Index.{IndexIsNamed, sections-IsNamed}
use vk_cocoon.Provider.Sections.Claim.{Excluded}
use vk_cocoon.Provider.Sections.Claim.Exclusion.{sections-Excluded}
use vk_cocoon.Provider.Retry.{retry_op, retry_op_later, next_delay}
use vk_cocoon.Provider.Retry.Backoff.{retry_op-retry_op_later}
use vk_cocoon.Provider.Resume.{ResumeOp, owed_op_for}
use vk_cocoon.Provider.Resume.Owed.{Owes, owed_op_for-Owes}
use vk_cocoon.Tests.{
  sample_meta, sample_laws, sample_settings, pod_of, vm_of, entry_of, tables_with, world_of, env_of,
}

abbrev tables : Tables
tables =
    tables_with (pod_of "a" "u1" 2) (vm_of "vm-1" "vk-a" "running")
      (entry_of "u1" LifecycleState.failed 2)

-- Writes by the incarnation at an older generation, by another incarnation, and for another pod.
abbrev requests : List WriteRequest
requests =
    record { pod = pod_of "a" "u1" 1; state = LifecycleState.ready; message = "" }
    ∷ record { pod = pod_of "a" "u2" 2; state = LifecycleState.ready; message = "" }
    ∷ record { pod = pod_of "b" "u3" 5; state = LifecycleState.failed; message = "boom" }
    ∷ []

-- The first two of them, neither of which starts an attempt.
abbrev requests_late : List WriteRequest
requests_late =
    record { pod = pod_of "a" "u1" 1; state = LifecycleState.ready; message = "" }
    ∷ record { pod = pod_of "a" "u2" 2; state = LifecycleState.ready; message = "" }
    ∷ []

write_all-Holds_example : Holds "default/a" "u1" 2 (write_all sample_meta requests tables)
write_all-Holds_example =
    write_all-Holds sample_meta sample_laws "default/a" "u1" 2 requests tables
      (unfold lookup in record { tracked = refl; intent = (refl, omega arith) })

write_all-HasFailed_example :
    HasFailed sample_meta "default/a" "u1" 2 (write_all sample_meta requests_late tables)
write_all-HasFailed_example =
    write_all-HasFailed sample_meta sample_laws "default/a" "u1" 2 requests_late tables
      ((refl, omega arith), ((refl, omega arith), tt))
      (unfold lookup in record { tracked = (refl, omega arith); intent = (refl, refl, refl) })

abbrev failed_intent : LifecycleStatus
failed_intent = record { state = LifecycleState.failed; observed_generation = 2; message = "" }

abbrev start : World
start = world_of tables

flush_lifecycle-patches_example :
    patches
      (flush_lifecycle sample_meta sample_settings
        (env_of (ApiReply.refused "busy") (err "") (err ""))
        "default/a"
        "u1"
        failed_intent
        start).1.log
    ≤ 3 + patches start.log
flush_lifecycle-patches_example =
    flush_lifecycle-patches sample_meta sample_settings
      (env_of (ApiReply.refused "busy") (err "") (err "")) "default/a" "u1" failed_intent start

flush_ends :
    (flush_lifecycle sample_meta sample_settings
      (env_of ApiReply.accepted (err "") (err ""))
      "default/a"
      "u1"
      failed_intent
      start).0
    ≡ flushed
unfolding flush_lifecycle flush_attempts lifecycle_owned lookup patch_incarnation_annotations call
    patch_superseded
flush_ends = refl

flush_lifecycle-settled_example :
    lookup "default/a"
      (flush_lifecycle sample_meta sample_settings
        (env_of ApiReply.accepted (err "") (err ""))
        "default/a"
        "u1"
        failed_intent
        start).1.tables.lifecycle_intent
    ≡ some (
        flushed_row sample_meta sample_settings
          (env_of ApiReply.accepted (err "") (err ""))
          (entry_of "u1" LifecycleState.failed 2)
          "Failed")
flush_lifecycle-settled_example =
    flush_lifecycle-settled sample_meta sample_settings (env_of ApiReply.accepted (err "") (err ""))
      "default/a" "u1" failed_intent (entry_of "u1" LifecycleState.failed 2) start (λ log t. refl)
      (unfold lookup in refl) flush_ends

flush_lifecycle-intent_example :
    lookup "default/a"
      (flush_lifecycle sample_meta sample_settings
        (env_of ApiReply.absent (err "") (err ""))
        "default/b"
        "u1"
        failed_intent
        start).1.tables.lifecycle_intent
    ≡ lookup "default/a" start.tables.lifecycle_intent
flush_lifecycle-intent_example =
    flush_lifecycle-intent sample_meta sample_settings (env_of ApiReply.absent (err "") (err ""))
      "default/a" "default/b" "u1" failed_intent start (λ log t. refl) (inl refl)

-- A handler writes to its pod, the pod is tracked and its VM bound, another incarnation tries to, the
-- claim of a delete is taken, and the create of the pod moves its VM and fails.
abbrev sections : List Section
sections =
    Section.store "default/a" (pod_of "a" "u1" 2)
    ∷ Section.track (pod_of "a" "u1" 1) none
    ∷ Section.bind (pod_of "a" "u1" 1) (some (vm_of "vm-1" "vk-a" "running"))
    ∷ Section.bind (pod_of "a" "u2" 1) (some (vm_of "vm-2" "vk-b" "running"))
    ∷ Section.claim "default/a" "u1"
    ∷ Section.mutate_vm "default/a" "vm-1" (λ v. record v { ip = "10.0.0.9" })
    ∷ Section.drop_index "vk-b" (vm_of "vm-2" "vk-b" "running")
    ∷ Section.fail_create true false "default/a" "u1"
    ∷ Section.forget "default/a"
    ∷ []

sections-IsNamed_example : IndexIsNamed (run_sections sample_meta sections new_tables)
sections-IsNamed_example =
    sections-IsNamed sample_meta sections new_tables (unfold lookup new_tables in λ n. tt)

abbrev claimed : Tables
claimed = record tables { deleting = ("default/a", tt) ∷ [] }

sections-Excluded_example : Excluded "default/a" claimed (run_sections sample_meta sections claimed)
sections-Excluded_example =
    sections-Excluded sample_meta sample_laws sections "default/a" claimed
      (unfold lookup in refl, (tt, (tt, (tt, (tt, (tt, (tt, (tt, (tt, tt)))))))))
      (unfold contains in refl)

retry_op-retry_op_later_example :
    retry_op "default/a" 114_000_000_000
      (retry_op_later sample_meta (pod_of "a" "u1" 2) 0 100_000_000_000 tables)
    ≡ (if "u1" == "u1"
        then (if ltb 114_000_000_000 (100_000_000_000 + next_delay 0)
            then none
            else some (pod_of "a" "u1" 2))
        else retry_op "default/a" 114_000_000_000 tables)
retry_op-retry_op_later_example =
    retry_op-retry_op_later sample_meta (pod_of "a" "u1" 2) (pod_of "a" "u1" 2) 0 100_000_000_000
      114_000_000_000 tables (unfold lookup in refl)

owed_op_for-Owes_example :
    (owed_op_for sample_meta (pod_of "a" "u1" 2) (some (vm_of "vm-1" "vk-a" "running"))
      ≡ some ResumeOp.ready_wait)
    ↔ Owes sample_meta (pod_of "a" "u1" 2) (vm_of "vm-1" "vk-a" "running") ResumeOp.ready_wait
owed_op_for-Owes_example =
    owed_op_for-Owes sample_meta (pod_of "a" "u1" 2) (vm_of "vm-1" "vk-a" "running")
      ResumeOp.ready_wait
