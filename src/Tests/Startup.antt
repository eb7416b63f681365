-- ===== src/Tests/Startup.antt =====
-- The theorems on what a create asks before it boots a VM, at sample values.
use vk_cocoon.Base.{List, [], ◌∷◌, ◌≢◌, arith, ◌≡◌, ◌↔◌, ◌⊎◌, true, false}
use vk_cocoon.Base.Seq.{All}
use vk_cocoon.Base.Table.{lookup}
use vk_cocoon.Kube.{LifecycleState}
use vk_cocoon.Vm.{Vm, StaleCreateOutcome, ok, not_found}
use vk_cocoon.Spec.{text_at}
use vk_cocoon.Provider.World.{ApiReply, World, Env}
use vk_cocoon.Provider.Evidence.{
  Compatibility, assert_pod_snapshot_compatibility, is_terminal, fresh, restore,
  derive_restore_from_evidence, adoptable_vm,
}
use vk_cocoon.Provider.Evidence.Rules.{
  HasFitting, HasNone, MayRestore, Follows, assert_pod_snapshot_compatibility-passes,
  derive_restore-decides, adoptable_vm-Follows,
}
use vk_cocoon.Provider.State.{OrphanPolicy}
use vk_cocoon.Provider.Stale.{reconcile_stale_creates}
use vk_cocoon.Provider.Stale.Orphans.{
  IsCreated, removals, reconcile_stale_creates-IsCreated, reconcile_stale_creates-removals,
}
use vk_cocoon.Tests.{
  sample_meta, sample_settings, sample_spec, pod_of, vm_of, entry_of, tables_with, world_of, env_of,
}

abbrev vm_gone : Env
vm_gone = env_of ApiReply.accepted not_found (ok tt)

abbrev start : World
start = world_of (
    tables_with (pod_of "a" "u1" 2) (vm_of "vm-1" "vk-a" "running")
      (entry_of "u1" LifecycleState.ready 2))

assert_pod_snapshot_compatibility-passes_example :
    (assert_pod_snapshot_compatibility sample_meta sample_settings (pod_of "a" "u1" 1)
      ≡ Compatibility.compatible)
    ↔ ((is_terminal (pod_of "a" "u1" 1).status.phase ≡ true)
        ⊎ ((text_at "class" (pod_of "a" "u1" 1).node_selector ≡ "")
            ⊎ (text_at "class" (pod_of "a" "u1" 1).node_selector ≡ "gold")))
assert_pod_snapshot_compatibility-passes_example =
    assert_pod_snapshot_compatibility-passes sample_meta sample_settings (pod_of "a" "u1" 1)

derive_restore-decides_example :
    let answer =
      (derive_restore_from_evidence sample_meta sample_settings vm_gone
        (pod_of "a" "u1" 2)
        sample_spec
        false
        start).0.1 in
    ((answer ≡ fresh)
      ↔ HasNone sample_meta sample_settings vm_gone (pod_of "a" "u1" 2) sample_spec false start)
    × ((answer ≡ restore) ↔ (
        HasFitting sample_meta sample_settings vm_gone (pod_of "a" "u1" 2) sample_spec false start
        × MayRestore sample_meta (pod_of "a" "u1" 2) sample_spec false))
derive_restore-decides_example =
    derive_restore-decides sample_meta sample_settings vm_gone (pod_of "a" "u1" 2) sample_spec false
      start

adoptable_vm-Follows_example :
    let a = adoptable_vm sample_meta sample_settings vm_gone "vk-a" start in
    Follows "vk-a" (lookup "vk-a" start.tables.vms_by_name) a.0 a.1.tables
adoptable_vm-Follows_example = adoptable_vm-Follows sample_meta sample_settings vm_gone "vk-a" start

-- A placeholder that turns out to have become a stopped VM, and a running VM.
abbrev startup_list : List Vm
startup_list = vm_of "vm-1" "vk-a" "creating" ∷ vm_of "vm-2" "vk-b" "running" ∷ []

abbrev committed : Env
committed = record (env_of ApiReply.accepted (ok (vm_of "vm-1" "vk-a" "stopped")) (ok tt)) {
  outcome = λ log. ok StaleCreateOutcome.not_creating;
}

reconcile_stale_creates-IsCreated_example :
    All IsCreated
      (reconcile_stale_creates sample_meta sample_settings committed startup_list start).0
reconcile_stale_creates-IsCreated_example =
    reconcile_stale_creates-IsCreated sample_meta sample_settings committed startup_list start

alert_spares : sample_settings.orphan_policy ≢ OrphanPolicy.destroy
alert_spares = ground arith

reconcile_stale_creates-removals_example :
    removals
      (reconcile_stale_creates sample_meta sample_settings committed startup_list start).1.log
    ≡ removals start.log
reconcile_stale_creates-removals_example =
    reconcile_stale_creates-removals sample_meta sample_settings committed alert_spares startup_list
      start
