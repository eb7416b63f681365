-- ===== src/Tests/Handlers.antt =====
-- The theorems on the handlers of a hibernate, a VM event and a delete at sample values.
use vk_cocoon.Base.{◌≡◌, refl, true, false, Option, none, some, String, is_some, if◌then◌else◌}
use vk_cocoon.Base.Table.{lookup, contains}
use vk_cocoon.Base.Text.{equal_fold, trim_space}
use vk_cocoon.Kube.{Pod, LifecycleState}
use vk_cocoon.Vm.{Vm, ok, err, not_found}
use vk_cocoon.Provider.State.{Tables, new_tables}
use vk_cocoon.Provider.Track.{is_superseded, is_deleting, claim_deleting}
use vk_cocoon.Provider.World.{ApiReply, Env, call}
use vk_cocoon.Provider.Hibernate.{hibernate}
use vk_cocoon.Provider.Hibernate.Audit as HibernateAudit
use vk_cocoon.Provider.Hibernate.Audit.Stages.{hibernate-careful}
use vk_cocoon.Provider.Evict.Event.{handle_vm_gone}
use vk_cocoon.Provider.Evict.{pod_for_vm_match}
use vk_cocoon.Provider.Evict.Keep.Event.{Concerns, ActsOnEvidence, handle_vm_gone-careful}
use vk_cocoon.Provider.Resume.{is_resuming}
use vk_cocoon.Provider.Delete.{
  DeleteError, delete_pod, delete_claimed, save_and_push_snapshot, wants_snapshot,
}
use vk_cocoon.Spec.{is_macos_spec}
use vk_cocoon.Provider.Delete.Claim.{delete_pod-claim}
use vk_cocoon.Provider.Delete.Careful.{drops, delete_pod-keeps}
use vk_cocoon.Tests.{
  sample_meta, sample_settings, sample_spec, pod_of, vm_of, entry_of, tables_with, world_of, env_of,
}

abbrev tables : Tables
tables =
    tables_with (pod_of "a" "u1" 2) (vm_of "vm-1" "vk-a" "running")
      (entry_of "u1" LifecycleState.ready 2)

-- Every call succeeds; the VM runs, and has stopped; every call fails.
abbrev all_well : Env
all_well = env_of ApiReply.accepted (ok (vm_of "vm-1" "vk-a" "running")) (ok tt)

abbrev vm_stopped : Env
vm_stopped = env_of ApiReply.accepted (ok (vm_of "vm-1" "vk-a" "stopped")) not_found

abbrev all_down : Env
all_down = env_of (ApiReply.refused "down") (err "down") (err "down")

hibernate-careful_example :
    (HibernateAudit.audit sample_settings all_well "vm-1"
      (hibernate sample_meta sample_settings all_well
        (pod_of "a" "u1" 2)
        sample_spec
        (vm_of "vm-1" "vk-a" "running")
        (world_of tables)).1.log).careful
    ≡ true
hibernate-careful_example =
    hibernate-careful sample_meta sample_settings all_well (pod_of "a" "u1" 2) sample_spec
      (vm_of "vm-1" "vk-a" "running") tables

abbrev stopped_event : Vm
stopped_event = vm_of "vm-1" "vk-a" "stopped"

abbrev concerned : Option (String × Pod × Vm)
concerned = pod_for_vm_match "vm-1" "vk-a" tables.pods tables.vms_by_pod

handle_vm_gone-careful_example :
    Concerns stopped_event tables.pods tables.vms_by_pod concerned
    × ActsOnEvidence vm_stopped concerned
        (handle_vm_gone sample_meta sample_settings vm_stopped stopped_event
          (world_of tables)).1.log
handle_vm_gone-careful_example =
    handle_vm_gone-careful sample_meta sample_settings vm_stopped stopped_event tables

delete_fails :
    is_some
      (delete_pod sample_meta sample_settings all_down (pod_of "a" "u1" 2) (world_of tables)).0
    ≡ true
unfolding delete_pod claim_deleting is_superseded is_deleting delete_claimed is_resuming
    is_macos_spec save_and_push_snapshot wants_snapshot call lookup contains new_tables equal_fold
    trim_space
delete_fails = refl

delete_pod-keeps_example :
    let w = world_of tables in
    let w' = (delete_pod sample_meta sample_settings all_down (pod_of "a" "u1" 2) w).1 in
    (w'.tables.pods ≡ w.tables.pods)
    × (w'.tables.vms_by_pod ≡ w.tables.vms_by_pod)
    × (w'.tables.vms_by_name ≡ w.tables.vms_by_name)
    × (w'.tables.lifecycle_intent ≡ w.tables.lifecycle_intent)
    × (w'.tables.op_retries ≡ w.tables.op_retries)
    × (drops w'.log ≡ drops w.log)
delete_pod-keeps_example =
    delete_pod-keeps sample_meta sample_settings all_down (λ log t. refl) (pod_of "a" "u1" 2)
      (world_of tables) delete_fails

delete_pod-claim_example :
    let w = world_of tables in
    let r = delete_pod sample_meta sample_settings all_well (pod_of "a" "u1" 2) w in
    if is_superseded "default/a" "u1" w.tables
    then r ≡ (none, w)
    else if is_deleting "default/a" w.tables
    then r ≡ (some DeleteError.in_flight, w)
    else is_deleting "default/a" r.1.tables ≡ false
delete_pod-claim_example =
    delete_pod-claim sample_meta sample_settings all_well (pod_of "a" "u1" 2) (world_of tables)
