-- ===== src/Tests/Pods.antt =====
-- The theorems on wakes, creates, updates and the wait for a lease at sample values.
use vk_cocoon.Base.{ℕ, ◌+◌, ◌≡◌, true, not, ◌&&◌, ◌||◌, some, List, [], ◌∷◌, is_some, is_none}
use vk_cocoon.Base.Table.{insert, contains}
use vk_cocoon.Kube.{Meta, LifecycleState}
use vk_cocoon.Vm.{ok, not_found, Snapshot}
use vk_cocoon.Provider.State.{Tables, new_tables}
use vk_cocoon.Provider.World.{Env, Effect, ApiReply, sleep}
use vk_cocoon.Provider.Update.{apply_cloud_update}
use vk_cocoon.Provider.Update.Acts.{removes, boots}
use vk_cocoon.Provider.Update.Effects.{apply_cloud_update-acts}
use vk_cocoon.Provider.Reclaim.{reclaim_local_snapshots}
use vk_cocoon.Provider.Reclaim.Unused.{
  drops_only, names_needed, may_drop_one, reclaim_local_snapshots-drops,
}
use vk_cocoon.Provider.World.{call}
use vk_cocoon.Tests.{
  sample_meta, sample_settings, sample_spec, pod_of, vm_of, entry_of, tables_with, world_of, env_of,
}

abbrev saved_copy : Snapshot
saved_copy = record {
  id = "s1";
  name = "vk-a";
  image = "img";
  image_digest = "d1";
  hypervisor = "cloud-hypervisor";
  description = "";
}

-- Every call succeeds, and the registry names the local snapshot.
abbrev restorable : Env
restorable = record (env_of ApiReply.accepted (ok (vm_of "vm-1" "vk-a" "running")) (ok tt)) {
  snapshot = λ log. ok saved_copy;
  manifest = λ log. ok (record { base_image = "img"; from_node = "node-2" });
  config_id = λ log. ok "s1";
}

-- The pod of a hibernated VM: it is tracked, and no VM is bound to it.
abbrev asleep : Tables
asleep = record new_tables { pods = ("default/a", pod_of "a" "u1" 2) ∷ [] }

-- A mark of a restore is an annotation.
abbrev marking_meta : Meta
marking_meta = record sample_meta {
  read_restore_from_hibernate = λ p. contains "restore" p.annotations;
  mark_restore_from_hibernate =
      λ p. record p { annotations = insert "restore" "true" p.annotations };
}

abbrev bound : Tables
bound =
    tables_with (pod_of "a" "u1" 2) (vm_of "vm-1" "vk-a" "running")
      (entry_of "u1" LifecycleState.ready 2)

apply_cloud_update-acts_example :
    let log =
      (apply_cloud_update sample_meta sample_settings restorable
        (pod_of "a" "u1" 2)
        sample_spec
        (some (vm_of "vm-1" "vk-a" "running"))
        true
        ""
        (world_of bound)).1.log in
    (not (removes log) || true && is_some (some (vm_of "vm-1" "vk-a" "running")) ≡ true)
    × (not (boots log) || not true && is_none (some (vm_of "vm-1" "vk-a" "running")) ≡ true)
apply_cloud_update-acts_example =
    apply_cloud_update-acts sample_meta sample_settings restorable (pod_of "a" "u1" 2) sample_spec
      (some (vm_of "vm-1" "vk-a" "running")) true "" bound

-- The time that has passed: the sleeps so far.
unfoldable pub slept : List Effect → ℕ
slept [] = 0
slept (sleep n ∷ log) = slept log + n
slept (e ∷ log) = slept log

-- No lease is ever found.
abbrev pub timed : Env
timed = record restorable { clock = slept; lease_ip = λ log. not_found }

-- Two listed snapshots: one of a VM that a pod has, one of a VM that no pod has.
abbrev listing : Env
listing = record restorable {
  snapshots = λ log. ok (saved_copy ∷ record saved_copy { name = "vk-b-import" } ∷ []);
}

reclaim_local_snapshots-drops_example :
    drops_only
      (may_drop_one sample_meta sample_settings listing
        (names_needed sample_meta sample_settings listing bound.pods)
        (saved_copy ∷ record saved_copy { name = "vk-b-import" } ∷ []))
      (reclaim_local_snapshots sample_meta sample_settings listing (world_of bound)).1.log
    ≡ true
unfolding call
reclaim_local_snapshots-drops_example =
    reclaim_local_snapshots-drops sample_meta sample_settings listing bound
