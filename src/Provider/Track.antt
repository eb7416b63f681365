-- ===== src/Provider/Track.antt =====
-- provider/cocoon/provider.go: the critical sections that track, bind, drop and claim pods and VMs.
-- Each function is one section under `p.mu`; `Probes.Forget` after it is left to the caller.
use vk_cocoon.Base.{
  ℕ, suc, Bool, true, false, not, ◌&&◌, ◌||◌, Option, none, some, String, ◌==◌, is_empty, nat_eq,
  ltb, if◌then◌else◌, is_some,
}
use vk_cocoon.Base.Seq.{keep}
use vk_cocoon.Base.Table.{lookup, insert, delete, contains}
use vk_cocoon.Kube.{Pod, Meta}
use vk_cocoon.Vm.{Vm}
use vk_cocoon.Provider.State.{
  Tables, DeleteClaim, claimed, in_flight, superseded, LifecycleEntry, key_of,
}

-- `deletingLocked`.
unfoldable pub is_deleting : String → Tables → Bool
is_deleting key t = contains key t.deleting

abbrev pub other_uid : String → Option Pod → Bool
other_uid uid none = false
other_uid uid (some tracked) = not (tracked.uid == uid)

abbrev pub same_uid : String → Option Pod → Bool
same_uid uid none = false
same_uid uid (some tracked) = tracked.uid == uid

-- `supersededLocked`: another incarnation is tracked.
unfoldable pub is_superseded : String → String → Tables → Bool
is_superseded key uid t = other_uid uid (lookup key t.pods)

unfoldable pub tracked_pod_matches : String → String → Tables → Bool
tracked_pod_matches key uid t = same_uid uid (lookup key t.pods)

unfoldable pub set_vm : String → Vm → Tables → Tables
set_vm key v t = record t {
  vms_by_pod = insert key v t.vms_by_pod;
  vms_by_name = if is_empty v.name then t.vms_by_name else insert v.name v t.vms_by_name;
}

abbrev pub is_object : Vm → Option Vm → Bool
is_object v none = false
is_object v (some w) = nat_eq w.object v.object

abbrev drop_bound : String → Option Vm → Tables → Tables
drop_bound key none t = t
drop_bound key (some v) t = record t {
  last_restart = delete v.id t.last_restart;
  vms_by_name =
      if is_object v (lookup v.name t.vms_by_name)
      then delete v.name t.vms_by_name
      else t.vms_by_name;
  vms_by_pod = delete key t.vms_by_pod;
}

unfoldable pub drop_vm : String → Tables → Tables
drop_vm key t = drop_bound key (lookup key t.vms_by_pod) t

unfoldable pub untrack : String → Tables → Tables
unfolding drop_vm
untrack key t =
    let t' = drop_vm key t in
    record t' {
      pods = delete key t'.pods;
      macos_vnc = delete key t'.macos_vnc;
      macos_leftover = delete key t'.macos_leftover;
      lifecycle_intent = delete key t'.lifecycle_intent;
      op_retries = delete key t'.op_retries;
      pod_locks = delete key t'.pod_locks;
    }

unfoldable pub untrack_incarnation : String → String → Tables → Tables × Bool
untrack_incarnation key uid t =
    if tracked_pod_matches key uid t then (untrack key t, true) else (t, false)

abbrev index_named : Vm → Tables → Tables
index_named v t =
    if is_empty v.name then t else record t { vms_by_name = insert v.name v t.vms_by_name }

unfoldable pub index_orphan_by_name : Option Vm → Tables → Tables
index_orphan_by_name none t = t
index_orphan_by_name (some v) t = index_named v t

abbrev bound_elsewhere : Option Vm → Vm → Bool
bound_elsewhere none v = true
bound_elsewhere (some bound) v = not (bound.name == v.name)

abbrev reindex_unbound : String → Option Vm → Tables → Tables
reindex_unbound key none t = t
reindex_unbound key (some v) t =
    if bound_elsewhere (lookup key t.vms_by_pod) v then index_orphan_by_name (some v) t else t

-- `detachIncarnation`: refused while a delete is in flight.
unfoldable pub detach_incarnation : String → String → Option Vm → Tables → Tables × Bool
unfolding untrack_incarnation
detach_incarnation key uid v t =
    if is_deleting key t
    then (t, false)
    else (reindex_unbound key v (untrack_incarnation key uid t).0, true)

module _ (m : Meta) where
  abbrev reassert_entry : String → Option LifecycleEntry → Pod → Tables → Tables × Pod
  reassert_entry key none pod t = (t, pod)
  reassert_entry key (some cur) pod t =
      if cur.uid == pod.uid
      then (t, m.apply_status cur.status pod)
      else (record t { lifecycle_intent = delete key t.lifecycle_intent }, pod)

  -- `reassertLifecycleLocked` stamps the incarnation's intent on the pod, or drops a foreign one.
  unfoldable pub reassert_lifecycle : String → Pod → Tables → Tables × Pod
  reassert_lifecycle key pod t = reassert_entry key (lookup key t.lifecycle_intent) pod t

  abbrev pub set_bound : String → Option Vm → Tables → Tables
  set_bound key none t = t
  set_bound key (some v) t = set_vm key v t

  -- `trackPodLocked`: the new tables, and the pod as it is tracked.
  unfoldable pub track_pod : Pod → Option Vm → Tables → Tables × Pod
  unfolding reassert_lifecycle
  track_pod pod v t =
      let (t', pod') = reassert_lifecycle (key_of m pod) pod t in
      (set_bound (key_of m pod) v (record t' { pods = insert (key_of m pod) pod' t'.pods }), pod')

  unfoldable pub track_pod_unless_deleting : Pod → Option Vm → Tables → Tables × Pod × Bool
  track_pod_unless_deleting pod v t =
      if is_deleting (key_of m pod) t
      then (t, pod, false)
      else let (t', pod') = track_pod pod v t in (t', pod', true)

  unfoldable pub track_pod_incarnation : Pod → Option Vm → Tables → Tables × Pod × Bool
  track_pod_incarnation pod v t =
      if is_deleting (key_of m pod) t || is_superseded (key_of m pod) pod.uid t
      then (index_orphan_by_name v t, pod, false)
      else let (t', pod') = track_pod pod v t in (t', pod', true)

  -- `RefreshKeepSnapshotOnDelete`.
  unfoldable pub refresh_keep_snapshot_on_delete : Pod → Tables → Tables
  refresh_keep_snapshot_on_delete pod t =
      if m.read_keep_snapshot_on_delete pod
      then elim (lookup (key_of m pod) t.pods) [
        | none ↦ t
        | some tracked ↦
            if tracked.uid == pod.uid
            then record t {
              pods = insert (key_of m pod) (m.mark_keep_snapshot_on_delete tracked) t.pods;
            }
            else t
      ]
      else t

abbrev vm_id_is : String → Option Vm → Bool
vm_id_is vm_id none = false
vm_id_is vm_id (some v) = v.id == vm_id

unfoldable pub claim_deleting_incarnation : String → String → String → Tables → Tables × Bool
claim_deleting_incarnation key uid vm_id t =
    if is_deleting key t
    then (t, false)
    else if same_uid uid (lookup key t.pods) && vm_id_is vm_id (lookup key t.vms_by_pod)
    then (record t { deleting = insert key tt t.deleting }, true)
    else (t, false)

unfoldable pub claim_deleting : String → String → Tables → Tables × DeleteClaim
claim_deleting key uid t =
    if is_superseded key uid t
    then (t, superseded)
    else if is_deleting key t
    then (t, in_flight)
    else (record t { deleting = insert key tt t.deleting }, claimed)

unfoldable pub finish_deleting : String → Tables → Tables
finish_deleting key t = record t { deleting = delete key t.deleting }

-- `updateTrackedVM`: copy on write, so the bound VM becomes a new object; `none` when the pod's VM
-- changed underneath the caller.
unfoldable pub update_tracked_vm : String → String → (Vm → Vm) → Tables → Tables × Option Vm
update_tracked_vm key vm_id mutate t = elim (lookup key t.vms_by_pod) [
  | none ↦ (t, none)
  | some v ↦
      let updated = mutate (record v { object = t.next_object }) in
      if v.id == vm_id
      then (set_vm key updated (record t { next_object = suc t.next_object }), some updated)
      else (t, none)
]

unfoldable pub set_vm_ip : String → String → String → Tables → Tables × Bool
set_vm_ip key vm_id ip t =
    let (t', updated) = update_tracked_vm key vm_id (λ v. record v { ip = ip }) t in
    (t', is_some updated)

-- `gcStaleRestarts` drops the rows older than twice the cooldown; `cutoff` is that moment.
unfoldable pub gc_stale_restarts : ℕ → Tables → Tables
gc_stale_restarts cutoff t = record t {
  last_restart = keep (λ r. not (ltb r.1 cutoff)) t.last_restart;
}
