-- ===== src/Provider/Startup.antt =====
-- provider/cocoon/reconcile.go: `StartupReconcile`, which binds the VMs of the node to its pods after a
-- restart. Pods are started and guests adopted side by side in the source, here one after the other.
pub mod Matched
pub mod Untouched
pub mod Spares
use vk_cocoon.Base.{
  ℕ, suc, Bool, true, false, not, ◌&&◌, Option, none, some, String, List, [], ◌∷◌, ◌==◌, is_empty,
  if◌then◌else◌,
}
use vk_cocoon.Base.Seq.{exists}
use vk_cocoon.Base.Table.{Table, lookup, insert}
use vk_cocoon.Kube.{Pod, VmSpec, Meta}
use vk_cocoon.Vm.{Vm, Reply, ok, not_found, err, state_running}
use vk_cocoon.Spec.{is_macos_spec}
use vk_cocoon.Provider.State.{Tables, Settings, key_of}
use vk_cocoon.Provider.Track.{track_pod}
use vk_cocoon.Provider.Lifecycle.{seed_lifecycle_intent}
use vk_cocoon.Provider.Ready.{lift_cleared_hibernate_failure}
use vk_cocoon.Provider.Runtime.{apply_runtime, clear_runtime_annotations}
use vk_cocoon.Provider.Evidence.{Compatibility, compatible, assert_pod_snapshot_compatibility}
use vk_cocoon.Provider.Stale.{handle_orphan, reconcile_stale_creates}
use vk_cocoon.Provider.Wake.{start_probe_if_enabled}
use vk_cocoon.Provider.Resume.{ResumeOp, owed_work}
use vk_cocoon.Provider.Create.{resume_section, start_task}
use vk_cocoon.Provider.Macos.Create.{reconcile_macos_pod}
use vk_cocoon.Provider.World.{
  Env, Io, list_node_pods, list_vms, ◌>>=◌, ◌>>◌, pure, locked, reads, section, call,
}

-- What the loop over the pods makes of one of them.
pub data PodMatch : Type 0 where
  macos_guest unmatched : PodMatch
  matched : String → PodMatch  -- the id of its VM

-- `vmByID`: of two VMs with one id, the last.
unfoldable pub vms_by_id : List Vm → Table Vm → Table Vm
vms_by_id [] rows = rows
vms_by_id (v ∷ rest) rows = vms_by_id rest (insert v.id v rows)

abbrev name_vm : Vm → Table Vm → Table Vm
name_vm v rows = if is_empty v.name then rows else insert v.name v rows

unfoldable pub vms_by_name : List Vm → Table Vm → Table Vm
vms_by_name [] rows = rows
vms_by_name (v ∷ rest) rows = vms_by_name rest (name_vm v rows)

abbrev pub match_ids : PodMatch → List String → List String
match_ids (matched id) ids = id ∷ ids
match_ids macos_guest ids = ids
match_ids unmatched ids = ids

abbrev pub matched_ids : List (Pod × PodMatch) → List String
matched_ids [] = []
matched_ids ((pod, r) ∷ rest) = match_ids r (matched_ids rest)

unfoldable pub is_matched : String → List String → Bool
is_matched id [] = false
is_matched id (other ∷ rest) = if other == id then true else is_matched id rest

pub data StartupError : Type 0 where
  unlisted : String → StartupError
  incompatible : Compatibility → StartupError

abbrev pub named_vm : String → String → String → Tables → Tables × Vm
named_vm id name ip t = (
  record t { next_object = suc t.next_object },
  record {
    object = t.next_object;
    id = id;
    name = name;
    hypervisor = "";
    state = state_running;
    ip = ip;
    mac = "";
    pid = 0;
    disk_path = "";
    network_configs = [];
  },
)

module _ (m : Meta) (settings : Settings) (env : Env) where
  abbrev pub track_section : Pod → Option Vm → Tables → Tables × Pod
  track_section pod v t = track_pod m pod v t

  -- `trackPod`, with the seed of the pod's lifecycle that follows it everywhere.
  unfoldable pub track_seeded : Pod → Option Vm → Io Pod
  track_seeded pod v = do
    pod' ← section (track_section pod v)
    locked (seed_lifecycle_intent m pod')
    pure pod'

  abbrev pub after_adoption : Pod × Bool → Vm → Io (Option Vm)
  after_adoption (pod, false) v = pure none
  after_adoption (pod, true) v = do locked (seed_lifecycle_intent m pod); pure (some v)

  abbrev pub adopt_found : Option Vm → Pod → Io (Option Vm)
  adopt_found none pod = pure none
  adopt_found (some v) pod = do r ← apply_runtime m settings env pod v; after_adoption r v

  -- `adoptByVMName`.
  unfoldable pub adopt_by_vm_name : Pod → Table Vm → Io (Option Vm)
  adopt_by_vm_name pod by_name =
      let name = (m.parse_vm_spec pod).vm_name in
      if is_empty name then pure none else adopt_found (lookup name by_name) pod

  -- `reconcileNoVMID`.
  unfoldable pub reconcile_no_vmid : Pod → Io (Unit {0})
  reconcile_no_vmid pod = elim (m.read_hibernate_state pod) [
    | false ↦ pure tt
    | true ↦ do _ ← track_seeded pod none; pure tt
  ]

  -- `reconcileStaleHibernate`: a failed patch is logged only.
  unfoldable pub reconcile_stale_hibernate : Pod → Io (Unit {0})
  reconcile_stale_hibernate pod = do
    r ← clear_runtime_annotations m settings env pod
    _ ← track_seeded r.0 none
    pure tt

  abbrev pub bind_unmanaged : Pod → String → VmSpec → Io PodMatch
  bind_unmanaged pod id spec = do
    v ← section (named_vm id spec.vm_name (m.runtime_ip pod))
    _ ← track_seeded pod (some v)
    pure (matched id)

  abbrev pub match_adopted : Option Vm → Pod → Io PodMatch
  match_adopted (some v) pod = pure (matched v.id)
  match_adopted none pod = do reconcile_no_vmid pod; pure unmatched

  abbrev pub match_missing : Bool → Pod → Io PodMatch
  match_missing true pod = do reconcile_stale_hibernate pod; pure unmatched
  match_missing false pod = pure unmatched

  abbrev pub match_found : Option Vm → Pod → Io PodMatch
  match_found none pod = match_missing (m.read_hibernate_state pod) pod
  match_found (some v) pod = do
    pod' ← track_seeded pod (some v)
    lift_cleared_hibernate_failure m settings env pod'
    pure (matched v.id)

  -- One round of the loop over the pods.
  unfoldable pub match_pod : Table Vm → Table Vm → Pod → Io PodMatch
  match_pod by_id by_name pod =
      let spec = m.parse_vm_spec pod in
      let id = m.runtime_vm_id pod in
      elim (is_macos_spec m spec) [
        | true ↦ pure macos_guest
        | false ↦ elim (not spec.managed && not (is_empty id)) [
          | true ↦ bind_unmanaged pod id spec
          | false ↦ elim (is_empty id) [
            | true ↦ do v ← adopt_by_vm_name pod by_name; match_adopted v pod
            | false ↦ match_found (lookup id by_id) pod
          ]
        ]
      ]

  unfoldable pub match_pods : Table Vm → Table Vm → List Pod → Io (List (Pod × PodMatch))
  match_pods by_id by_name [] = pure []
  match_pods by_id by_name (pod ∷ rest) = do
    r ← match_pod by_id by_name pod
    rs ← match_pods by_id by_name rest
    pure ((pod, r) ∷ rs)

  abbrev pub start_matched : Pod → PodMatch → Io (Unit {0})
  start_matched pod (matched id) = start_probe_if_enabled m settings env pod
  start_matched pod macos_guest = reconcile_macos_pod m settings env pod (m.parse_vm_spec pod)
  start_matched pod unmatched = pure tt

  -- The two fan-outs.
  unfoldable pub start_all : List (Pod × PodMatch) → Io (Unit {0})
  start_all [] = pure tt
  start_all ((pod, r) ∷ rest) = do start_matched pod r; start_all rest

  abbrev pub orphan_unless : Bool → Vm → Io (Unit {0})
  orphan_unless true v = pure tt
  orphan_unless false v = handle_orphan m settings env v

  unfoldable pub handle_orphans : List Vm → List String → Io (Unit {0})
  handle_orphans [] ids = pure tt
  handle_orphans (v ∷ rest) ids = do orphan_unless (is_matched v.id ids) v; handle_orphans rest ids

  abbrev pub resume_tracked : Option Pod → String → ResumeOp → Io (Unit {0})
  resume_tracked none key op = pure tt
  resume_tracked (some pod) key op = do
    task ← section (resume_section m key pod op)
    start_task m settings env task pod

  unfoldable pub dispatch_all : Table Pod → List (String × ResumeOp) → Io (Unit {0})
  dispatch_all pods [] = pure tt
  dispatch_all pods ((key, op) ∷ rest) = do
    resume_tracked (lookup key pods) key op
    dispatch_all pods rest

  abbrev pub work_of : Tables → Table Pod × List (String × ResumeOp)
  work_of t = (t.pods, owed_work m t.pods t.vms_by_pod)

  -- `dispatchOwedWork`: the work is collected in one section.
  unfoldable pub dispatch_owed_work : Io (Unit {0})
  dispatch_owed_work = do work ← reads work_of; dispatch_all work.0 work.1

  -- What the startup does with the pods of the node and the VMs that are past their create.
  unfoldable pub reconcile_pods : List Pod → List Vm → Io (Unit {0})
  reconcile_pods pods vms = do
    matches ← match_pods (vms_by_id vms []) (vms_by_name vms []) pods
    start_all matches
    handle_orphans vms (matched_ids matches)
    dispatch_owed_work

  -- The first pod of a class that this node does not serve.
  unfoldable pub first_incompatible : List Pod → Compatibility
  first_incompatible [] = compatible
  first_incompatible (pod ∷ rest) = elim (assert_pod_snapshot_compatibility m settings pod) [
    | compatible ↦ first_incompatible rest
    | Compatibility.unclassified ↦ Compatibility.unclassified
    | Compatibility.differs ↦ Compatibility.differs
  ]

  abbrev reconcile_lists : List Pod → List Vm → Io (Option StartupError)
  reconcile_lists pods vms = elim (first_incompatible pods) [
    | Compatibility.unclassified ↦ pure (some (incompatible Compatibility.unclassified))
    | Compatibility.differs ↦ pure (some (incompatible Compatibility.differs))
    | compatible ↦ do
      kept ← reconcile_stale_creates m settings env vms
      reconcile_pods pods kept
      pure none
  ]

  abbrev both_lists : Reply (List Pod) → Reply (List Vm) → Io (Option StartupError)
  both_lists (ok pods) (ok vms) = reconcile_lists pods vms
  both_lists (ok pods) not_found = pure (some (unlisted "list local VMs"))
  both_lists (ok pods) (err e) = pure (some (unlisted e))
  both_lists not_found vms = pure (some (unlisted "list pods"))
  both_lists (err e) vms = pure (some (unlisted e))

  -- `StartupReconcile`; `none` is success.
  unfoldable pub startup_reconcile : Io (Option StartupError)
  startup_reconcile = do
    pods ← call env env.node_pods list_node_pods
    vms ← call env env.local_vms list_vms
    both_lists pods vms
