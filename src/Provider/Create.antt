-- ===== src/Provider/Create.antt =====
-- provider/cocoon/create.go: `CreatePod` of a cloud guest, from the claim of the pod's key on.
pub mod Guard
pub mod Boot
use vk_cocoon.Base.{
  ℕ, Bool, true, false, not, ◌&&◌, ◌||◌, Option, none, some, String, is_empty, is_some,
  if◌then◌else◌,
}
use vk_cocoon.Base.Table.{lookup, insert, delete}
use vk_cocoon.Kube.{Pod, Phase, VmSpec, Meta, LifecycleState}
use vk_cocoon.Vm.{Vm, Reply, ok, not_found, err}
use vk_cocoon.Spec.{is_macos_spec, is_cloned_boot, annotation_post_clone_state}
use vk_cocoon.Provider.State.{Tables, Settings, key_of}
use vk_cocoon.Provider.Track.{track_pod_unless_deleting, is_superseded}
use vk_cocoon.Provider.Lifecycle.{lifecycle_already_failed}
use vk_cocoon.Provider.Flush.{mark_lifecycle_state}
use vk_cocoon.Provider.Runtime.{apply_runtime, fail_op, refresh_and_notify, store_pod}
use vk_cocoon.Provider.Ready.{mark_ready_published}
use vk_cocoon.Provider.Resume.{ResumeOp, ResumeTask, owed_op_for, dispatch_resume}
use vk_cocoon.Provider.Evidence.{
  Compatibility, compatible, assert_pod_snapshot_compatibility, Adoption, adopt, afresh,
  inconclusive, adoptable_vm, Derived, derive_restore_from_evidence,
}
use vk_cocoon.Provider.Wake.{start_probe_if_enabled, dispatch_hibernate_restore}
use vk_cocoon.Provider.PostClone.Markers.{set_pod_annotation}
use vk_cocoon.Provider.BringUp.{bring_up_vm}
use vk_cocoon.Provider.World.{
  Env, Io, macos_inspect, lookup_lease, background, await_create, ◌>>=◌, ◌>>◌, pure, locked, reads,
  section, call, tell,
}

-- The errors of a create; the texts of the conflicts are shortened.
pub data CreateError : Type 0 where
  unnamed in_flight : CreateError
  incompatible : Compatibility → CreateError
  conflicting : Derived → CreateError
  failed : String → CreateError

abbrev Created : Type 0
Created = Option CreateError

-- `resumeOwedWork` through `dispatchResume`: whether a goroutine is started.
abbrev pub resume_section : Meta → String → Pod → ResumeOp → Tables → Tables × Option ResumeTask
resume_section m key pod op t = dispatch_resume m key pod op t

abbrev leftover : Bool → Bool → String → String → Tables → Tables
leftover true macos key uid t = record t {
  macos_vnc = delete key t.macos_vnc;
  macos_leftover = delete key t.macos_leftover;
}
leftover false true key uid t = record t { macos_leftover = insert key uid t.macos_leftover }
leftover false false key uid t = t

-- The section of `failCreate`: the claim is dropped while the incarnation still owns the key.
unfoldable pub drop_claim : Bool → Bool → String → String → Tables → Tables
drop_claim absent macos key uid t =
    if is_superseded key uid t
    then t
    else leftover absent macos key uid (record t { pods = delete key t.pods })

unfoldable pub running_pod : Pod → Pod
running_pod pod = record pod {
  status = record pod.status { phase = Phase.running; started = true };
}

abbrev is_restore : Derived → Bool
is_restore Derived.restore = true
is_restore _ = false

module _ (m : Meta) (settings : Settings) (env : Env) where
  abbrev macos_absent_if : Bool → VmSpec → Io Bool
  macos_absent_if false spec = pure false
  macos_absent_if true spec = call env env.macos_missing (macos_inspect spec.vm_name)

  -- `failCreate`, with `macosVMAbsent`.
  unfoldable pub fail_create : Pod → CreateError → String → Io Created
  fail_create pod e message = do
    pod' ← fail_op m settings env pod message
    let spec = m.parse_vm_spec pod'
    absent ← macos_absent_if (is_macos_spec m spec) spec
    locked (drop_claim absent (is_macos_spec m spec) (key_of m pod') pod'.uid)
    pure (some e)

  -- `seedLeaseIP`: the lease of a VM with no address yet.
  unfoldable pub seed_lease_ip : Vm → Io Vm
  seed_lease_ip v = elim (not (is_empty v.ip) || is_empty v.mac || not settings.has_lease_parser) [
    | true ↦ pure v
    | false ↦ do
      lease ← call env env.lease_ip (lookup_lease v.mac)
      elim lease [ ok ip ↦ pure (record v { ip = ip }) | not_found ↦ pure v | err e ↦ pure v ]
  ]

  -- `markPodRunning`.
  unfoldable pub mark_pod_running : Pod → Io Pod
  mark_pod_running pod = do
    locked (store_pod (key_of m pod) (running_pod pod))
    pure (running_pod pod)

  abbrev pub start_task : Option ResumeTask → Pod → Io (Unit {0})
  start_task none pod = pure tt
  start_task (some task) pod = tell env (background (key_of m pod))

  abbrev pub resume_or_ready : Option ResumeOp → Pod → Io (Unit {0})
  resume_or_ready (some op) pod = do
    task ← section (resume_section m (key_of m pod) pod op)
    start_task task pod
  resume_or_ready none pod = mark_ready_published m settings env pod

  abbrev pub after_adopt : Pod × Bool → Vm → Io Created
  after_adopt (pod, false) v = pure none
  after_adopt (pod, true) v = do
    start_probe_if_enabled m settings env pod
    resume_or_ready (owed_op_for m pod (some v)) pod
    pure none

  -- The path of `CreatePod` that binds a VM which exists already.
  unfoldable pub adopt_existing : Pod → Vm → Io Created
  adopt_existing pod v = do r ← apply_runtime m settings env pod v; after_adopt r v

  abbrev pub dispatch_setup : Bool → Bool → Pod → Io (Unit {0})
  dispatch_setup true cloned pod = dispatch_hibernate_restore m settings env pod
  dispatch_setup false true pod = tell env (background (key_of m pod))
  dispatch_setup false false pod = pure tt

  abbrev pub publish_created : Bool → Pod → Io Pod
  publish_created true pod = do mark_ready_published m settings env pod; pure pod
  publish_created false pod = refresh_and_notify m settings env pod

  abbrev pub await_ready : Bool → Pod → Io (Unit {0})
  await_ready false pod = pure tt
  await_ready true pod = do
    pod' ← set_pod_annotation m settings env pod annotation_post_clone_state "done"
    tell env (background (key_of m pod'))

  -- What follows the binding of a booted VM.
  unfoldable pub finish_create : Pod → VmSpec → Bool → Io Created
  finish_create pod spec restoring = do
    let cloned = is_cloned_boot m pod spec
    dispatch_setup restoring cloned pod
    start_probe_if_enabled m settings env pod
    pod1 ← mark_pod_running pod
    broken ← reads (lifecycle_already_failed m pod1)
    pod2 ← publish_created (not spec.managed && not restoring && not broken) pod1
    await_ready (spec.managed && not cloned && not restoring) pod2
    pure none

  abbrev pub finish_bound : Pod × Bool → VmSpec → Bool → Io Created
  finish_bound (pod, false) spec restoring = pure none
  finish_bound (pod, true) spec restoring = finish_create pod spec restoring

  abbrev pub bind_created : Reply (Vm × String) → Pod → VmSpec → Bool → Io Created
  bind_created (ok (v, image)) pod spec restoring = do
    v' ← seed_lease_ip v
    r ← apply_runtime m settings env pod v'
    finish_bound r spec restoring
  bind_created not_found pod spec restoring = fail_create pod (failed "not found") "not found"
  bind_created (err e) pod spec restoring = fail_create pod (failed e) e

  unfoldable pub boot_created : Pod → VmSpec → Bool → Io Created
  boot_created pod spec restoring = do
    v ← bring_up_vm m settings env pod spec
    bind_created v pod spec restoring

  abbrev pub on_derived : Derived → Pod → VmSpec → Bool → Io Created
  on_derived Derived.fresh pod spec restoring = boot_created pod spec restoring
  on_derived Derived.restore pod spec restoring = boot_created pod spec true
  on_derived Derived.source_conflict pod spec restoring =
      fail_create pod (conflicting Derived.source_conflict) "explicit clone source"
  on_derived Derived.image_conflict pod spec restoring =
      fail_create pod (conflicting Derived.image_conflict) "another image"
  on_derived (Derived.no_evidence e) pod spec restoring =
      fail_create pod (conflicting (Derived.no_evidence e)) e

  -- A managed VM asks the evidence of a hibernate first.
  unfoldable pub create_afresh : Pod → VmSpec → Io Created
  create_afresh pod spec = do
    let restoring = m.read_restore_from_hibernate pod
    elim spec.managed [
      | false ↦ boot_created pod spec restoring
      | true ↦ do
        r ← derive_restore_from_evidence m settings env pod spec restoring
        on_derived r.1 r.0 spec restoring
    ]

  abbrev pub on_adoption : Adoption → Pod → VmSpec → Io Created
  on_adoption (adopt v) pod spec = adopt_existing pod v
  on_adoption afresh pod spec = create_afresh pod spec
  on_adoption (inconclusive e) pod spec = fail_create pod (failed e) e

  abbrev pub await_busy : Option ℕ → String → Io (Unit {0})
  await_busy none name = pure tt
  await_busy (some settled) name = tell env (await_create name)

  -- `CreatePod` of a cloud guest, from the claim of the pod's key on.
  unfoldable pub create_cloud_pod : Pod → VmSpec → Io Created
  create_cloud_pod pod spec = do
    busy ← reads (λ t. lookup spec.vm_name t.busy_creates)
    await_busy busy spec.vm_name
    existing ← adoptable_vm m settings env spec.vm_name
    on_adoption existing pod spec
