-- ===== src/Provider/Update.antt =====
-- provider/cocoon/update.go, with snapshot.go's answer to a snapshot request: `UpdatePod` under the
-- pod's lock.
pub mod Acts
pub mod Calm
pub mod Effects
use Prim.Native.String.{◌++◌ as append_text}
use vk_cocoon.Base.{
  ℕ, Bool, true, false, not, ◌&&◌, ◌||◌, Option, none, some, String, ◌==◌, is_empty, is_some,
  is_none, nat_eq, if◌then◌else◌,
}
use vk_cocoon.Base.Table.{lookup, Table}
use vk_cocoon.Kube.{Pod, VmSpec, Meta}
use vk_cocoon.Vm.{Vm, Reply, ok, not_found, err}
use vk_cocoon.Spec.{is_macos_spec, lifecycle_creating, pending_snapshot_ref}
use vk_cocoon.Provider.State.{Tables, Settings, key_of}
use vk_cocoon.Provider.Track.{track_pod_unless_deleting, detach_incarnation}
use vk_cocoon.Provider.Lifecycle.{Write, republish_on_generation_bump}
use vk_cocoon.Provider.Flush.{
  flush_lifecycle, patch_incarnation_annotations, patch_with_retry, lifecycle_patch_attempts,
  is_accepted, patch_superseded,
}
use vk_cocoon.Provider.Runtime.{refresh_and_notify, truncate, lifecycle_message_max_bytes}
use vk_cocoon.Provider.Retry.{take_op_retry, retry_op_later}
use vk_cocoon.Provider.Resume.{is_resuming}
use vk_cocoon.Provider.Hibernate.{hibernate, fail_hibernate}
use vk_cocoon.Provider.Ready.{
  LiftEnd, lifted, untouched, unknown, lift_hibernate_failure, mark_ready_published,
}
use vk_cocoon.Provider.Delete.{save_and_push}
use vk_cocoon.Provider.Evidence.{Compatibility, compatible, assert_pod_snapshot_compatibility}
use vk_cocoon.Provider.Source.{has_wake_source}
use vk_cocoon.Provider.Wake.{WakeEnd, woken, superseded, not_woken, wake}
use vk_cocoon.Provider.Create.{CreateError}
use vk_cocoon.Provider.Dispatch.{create_pod}
use vk_cocoon.Provider.Endpoint.{publish_macos_readiness}
use vk_cocoon.Provider.World.{
  Env, Io, ApiReply, snapshot_remove, read_clock, ◌>>=◌, ◌>>◌, pure, locked, reads, section, call,
  tell,
}

-- The errors that `UpdatePod` returns; those of the update itself are retried later.
pub data UpdateError : Type 0 where
  incompatible : Compatibility → UpdateError
  resuming in_flight : UpdateError
  no_source : String → UpdateError
  not_created : CreateError → UpdateError

module _ (m : Meta) (settings : Settings) (env : Env) where
  abbrev answered : ApiReply → Option String
  answered r = if is_accepted r || patch_superseded r then none else some "patch snapshot status"

  abbrev pub outcome_annotations : String → Option String → Table (Option String)
  outcome_annotations ref none = m.snapshot_annotations ref true ""
  outcome_annotations ref (some e) =
      m.snapshot_annotations ref false (truncate e lifecycle_message_max_bytes)

  -- `answerSnapshot`: the outcome is written to the pod; the result is the error of that write.
  unfoldable pub answer_snapshot : Pod → String → Option String → Io (Option String)
  answer_snapshot pod ref e = do
    r ← patch_with_retry m settings env lifecycle_patch_attempts (
        patch_incarnation_annotations m settings env (key_of m pod) pod.uid
          (outcome_annotations ref e))
    pure (answered r)

  -- `snapshot`: the local copy is dropped however the push ended.
  unfoldable pub snapshot : Pod → VmSpec → Vm → String → Io (Option String)
  snapshot pod spec v ref = elim (lifecycle_creating m pod) [
    | true ↦ pure (some "snapshot request waits for the vm to be ready")
    | false ↦ do
      let (repo, tag) = m.parse_ref ref
      e ← save_and_push m settings env pod v.id (append_text "snap-" v.name) repo tag spec.image
      tell env (snapshot_remove (append_text "snap-" v.name))
      answer_snapshot pod ref e
  ]

  abbrev pub flush_if_applied : Write → Pod → Io (Unit {0})
  flush_if_applied w pod = elim w.applied [
    | false ↦ pure tt
    | true ↦ do _ ← flush_lifecycle m settings env (key_of m pod) pod.uid w.status; pure tt
  ]

  abbrev republish_section : Pod → Tables → Tables × Write
  republish_section pod t = let w = republish_on_generation_bump m pod t in (w.tables, w)

  -- `noopUpdate`.
  unfoldable pub noop_update : Pod → Io (Option String)
  noop_update pod = do w ← section (republish_section pod); flush_if_applied w pod; pure none

  abbrev same_or : Pod → Option Pod → Pod
  same_or pod none = pod
  same_or pod (some tracked) = if nat_eq tracked.object pod.object then tracked else pod

  -- The caller's pod is the tracked object: its present value.
  abbrev present : Pod → Io Pod
  present pod = reads (λ t. same_or pod (lookup (key_of m pod) t.pods))

  abbrev pub refreshed : Pod → Io (Option String)
  refreshed pod = do _ ← refresh_and_notify m settings env pod; pure none

  abbrev pub after_hibernate : Option String → Pod → Io (Option String)
  after_hibernate (some e) pod = pure (some e)
  after_hibernate none pod = do pod' ← present pod; refreshed pod'

  abbrev pub after_wake : Pod × WakeEnd → Io (Option String)
  after_wake (pod, woken) = refreshed pod
  after_wake (pod, superseded) = pure none
  after_wake (pod, not_woken e) = pure (some e)

  abbrev pub after_lift : Pod × LiftEnd → Io (Option String)
  after_lift (pod, unknown e) = pure (some e)
  after_lift (pod, untouched) = noop_update pod
  after_lift (pod, lifted) = do mark_ready_published m settings env pod; pure none

  -- What an update of a managed cloud guest does, by the hibernate request and the bound VM.
  abbrev pub act : Bool → Option Vm → Pod → VmSpec → Io (Option String)
  act true (some v) pod spec = do e ← hibernate m settings env pod spec v; after_hibernate e pod
  act false none pod spec = do r ← wake m settings env pod spec; after_wake r
  act true none pod spec = noop_update pod
  act false (some v) pod spec = do r ← lift_hibernate_failure m settings env pod; after_lift r

  abbrev pub snapshot_if : Bool → Option Vm → Pod → VmSpec → String → Io (Option String)
  snapshot_if true (some v) pod spec ref = snapshot pod spec v ref
  snapshot_if _ _ pod spec ref = pure none

  abbrev pub then_act : Option String → Bool → Option Vm → Pod → VmSpec → Io (Option String)
  then_act (some e) want v pod spec = pure (some e)
  then_act none want v pod spec = act want v pod spec

  -- `applyUpdate` of a guest that is not macOS; the result is its error.
  unfoldable pub apply_cloud_update : Pod → VmSpec → Option Vm → Bool → String → Io (Option String)
  apply_cloud_update pod spec v want ref = elim spec.managed [
    | false ↦ noop_update pod
    | true ↦ do
      e ← snapshot_if (not (is_empty ref) && not want && settings.has_pusher) v pod spec ref
      then_act e want v pod spec
  ]

module _ (m : Meta) (settings : Settings) (env : Env) where
  abbrev macos_lift : Pod × LiftEnd → Io (Option String)
  macos_lift (pod, unknown e) = pure (some e)
  macos_lift (pod, untouched) = noop_update m settings env pod
  macos_lift (pod, lifted) = do publish_macos_readiness m settings env (key_of m pod); pure none

  abbrev macos_act : Bool → Pod → VmSpec → Io (Option String)
  macos_act true pod spec = do
    _ ←
        fail_hibernate m settings env pod
          (append_text "macOS guest " (append_text spec.vm_name " does not support hibernate"))
    pure none
  macos_act false pod spec = do r ← lift_hibernate_failure m settings env pod; macos_lift r

  abbrev answer_if : Bool → Pod → VmSpec → String → Io (Option String)
  answer_if false pod spec ref = pure none
  answer_if true pod spec ref = answer_snapshot m settings env pod ref (
      some
        (append_text "macOS guest " (append_text spec.vm_name " does not support live snapshots")))

  abbrev then_macos_act : Option String → Bool → Pod → VmSpec → Io (Option String)
  then_macos_act (some e) want pod spec = pure (some e)
  then_macos_act none want pod spec = macos_act want pod spec

  -- The part of `applyUpdate` for macOS guests, which hibernate and snapshot requests are refused to.
  unfoldable pub apply_macos_update : Pod → VmSpec → Bool → String → Io (Option String)
  apply_macos_update pod spec want ref = do
    e ← answer_if (not (is_empty ref)) pod spec ref
    then_macos_act e want pod spec

  -- `applyUpdate`.
  unfoldable pub apply_update : Pod → VmSpec → Option Vm → Bool → String → Io (Option String)
  apply_update pod spec v want ref = elim (is_macos_spec m spec) [
    | true ↦ apply_macos_update pod spec want ref
    | false ↦ apply_cloud_update m settings env pod spec v want ref
  ]

  abbrev retry_if : Option String → Pod → ℕ → Io (Option UpdateError)
  retry_if none pod prev = pure none
  retry_if (some e) pod prev = do
    now ← call env env.clock read_clock
    locked (retry_op_later m pod prev now)
    pure none

  abbrev track_section : Pod → Tables → Tables × (Pod × Bool)
  track_section pod t = let r = track_pod_unless_deleting m pod none t in (r.0, (r.1, r.2))

  abbrev pub run_tracked : Pod × Bool → VmSpec → Option Vm → Bool → String → Io (Option UpdateError)
  run_tracked (pod, false) spec v want ref = pure (some in_flight)
  run_tracked (pod, true) spec v want ref = do
    prev ← section (take_op_retry (key_of m pod))
    e ← apply_update pod spec v want ref
    retry_if e pod prev

  abbrev run_update : Pod → VmSpec → Option Vm → Bool → String → Io (Option UpdateError)
  run_update pod spec v want ref = do r ← section (track_section pod); run_tracked r spec v want ref

  abbrev recreated : Option CreateError → Option UpdateError
  recreated none = none
  recreated (some e) = some (not_created e)

  abbrev recreate : Pod → Io (Option UpdateError)
  recreate pod = do e ← create_pod m settings env pod; pure (recreated e)

  abbrev recreate_detached : Bool → Pod → Io (Option UpdateError)
  recreate_detached false pod = pure (some in_flight)
  recreate_detached true pod = recreate pod

  abbrev update_sourced : Reply Bool → Pod → VmSpec → Bool → String → Io (Option UpdateError)
  update_sourced (err e) pod spec want ref = pure (some (no_source e))
  update_sourced not_found pod spec want ref = pure (some (no_source "not found"))
  update_sourced (ok false) pod spec want ref = recreate pod
  update_sourced (ok true) pod spec want ref = run_update pod spec none want ref

  -- An untracked pod is a recreate unless there is something to wake from; a pod of another
  -- incarnation is one too.
  abbrev update_of : Option Pod → Option Vm → Pod → VmSpec → Bool → String → Io (Option UpdateError)
  update_of none none pod spec false ref = do
    r ← has_wake_source m settings env spec
    update_sourced r pod spec false ref
  update_of none v pod spec want ref = run_update pod spec v want ref
  update_of (some tracked) v pod spec want ref = elim (tracked.uid == pod.uid) [
    | true ↦ run_update pod spec v want ref
    | false ↦ do
      detached ← section (detach_incarnation (key_of m pod) tracked.uid v)
      recreate_detached detached pod
  ]

  abbrev update_free : Bool → Pod → Io (Option UpdateError)
  update_free true pod = pure (some resuming)
  update_free false pod = do
    tracked ← reads (λ t. lookup (key_of m pod) t.pods)
    v ← reads (λ t. lookup (key_of m pod) t.vms_by_pod)
    update_of tracked v pod (m.parse_vm_spec pod) (m.read_hibernate_state pod)
        (pending_snapshot_ref m pod)

  abbrev update_compatible : Compatibility → Pod → Io (Option UpdateError)
  update_compatible compatible pod = do
    held ← reads (is_resuming (key_of m pod))
    update_free held pod
  update_compatible c pod = pure (some (incompatible c))

  -- `updatePod`; `none` is success.
  unfoldable pub update_pod : Pod → Io (Option UpdateError)
  update_pod pod = update_compatible (assert_pod_snapshot_compatibility m settings pod) pod
