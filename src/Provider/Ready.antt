-- ===== src/Provider/Ready.antt =====
-- provider/cocoon: publishing Ready (lifecycle.go, status.go) and lifting a failed hibernate (update.go).
use text.Mathlib.Text.{starts_with}
use vk_cocoon.Base.{Bool, true, false, ◌&&◌, Option, none, some, String, ◌==◌, if◌then◌else◌}
use vk_cocoon.Base.Table.{lookup}
use vk_cocoon.Kube.{Pod, Meta, LifecycleState, LifecycleStatus, is_failed}
use vk_cocoon.Vm.{Vm, Reply, ok, not_found, err, state_running, is_macos_vm}
use vk_cocoon.Provider.State.{Tables, Settings, LifecycleEntry, key_of}
use vk_cocoon.Provider.Lifecycle.{Write, apply_lifecycle}
use vk_cocoon.Provider.Retry.{retry_op_later}
use vk_cocoon.Provider.Hibernate.{hibernate_failure_prefix}
use vk_cocoon.Provider.World.{
  Env, Io, ApiReply, patch_status, vm_inspect, read_clock, ◌>>=◌, pure, locked, reads, section,
  call,
}
use vk_cocoon.Provider.Flush.{
  flush_lifecycle, patch_with_retry, lifecycle_patch_attempts, is_accepted,
}
use vk_cocoon.Provider.Runtime.{refresh_status, refresh_and_notify, notify_pod}

abbrev failed_vm : String → Option LifecycleEntry → Option Vm → Option Vm
failed_vm uid none v = none
failed_vm uid (some cur) v =
    if cur.uid == uid
      && is_failed cur.status.state
      && starts_with cur.status.message hibernate_failure_prefix
    then v
    else none

-- `hibernateFailedVMLocked`: the VM of a pod whose last hibernate failed.
unfoldable pub hibernate_failed_vm : String → String → Tables → Option Vm
hibernate_failed_vm key uid t =
    failed_vm uid (lookup key t.lifecycle_intent) (lookup key t.vms_by_pod)

-- How a lift ended: the VM is live and the failure is gone, nothing was lifted, or an error.
pub data LiftEnd : Type 0 where
  lifted untouched : LiftEnd
  unknown : String → LiftEnd

module _ (m : Meta) where
  abbrev pub write_state : Pod → LifecycleState → Tables → Tables × Write
  write_state pod state t = let w = apply_lifecycle m pod state "" t in (w.tables, w)

  abbrev pub write_if_failed : Pod → Tables → Tables × Option Write
  write_if_failed pod t = elim (hibernate_failed_vm (key_of m pod) pod.uid t) [
    | none ↦ (t, none)
    | some v ↦ let w = apply_lifecycle m pod LifecycleState.creating "" t in (w.tables, some w)
  ]

module _ (m : Meta) (settings : Settings) (env : Env) where
  abbrev pub send_status : String → Io ApiReply
  send_status key = call env env.api (patch_status key)

  -- `publishPodStatus`: whether it ended without an error.
  unfoldable pub publish_pod_status : Pod → Io Bool
  publish_pod_status pod = elim settings.has_clientset [
    | false ↦ pure true
    | true ↦ do
      r ← patch_with_retry m settings env lifecycle_patch_attempts (send_status (key_of m pod))
      pure (is_accepted r)
  ]

  -- `publishReadyLifecycle`: the status reaches the apiserver before the annotation does.
  unfoldable pub publish_ready_lifecycle : Pod → LifecycleStatus → Io (Unit {0})
  publish_ready_lifecycle pod status = do
    pod' ← refresh_status m settings env pod
    published ← publish_pod_status pod'
    elim published [
      | false ↦ pure tt
      | true ↦ do
        _ ← flush_lifecycle m settings env (key_of m pod') pod'.uid status
        notify_pod m settings env pod'
    ]

  unfoldable pub mark_ready_published : Pod → Io (Unit {0})
  mark_ready_published pod = do
    w ← section (write_state m pod LifecycleState.ready)
    elim w.applied [
      | true ↦ publish_ready_lifecycle w.pod w.status
      | false ↦ do _ ← refresh_and_notify m settings env w.pod; pure tt
    ]

  abbrev pub flush_write : Option Write → Pod → Io (Pod × LiftEnd)
  flush_write none pod = pure (pod, untouched)
  flush_write (some w) pod = elim w.applied [
    | false ↦ pure (w.pod, lifted)
    | true ↦ do
      _ ← flush_lifecycle m settings env (key_of m pod) pod.uid w.status
      pure (w.pod, lifted)
  ]

  abbrev pub is_live : Vm → Io (Reply Bool)
  is_live v = if is_macos_vm (some v) then pure (ok true) else do
    live ← call env env.vm (vm_inspect v.id)
    elim live [
      | ok w ↦ pure (ok (w.state == state_running))
      | not_found ↦ pure (ok false)
      | err e ↦ pure (err e)
    ]

  abbrev pub lift_live : Pod → Reply Bool → Io (Pod × LiftEnd)
  lift_live pod (err e) = pure (pod, unknown e)
  lift_live pod not_found = pure (pod, untouched)
  lift_live pod (ok false) = pure (pod, untouched)
  lift_live pod (ok true) = do w ← section (write_if_failed m pod); flush_write w pod

  abbrev pub lift_if_failed : Pod → Option Vm → Io (Pod × LiftEnd)
  lift_if_failed pod none = pure (pod, untouched)
  lift_if_failed pod (some v) = do live ← is_live v; lift_live pod live

  -- `liftHibernateFailure`.
  unfoldable pub lift_hibernate_failure : Pod → Io (Pod × LiftEnd)
  lift_hibernate_failure pod = do
    v ← reads (hibernate_failed_vm (key_of m pod) pod.uid)
    lift_if_failed pod v

  abbrev pub after_lift : Pod × LiftEnd → Io (Unit {0})
  after_lift (pod, untouched) = pure tt
  after_lift (pod, lifted) = mark_ready_published pod
  after_lift (pod, unknown e) = do
    now ← call env env.clock read_clock
    locked (retry_op_later m pod 0 now)

  unfoldable pub lift_cleared_hibernate_failure : Pod → Io (Unit {0})
  lift_cleared_hibernate_failure pod =
      if m.read_hibernate_state pod
      then pure tt
      else do r ← lift_hibernate_failure pod; after_lift r
