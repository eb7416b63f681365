-- ===== src/Provider/Quiet/Status.antt =====
-- The statuses, the publication of Ready and the lift of a failed hibernate under a view that does not
-- see reports.
use vk_cocoon.Base.{◌≡◌, refl, ◌∙◌, arith, Bool, true, false, Option, none, some, String, List, ◌∷◌}
use vk_cocoon.Base.Table.{lookup}
use vk_cocoon.Kube.{Pod, Meta, LifecycleState, LifecycleStatus}
use vk_cocoon.Vm.{Vm, Reply, ok, not_found, err}
use vk_cocoon.Provider.State.{Settings, key_of}
use vk_cocoon.Provider.Lifecycle.{apply_lifecycle, Write}
use vk_cocoon.Provider.World.{
  Env, World, Effect, call, patch_status, vm_inspect, lookup_lease, read_probe, read_clock, notify,
}
use vk_cocoon.Provider.Flush.{flush_lifecycle, lifecycle_patch_attempts}
use vk_cocoon.Provider.Runtime.{
  get_pod_status, status_if_tracked, status_of, resolve_vm_ip, refresh_status, refresh_and_notify,
  notify_pod,
}
use vk_cocoon.Provider.Ready.{
  publish_pod_status, publish_ready_lifecycle, mark_ready_published, lift_hibernate_failure,
  lift_cleared_hibernate_failure, send_status, write_if_failed, flush_write, is_live, lift_live,
  lift_if_failed, after_lift, LiftEnd, hibernate_failed_vm,
}
use vk_cocoon.Provider.Quiet.{
  IgnoresReports, is_report, call-quiet, patch_with_retry-quiet, flush-quiet,
}

module _ {A : Type 0} (f : List Effect → A) (quiet : IgnoresReports f) (m : Meta)
    (settings : Settings) (env : Env) where
  pub notify-quiet : (pod : Pod) (w : World) → f (notify_pod m settings env pod w).1.log ≡ f w.log
  unfolding notify_pod
  notify-quiet pod w =
      call-quiet f quiet m settings env (λ _. tt) (notify _) w (unfold is_report in refl)

  resolve_vm_ip-quiet :
      (key : String) (v : Vm) (w : World) → f (resolve_vm_ip m settings env key v w).1.log ≡ f w.log
  unfolding resolve_vm_ip
  resolve_vm_ip-quiet key v w = ground (
    arith,
    call-quiet f quiet m settings env env.lease_ip (lookup_lease v.mac) w
        (unfold is_report in refl),
  )

  status_of-quiet :
      (key : String) (pod : Pod) (v : Option Vm) (w : World)
      → f (status_of m settings env key pod v w).1.log ≡ f w.log
  status_of-quiet key pod none w = refl
  status_of-quiet key pod (some v) w =
      let w' = (resolve_vm_ip m settings env key v w).1 in
      ground (
        arith,
        resolve_vm_ip-quiet key v w,
        call-quiet f quiet m settings env env.probe (read_probe key) w' (unfold is_report in refl),
      )

  status_if_tracked-quiet :
      (key : String) (tracked : Option Pod) (w : World)
      → f (status_if_tracked m settings env key tracked w).1.log ≡ f w.log
  status_if_tracked-quiet key none w = refl
  status_if_tracked-quiet key (some pod) w =
      status_of-quiet key pod (lookup key w.tables.vms_by_pod) w

  pub refresh_status-quiet :
      (pod : Pod) (w : World) → f (refresh_status m settings env pod w).1.log ≡ f w.log
  unfolding refresh_status get_pod_status
  refresh_status-quiet pod w =
      status_if_tracked-quiet (key_of m pod) (lookup (key_of m pod) w.tables.pods) w

  pub refresh_and_notify-quiet :
      (pod : Pod) (w : World) → f (refresh_and_notify m settings env pod w).1.log ≡ f w.log
  unfolding refresh_and_notify
  refresh_and_notify-quiet pod w =
      let (pod', w') = refresh_status m settings env pod w in
      notify-quiet pod' w' ∙ refresh_status-quiet pod w

  publish_pod_status-quiet :
      (pod : Pod) (w : World) → f (publish_pod_status m settings env pod w).1.log ≡ f w.log
  unfolding publish_pod_status
  publish_pod_status-quiet pod w = ground (
    arith,
    patch_with_retry-quiet f quiet m settings env lifecycle_patch_attempts
        (send_status m settings env (key_of m pod)) w
        (λ u.
          call-quiet f quiet m settings env env.api (patch_status (key_of m pod)) u
            (unfold is_report in refl)),
  )

  pub publish_ready-quiet :
      (pod : Pod) (status : LifecycleStatus) (w : World)
      → f (publish_ready_lifecycle m settings env pod status w).1.log ≡ f w.log
  unfolding publish_ready_lifecycle
  publish_ready-quiet pod status w =
      let (pod', w1) = refresh_status m settings env pod w in
      let w2 = (publish_pod_status m settings env pod' w1).1 in
      let w3 = (flush_lifecycle m settings env (key_of m pod') pod'.uid status w2).1 in
      ground (
        arith,
        refresh_status-quiet pod w,
        publish_pod_status-quiet pod' w1,
        flush-quiet f quiet m settings env (key_of m pod') pod'.uid status w2,
        notify-quiet pod' w3,
      )

  pub mark_ready-quiet :
      (pod : Pod) (w : World) → f (mark_ready_published m settings env pod w).1.log ≡ f w.log
  unfolding mark_ready_published
  mark_ready-quiet pod w =
      let r = apply_lifecycle m pod LifecycleState.ready "" w.tables in
      let w1 : World = record w { tables = r.tables } in
      ground (arith, publish_ready-quiet r.pod r.status w1, refresh_and_notify-quiet r.pod w1)

-- A lift inspects its VM as well.
module _ {A : Type 0} (f : List Effect → A) (quiet : IgnoresReports f)
    (inspects : (id : String) (log : List Effect) → f (vm_inspect id ∷ log) ≡ f log) (m : Meta)
    (settings : Settings) (env : Env) where
  flush_write-quiet :
      (r : Option Write) (pod : Pod) (w : World)
      → f (flush_write m settings env r pod w).1.log ≡ f w.log
  flush_write-quiet none pod w = refl
  flush_write-quiet (some r) pod w =
      ground (arith, flush-quiet f quiet m settings env (key_of m pod) pod.uid r.status w)

  is_live-quiet : (v : Vm) (w : World) → f (is_live m settings env v w).1.log ≡ f w.log
  unfolding call
  is_live-quiet v w = ground (arith, inspects v.id w.log)

  lift_live-quiet :
      (pod : Pod) (live : Reply Bool) (w : World)
      → f (lift_live m settings env pod live w).1.log ≡ f w.log
  lift_live-quiet pod (err e) w = refl
  lift_live-quiet pod not_found w = refl
  lift_live-quiet pod (ok false) w = refl
  lift_live-quiet pod (ok true) w =
      let r = write_if_failed m pod w.tables in
      flush_write-quiet r.1 pod (record w { tables = r.0 })

  lift_if_failed-quiet :
      (pod : Pod) (v : Option Vm) (w : World)
      → f (lift_if_failed m settings env pod v w).1.log ≡ f w.log
  lift_if_failed-quiet pod none w = refl
  lift_if_failed-quiet pod (some v) w =
      let (live, w') = is_live m settings env v w in lift_live-quiet pod live w' ∙ is_live-quiet v w

  pub lift-quiet :
      (pod : Pod) (w : World) → f (lift_hibernate_failure m settings env pod w).1.log ≡ f w.log
  unfolding lift_hibernate_failure
  lift-quiet pod w =
      lift_if_failed-quiet pod (hibernate_failed_vm (key_of m pod) pod.uid w.tables) w

  after_lift-quiet :
      (pod : Pod) (end : LiftEnd) (w : World)
      → f (after_lift m settings env (pod, end) w).1.log ≡ f w.log
  after_lift-quiet pod LiftEnd.untouched w = refl
  after_lift-quiet pod LiftEnd.lifted w = mark_ready-quiet f quiet m settings env pod w
  after_lift-quiet pod (LiftEnd.unknown e) w =
      call-quiet f quiet m settings env env.clock read_clock w (unfold is_report in refl)

  pub lift_cleared-quiet :
      (pod : Pod) (w : World)
      → f (lift_cleared_hibernate_failure m settings env pod w).1.log ≡ f w.log
  unfolding lift_cleared_hibernate_failure
  lift_cleared-quiet pod w =
      let (r, w') = lift_hibernate_failure m settings env pod w in
      ground (arith, lift-quiet pod w, after_lift-quiet r.0 r.1 w')
