-- ===== src/Provider/Quiet.antt =====
-- What the shared steps of the handlers leave out of a history. A view of histories that does not see
-- reports (patches, notifications, probes, leases, sleeps, the clock) is the same before and after
-- each of these steps.
pub mod Status
pub mod Bind
use vk_cocoon.Base.{
  ℕ, zero, suc, ◌≡◌, refl, ◌∙◌, arith, Bool, true, false, not, ◌&&◌, ◌||◌, Option, none, some,
  String, List, [], ◌∷◌, ◌==◌, is_some, is_empty, if◌then◌else◌,
}
use vk_cocoon.Base.Table.{lookup, Table}
use vk_cocoon.Kube.{Pod, Meta, LifecycleState, LifecycleStatus}
use vk_cocoon.Vm.{Vm, Reply, ok, not_found, err, is_macos_vm}
use vk_cocoon.Provider.State.{Settings, Tables, key_of}
use vk_cocoon.Provider.Track.{track_pod_incarnation, untrack}
use vk_cocoon.Provider.Lifecycle.{apply_lifecycle, Write}
use vk_cocoon.Provider.World.{
  Env, World, Effect, ApiReply, call, tell, pure, patch_annotations, patch_status, vm_inspect,
  lookup_lease, read_probe, read_clock, read_context, await_create, macos_inspect, sleep, notify,
  forget_probe, start_probe, release_lease, schedule_recheck, background,
}
use vk_cocoon.Provider.Flush.{
  patch_incarnation_annotations, patch_with_retry, flush_attempts, flush_lifecycle,
  lifecycle_patch_attempts, lifecycle_patch_interval, mark_lifecycle_state,
}
use vk_cocoon.Provider.Runtime.{
  get_pod_status, status_if_tracked, status_of, resolve_vm_ip, refresh_status, refresh_and_notify,
  notify_pod, store_pod, forget_pod, apply_vm_runtime, bind_runtime, apply_runtime,
  clear_runtime_annotations, fail_op, without_runtime, release_leases, release_dhcp_leases,
  dhcp_macs, runtime_annotations, no_runtime_annotations,
}
use vk_cocoon.Provider.Ready.{
  publish_pod_status, publish_ready_lifecycle, mark_ready_published, lift_hibernate_failure,
  lift_cleared_hibernate_failure, send_status, write_if_failed, flush_write, is_live, lift_live,
  lift_if_failed, after_lift, LiftEnd, hibernate_failed_vm,
}

-- An effect that tells or asks something about a pod and acts on no VM, snapshot or image.
unfoldable pub is_report : Effect → Bool
is_report (patch_annotations k u a) = true
is_report (patch_status k) = true
is_report (notify p) = true
is_report (forget_probe k) = true
is_report (start_probe k) = true
is_report (lookup_lease m) = true
is_report (release_lease m) = true
is_report (read_probe k) = true
is_report (schedule_recheck k) = true
is_report (background k) = true
is_report (sleep n) = true
is_report read_clock = true
is_report read_context = true
is_report (macos_inspect n) = true
is_report (await_create n) = true
is_report e = false

-- The view `f` does not see reports.
abbrev pub IgnoresReports {ℓ} : {A : Type ℓ} → (List Effect → A) → Type ℓ
IgnoresReports f = (e : Effect) (log : List Effect) → is_report e ≡ true → f (e ∷ log) ≡ f log

module _ {A : Type 0} (f : List Effect → A) (quiet : IgnoresReports f) (m : Meta)
    (settings : Settings) (env : Env) where
  abbrev view : World → A
  view w = f w.log

  pub call-quiet :
      {B : Type 0} (answer : List Effect → B) (e : Effect) (w : World)
      → is_report e ≡ true
      → f (call env answer e w).1.log ≡ f w.log
  unfolding call
  call-quiet answer e w h = quiet e w.log h

  pub patch-quiet :
      (key uid : String) (annos : Table (Option String)) (w : World)
      → f (patch_incarnation_annotations m settings env key uid annos w).1.log ≡ f w.log
  unfolding patch_incarnation_annotations
  patch-quiet key uid annos w =
      ground
        (arith, call-quiet env.api (patch_annotations key uid annos) w (unfold is_report in refl))

  abbrev nap : World → Bool × World
  nap = call env env.awake (sleep lifecycle_patch_interval)

  nap-quiet : (w : World) → f (nap w).1.log ≡ f w.log
  nap-quiet w = call-quiet env.awake (sleep lifecycle_patch_interval) w (unfold is_report in refl)

  pub patch_with_retry-quiet :
      (n : ℕ) (fn : World → ApiReply × World) (w : World)
      → ((u : World) → f (fn u).1.log ≡ f u.log)
      → f (patch_with_retry m settings env n fn w).1.log ≡ f w.log
  unfolding patch_with_retry
  patch_with_retry-quiet zero fn w h = refl
  patch_with_retry-quiet (suc zero) fn w h = h w
  patch_with_retry-quiet (suc (suc n)) fn w h =
      let w' = (fn w).1 in
      ground (arith, h w, nap-quiet w', patch_with_retry-quiet (suc n) fn (nap w').1 h)

  flush_attempts-quiet :
      (n : ℕ) (key uid : String) (annos : Table (Option String)) (snap : String) (w : World)
      → f (flush_attempts m settings env n key uid annos snap w).1.log ≡ f w.log
  unfolding flush_attempts
  flush_attempts-quiet zero key uid annos snap w = refl
  flush_attempts-quiet (suc zero) key uid annos snap w = ground (arith, patch-quiet key uid annos w)
  flush_attempts-quiet (suc (suc n)) key uid annos snap w =
      let w' = (patch_incarnation_annotations m settings env key uid annos w).1 in
      ground (
        arith,
        patch-quiet key uid annos w,
        nap-quiet w',
        flush_attempts-quiet (suc n) key uid annos snap (nap w').1,
      )

  pub flush-quiet :
      (key uid : String) (status : LifecycleStatus) (w : World)
      → f (flush_lifecycle m settings env key uid status w).1.log ≡ f w.log
  unfolding flush_lifecycle
  flush-quiet key uid status w =
      flush_attempts-quiet lifecycle_patch_attempts key uid (m.status_annotations status)
        (m.status_snapshot status) w

  pub mark-quiet :
      (pod : Pod) (state : LifecycleState) (message : String) (w : World)
      → f (mark_lifecycle_state m settings env pod state message w).1.log ≡ f w.log
  unfolding mark_lifecycle_state
  mark-quiet pod state message w =
      let r = apply_lifecycle m pod state message w.tables in
      ground (arith, flush-quiet (key_of m pod) pod.uid r.status (record w { tables = r.tables }))

  pub fail_op-quiet :
      (pod : Pod) (message : String) (w : World)
      → f (fail_op m settings env pod message w).1.log ≡ f w.log
  unfolding fail_op
  fail_op-quiet pod message w = mark-quiet pod LifecycleState.failed _ w

  release_leases-quiet :
      (macs : List String) (w : World) → f (release_leases m settings env macs w).1.log ≡ f w.log
  unfolding release_leases
  release_leases-quiet [] w = refl
  release_leases-quiet (mac ∷ rest) w =
      release_leases-quiet rest (tell env (release_lease mac) w).1
      ∙ call-quiet (λ _. tt) (release_lease mac) w (unfold is_report in refl)

  pub release_dhcp-quiet :
      (v : Vm) (w : World) → f (release_dhcp_leases m settings env v w).1.log ≡ f w.log
  unfolding release_dhcp_leases
  release_dhcp-quiet v w = ground (arith, release_leases-quiet (dhcp_macs v) w)

  pub apply_vm_runtime-quiet :
      (pod : Pod) (vm_id ip : String) (port : ℕ) (w : World)
      → f (apply_vm_runtime m settings env pod vm_id ip port w).1.log ≡ f w.log
  unfolding apply_vm_runtime
  apply_vm_runtime-quiet pod vm_id ip port w = ground (
    arith,
    patch_with_retry-quiet lifecycle_patch_attempts
        (patch_incarnation_annotations m settings env (key_of m pod) pod.uid
          (runtime_annotations m vm_id ip port))
        (record w {
          tables = store_pod (key_of m pod) (m.apply_runtime vm_id ip port pod) w.tables;
        })
        (λ u. patch-quiet (key_of m pod) pod.uid (runtime_annotations m vm_id ip port) u),
  )

  pub bind_runtime-quiet :
      (pod : Pod) (v : Vm) (port : ℕ) (w : World)
      → f (bind_runtime m settings env pod v port w).1.log ≡ f w.log
  unfolding bind_runtime
  bind_runtime-quiet pod v port w =
      let r = track_pod_incarnation m pod (some v) w.tables in
      ground (arith, apply_vm_runtime-quiet r.1 v.id v.ip port (record w { tables = r.0 }))

  pub apply_runtime-quiet :
      (pod : Pod) (v : Vm) (w : World) → f (apply_runtime m settings env pod v w).1.log ≡ f w.log
  unfolding apply_runtime
  apply_runtime-quiet pod v w = bind_runtime-quiet pod v 0 w

  pub clear-quiet :
      (pod : Pod) (w : World) → f (clear_runtime_annotations m settings env pod w).1.log ≡ f w.log
  unfolding clear_runtime_annotations
  clear-quiet pod w = ground (
    arith,
    patch-quiet (key_of m pod) pod.uid (no_runtime_annotations m)
        (record w { tables = store_pod (key_of m pod) (without_runtime m pod) w.tables }),
  )

  -- A probe is forgotten where probes are on.
  pub forget-quiet :
      (has_probes : Bool) (key : String) (w : World)
      → f ((if has_probes then tell env (forget_probe key) else pure tt) w).1.log ≡ f w.log
  forget-quiet true key w = call-quiet (λ _. tt) (forget_probe key) w (unfold is_report in refl)
  forget-quiet false key w = refl

  pub forget_pod-quiet :
      (key : String) (w : World) → f (forget_pod m settings env key w).1.log ≡ f w.log
  unfolding forget_pod
  forget_pod-quiet key w =
      forget-quiet settings.has_probes key (record w { tables = untrack key w.tables })
