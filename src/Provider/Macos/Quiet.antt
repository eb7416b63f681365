-- ===== src/Provider/Macos/Quiet.antt =====
-- What the steps that bind and publish a macOS guest leave out of a history (macos.go).
use vk_cocoon.Base.{
  ℕ, ◌≡◌, refl, ◌∙◌, arith, Bool, true, false, not, ◌&&◌, Option, none, some, String, List, ◌∷◌,
}
use vk_cocoon.Base.Table.{lookup}
use vk_cocoon.Kube.{Pod, VmSpec, Meta}
use vk_cocoon.Vm.{Vm, MacosVmRecord, apply_macos_record}
use vk_cocoon.Provider.State.{Settings, key_of}
use vk_cocoon.Provider.Lifecycle.{lifecycle_already_failed}
use vk_cocoon.Provider.Flush.{patch_incarnation_annotations, lifecycle_patch_attempts}
use vk_cocoon.Provider.Runtime.{bind_runtime}
use vk_cocoon.Provider.Endpoint.{
  copied, reconcile_runtime_endpoints, publish_owned, publish_bound, publish_if, is_probed,
  publish_pod, publish_macos_readiness, endpoint_annotations,
}
use vk_cocoon.Provider.Create.{seed_lease_ip, mark_pod_running}
use vk_cocoon.Provider.Macos.Create.{
  new_guest, publish_current, after_bind, register_macos_vm, finish_registered, register_created,
  probe_seen_if, restart_unless_seen, readopt_macos_pod,
}
use vk_cocoon.Provider.World.{Env, World, Effect, vm_inspect, read_probe}
use vk_cocoon.Provider.Quiet.{
  IgnoresReports, is_report, call-quiet, patch-quiet, patch_with_retry-quiet, bind_runtime-quiet,
}
use vk_cocoon.Provider.Quiet.Status.{mark_ready-quiet, refresh_and_notify-quiet}
use vk_cocoon.Provider.Quiet.Bind.{seed_lease_ip-quiet, start_probe-quiet}

module _ (f : List Effect → Bool) (quiet : IgnoresReports f)
    (inspects : (id : String) (log : List Effect) → f (vm_inspect id ∷ log) ≡ f log) (m : Meta)
    (settings : Settings) (env : Env) where
  endpoints-quiet :
      (pod : Pod) (ip : String) (w : World)
      → f (reconcile_runtime_endpoints m settings env pod ip w).1.log ≡ f w.log
  unfolding reconcile_runtime_endpoints
  endpoints-quiet pod ip w =
      let annos =
        endpoint_annotations m settings env pod ip (lookup (key_of m pod) w.tables.vms_by_pod)
          (lookup (key_of m pod) w.tables.macos_vnc) in
      ground (
        arith,
        patch_with_retry-quiet f quiet m settings env lifecycle_patch_attempts
            (patch_incarnation_annotations m settings env (key_of m pod) pod.uid annos) w
            (λ u. patch-quiet f quiet m settings env (key_of m pod) pod.uid annos u),
      )

  publish_owned-quiet :
      (owned : Bool) (pod : Pod) (w : World)
      → f (publish_owned m settings env owned pod w).1.log ≡ f w.log
  publish_owned-quiet false pod w = refl
  publish_owned-quiet true pod w = mark_ready-quiet f quiet m settings env pod w

  publish_bound-quiet :
      (v : Option Vm) (pod : Pod) (w : World)
      → f (publish_bound m settings env v pod w).1.log ≡ f w.log
  publish_bound-quiet none pod w = mark_ready-quiet f quiet m settings env pod w
  publish_bound-quiet (some v) pod w =
      let (owned, w') = reconcile_runtime_endpoints m settings env pod v.ip w in
      publish_owned-quiet owned pod w' ∙ endpoints-quiet pod v.ip w

  publish_if-quiet :
      (b : Bool) (pod : Pod) (w : World) → f (publish_if m settings env b pod w).1.log ≡ f w.log
  publish_if-quiet false pod w = refresh_and_notify-quiet f quiet m settings env pod w
  publish_if-quiet true pod w =
      publish_bound-quiet (lookup (key_of m pod) w.tables.vms_by_pod) pod w

  is_probed-quiet :
      (b : Bool) (key : String) (w : World) → f (is_probed m settings env b key w).1.log ≡ f w.log
  is_probed-quiet false key w = refl
  is_probed-quiet true key w =
      call-quiet f quiet m settings env env.probe (read_probe key) w (unfold is_report in refl)

  publish_pod-quiet :
      (pod : Option Pod) (key : String) (w : World)
      → f (publish_pod m settings env pod key w).1.log ≡ f w.log
  publish_pod-quiet none key w = refl
  publish_pod-quiet (some pod) key w =
      let (ready, w') = is_probed m settings env settings.has_probes key w in
      let broken = lifecycle_already_failed m pod w'.tables in
      publish_if-quiet (ready && not broken) pod w' ∙ is_probed-quiet settings.has_probes key w

  pub publish-quiet :
      (key : String) (w : World) → f (publish_macos_readiness m settings env key w).1.log ≡ f w.log
  unfolding publish_macos_readiness
  publish-quiet key w = publish_pod-quiet (copied (lookup key w.tables.pods)) key w

  publish_current-quiet :
      (pod : Option Pod) (v : Vm) (w : World)
      → f (publish_current m settings env pod v w).1.log ≡ f w.log
  publish_current-quiet none v w = refl
  publish_current-quiet (some pod) v w = endpoints-quiet pod v.ip w

  after_bind-quiet :
      (r : Pod × Bool) (v : Vm) (w : World) → f (after_bind m settings env r v w).1.log ≡ f w.log
  after_bind-quiet (pod, false) v w = refl
  after_bind-quiet (pod, true) v w =
      let current = copied (lookup (key_of m pod) w.tables.pods) in
      let w' = (publish_current m settings env current v w).1 in
      start_probe-quiet f quiet inspects m settings env pod w' ∙ publish_current-quiet current v w

  pub register-quiet :
      (pod : Pod) (spec : VmSpec) (rec : Option MacosVmRecord) (port : ℕ) (w : World)
      → f (register_macos_vm m settings env pod spec rec port w).1.log ≡ f w.log
  unfolding register_macos_vm
  register-quiet pod spec rec port w =
      let (t, guest) = new_guest spec.vm_name w.tables in
      let (v, w1) =
        seed_lease_ip m settings env (apply_macos_record rec guest) (record w { tables = t }) in
      let (r, w2) = bind_runtime m settings env pod v port w1 in
      after_bind-quiet r v w2
      ∙ bind_runtime-quiet f quiet m settings env pod v port w1
      ∙ seed_lease_ip-quiet f quiet inspects m settings env (apply_macos_record rec guest)
          (record w { tables = t })

  finish_registered-quiet :
      (r : Pod × Bool) (w : World) → f (finish_registered m settings env r w).1.log ≡ f w.log
  unfolding mark_pod_running
  finish_registered-quiet (pod, false) w = refl
  finish_registered-quiet (pod, true) w =
      let (pod', w') = mark_pod_running m settings env pod w in publish-quiet (key_of m pod') w'

  pub register_created-quiet :
      (pod : Pod) (spec : VmSpec) (rec : Option MacosVmRecord) (port : ℕ) (w : World)
      → f (register_created m settings env pod spec rec port w).1.log ≡ f w.log
  unfolding register_created
  register_created-quiet pod spec rec port w =
      let (r, w') = register_macos_vm m settings env pod spec rec port w in
      finish_registered-quiet r w' ∙ register-quiet pod spec rec port w

  probe_seen_if-quiet :
      (b : Bool) (key : String) (w : World)
      → f (probe_seen_if m settings env b key w).1.log ≡ f w.log
  probe_seen_if-quiet false key w = refl
  probe_seen_if-quiet true key w =
      call-quiet f quiet m settings env env.probe_seen (read_probe key) w (unfold is_report in refl)

  restart-quiet :
      (b : Bool) (pod : Pod) (w : World)
      → f (restart_unless_seen m settings env b pod w).1.log ≡ f w.log
  restart-quiet true pod w = refl
  restart-quiet false pod w = start_probe-quiet f quiet inspects m settings env pod w

  pub readopt-quiet :
      (pod : Pod) (w : World) → f (readopt_macos_pod m settings env pod w).1.log ≡ f w.log
  unfolding readopt_macos_pod
  readopt-quiet pod w =
      let (seen, w1) = probe_seen_if m settings env settings.has_probes (key_of m pod) w in
      let w2 = (restart_unless_seen m settings env seen pod w1).1 in
      publish-quiet (key_of m pod) w2
      ∙ restart-quiet seen pod w1
      ∙ probe_seen_if-quiet settings.has_probes (key_of m pod) w
