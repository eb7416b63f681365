-- ===== src/Provider/Update/Calm.antt =====
-- A wake removes no VM (update.go).
use vk_cocoon.Base.{◌≡◌, refl, Bool, true, false, Option, none, some, String, arith, ◌∙◌}
use vk_cocoon.Kube.{Pod, VmSpec, Meta, LifecycleState}
use vk_cocoon.Resources.{CpuPolicy, pod_cpu_policy}
use vk_cocoon.Vm.{Vm, Reply, ok, not_found, err, Snapshot}
use vk_cocoon.Provider.State.{Settings}
use vk_cocoon.Provider.World.{Env, World, Manifest, call, image_inspect, snapshot_inspect}
use vk_cocoon.Provider.Flush.{mark_lifecycle_state}
use vk_cocoon.Provider.Runtime.{apply_runtime, clear_runtime_annotations}
use vk_cocoon.Provider.Delete.{remove_local_snapshots}
use vk_cocoon.Provider.Image.{ensure_snapshot_base_image, ensure_run_image, resolve_run_image}
use vk_cocoon.Provider.Source.{
  Verdict, current, stale, unverified, WakeSource, verify_local_snapshot, peer_base_url,
  try_peer_restore, pull_import, source_elsewhere, on_verdict, on_local, resolve_wake_source,
}
use vk_cocoon.Provider.Wake.{
  clone_from_hibernate, bind_woken, clone_woken, start_woken, fail_wake, start_probe_if_enabled,
  dispatch_hibernate_restore, wake,
}
use vk_cocoon.Provider.Update.Acts.{removes, removes-ignores}
use vk_cocoon.Provider.Quiet.{mark-quiet, clear-quiet, fail_op-quiet, apply_runtime-quiet}

module _ (m : Meta) (settings : Settings) (env : Env) where
  abbrev at : World → Bool
  at w = removes w.log

  run_image-removes :
      (image : String) (force : Bool) (w : World)
      → at (ensure_run_image m settings env image force w).1 ≡ at w
  unfolding ensure_run_image resolve_run_image call removes
  run_image-removes image force w = ground arith

  base_image-removes :
      (s : Option Snapshot) (w : World)
      → at (ensure_snapshot_base_image m settings env s w).1 ≡ at w
  unfolding ensure_snapshot_base_image call removes
  base_image-removes none w = refl
  base_image-removes (some s) w =
      let w' = (call env env.done (image_inspect s.image_digest) w).1 in
      ground (arith, run_image-removes s.image false w, run_image-removes s.image false w')

  clone-removes :
      (spec : VmSpec) (s : WakeSource) (p : CpuPolicy) (w : World)
      → at (clone_from_hibernate m settings env spec s p w).1 ≡ at w
  unfolding clone_from_hibernate call removes
  clone-removes spec s p w = ground (arith, base_image-removes s.snapshot w)

  local-removes : (n : String) (w : World) → at (remove_local_snapshots m settings env n w).1 ≡ at w
  unfolding remove_local_snapshots call removes
  local-removes n w = ground arith

  verify-removes :
      (n : String) (s : Snapshot) (w : World)
      → at (verify_local_snapshot m settings env n s w).1 ≡ at w
  unfolding verify_local_snapshot call removes
  verify-removes n s w = ground arith

  peer-removes :
      (n : String) (man : Option Manifest) (cfg : Option String) (w : World)
      → at (try_peer_restore m settings env n man cfg w).1 ≡ at w
  unfolding try_peer_restore peer_base_url call removes
  peer-removes n man cfg w = ground arith

  pull-removes : (n : String) (w : World) → at (pull_import m settings env n w).1 ≡ at w
  unfolding pull_import call removes
  pull-removes n w = ground arith

  elsewhere-removes :
      (n : String) (man : Option Manifest) (cfg : Option String) (w : World)
      → at (source_elsewhere m settings env n man cfg w).1 ≡ at w
  unfolding source_elsewhere
  elsewhere-removes n man cfg w =
      let w' = (try_peer_restore m settings env n man cfg w).1 in
      ground (arith, peer-removes n man cfg w, pull-removes n w')

  verdict-removes :
      (v : Verdict) (n : String) (s : Snapshot) (w : World)
      → at (on_verdict m settings env v n s w).1 ≡ at w
  verdict-removes current n s w = refl
  verdict-removes (unverified e) n s w = refl
  verdict-removes (stale none cfg) n s w =
      pull-removes n (remove_local_snapshots m settings env n w).1 ∙ local-removes n w
  verdict-removes (stale (some man) cfg) n s w =
      elsewhere-removes n (some man) cfg (remove_local_snapshots m settings env n w).1
      ∙ local-removes n w

  on_local-removes :
      (r : Reply Snapshot) (n : String) (w : World) → at (on_local m settings env r n w).1 ≡ at w
  on_local-removes (ok s) n w =
      let (v, w') = verify_local_snapshot m settings env n s w in
      verdict-removes v n s w' ∙ verify-removes n s w
  on_local-removes not_found n w = elsewhere-removes n none none w
  on_local-removes (err e) n w = refl

  resolve-removes : (n : String) (w : World) → at (resolve_wake_source m settings env n w).1 ≡ at w
  unfolding resolve_wake_source call removes
  resolve-removes n w =
      let (r, w') = call env env.snapshot (snapshot_inspect n) w in on_local-removes r n w'

  fail_wake-removes :
      (pod : Pod) (e : String) (w : World) → at (fail_wake m settings env pod e w).1 ≡ at w
  fail_wake-removes pod e w =
      ground (arith, fail_op-quiet removes removes-ignores m settings env pod e w)

  start-removes : (r : Pod × Bool) (w : World) → at (start_woken m settings env r w).1 ≡ at w
  unfolding start_probe_if_enabled dispatch_hibernate_restore call removes
  start-removes (pod, true) w = ground arith
  start-removes (pod, false) w = refl

  bind-removes :
      (v : Reply Vm) (pod : Pod) (w : World) → at (bind_woken m settings env v pod w).1 ≡ at w
  bind-removes (ok v) pod w =
      let (r, w') = apply_runtime m settings env pod v w in
      start-removes r w' ∙ apply_runtime-quiet removes removes-ignores m settings env pod v w
  bind-removes not_found pod w = fail_wake-removes pod "not found" w
  bind-removes (err e) pod w = fail_wake-removes pod e w

  clone_woken-removes :
      (s : Reply WakeSource) (pod : Pod) (spec : VmSpec) (w : World)
      → at (clone_woken m settings env s pod spec w).1 ≡ at w
  clone_woken-removes (ok s) pod spec w =
      let p = pod_cpu_policy pod.resources in
      let (v, w') = clone_from_hibernate m settings env spec s p w in
      bind-removes v pod w' ∙ clone-removes spec s p w
  clone_woken-removes not_found pod spec w = fail_wake-removes pod "not found" w
  clone_woken-removes (err e) pod spec w = fail_wake-removes pod e w

  pub wake-removes :
      (pod : Pod) (spec : VmSpec) (w : World) → at (wake m settings env pod spec w).1 ≡ at w
  unfolding wake
  wake-removes pod spec w =
      let (pod1, w1) = mark_lifecycle_state m settings env pod LifecycleState.creating "" w in
      let (r, w2) = clear_runtime_annotations m settings env pod1 w1 in
      let (s, w3) = resolve_wake_source m settings env spec.vm_name w2 in
      ground (
        arith,
        mark-quiet removes removes-ignores m settings env pod LifecycleState.creating "" w,
        clear-quiet removes removes-ignores m settings env pod1 w1,
        resolve-removes spec.vm_name w2,
        clone_woken-removes s r.0 spec w3,
      )
