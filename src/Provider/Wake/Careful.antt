-- ===== src/Provider/Wake/Careful.antt =====
-- A wake clones its VM from a sound source only (update.go).
use vk_cocoon.Base.{◌≡◌, refl, Bool, true, false, String, arith, ◌∙◌}
use vk_cocoon.Kube.{Pod, VmSpec, Meta, LifecycleState}
use vk_cocoon.Resources.{pod_cpu_policy}
use vk_cocoon.Vm.{Vm, Reply, ok, not_found, err}
use vk_cocoon.Provider.State.{Settings}
use vk_cocoon.Provider.World.{Env, World, call}
use vk_cocoon.Provider.Flush.{mark_lifecycle_state}
use vk_cocoon.Provider.Runtime.{apply_runtime, clear_runtime_annotations}
use vk_cocoon.Provider.Quiet.{mark-quiet, clear-quiet, fail_op-quiet, apply_runtime-quiet}
use vk_cocoon.Provider.Source.{WakeSource, resolve_wake_source}
use vk_cocoon.Provider.Wake.{
  clone_from_hibernate, bind_woken, clone_woken, start_woken, fail_wake, start_probe_if_enabled,
  dispatch_hibernate_restore, wake,
}
use vk_cocoon.Provider.Wake.Verified.{trail, trail-ignores, seen}
use vk_cocoon.Provider.Wake.Verified.Sources.{holds_reply, resolve-holds, clone-careful}

module _ (m : Meta) (settings : Settings) (env : Env) (name : String) (lax : Bool) where
  abbrev view : World → Bool
  view w = (seen m settings env name lax w).careful

  fail_wake-seen :
      (pod : Pod) (e : String) (w : World)
      → seen m settings env name lax (fail_wake m settings env pod e w).1
        ≡ seen m settings env name lax w
  fail_wake-seen pod e w = ground (
    arith,
    fail_op-quiet (trail m settings env name lax) (trail-ignores m settings env name lax) m settings
        env pod e w,
  )

  start_woken-seen :
      (r : Pod × Bool) (w : World)
      → seen m settings env name lax (start_woken m settings env r w).1
        ≡ seen m settings env name lax w
  unfolding start_probe_if_enabled dispatch_hibernate_restore call trail
  start_woken-seen (pod, true) w = ground arith
  start_woken-seen (pod, false) w = refl

  bind_woken-seen :
      (v : Reply Vm) (pod : Pod) (w : World)
      → seen m settings env name lax (bind_woken m settings env v pod w).1
        ≡ seen m settings env name lax w
  bind_woken-seen (ok v) pod w =
      let (r, w') = apply_runtime m settings env pod v w in
      start_woken-seen r w'
      ∙ apply_runtime-quiet (trail m settings env name lax) (trail-ignores m settings env name lax)
          m settings env pod v w
  bind_woken-seen not_found pod w = fail_wake-seen pod "not found" w
  bind_woken-seen (err e) pod w = fail_wake-seen pod e w

  clone_woken-careful :
      (s : Reply WakeSource) (pod : Pod) (spec : VmSpec) (w : World)
      → holds_reply m settings env name lax s w ≡ true
      → view (clone_woken m settings env s pod spec w).1 ≡ true
  clone_woken-careful (ok s) pod spec w c =
      let (v, w') = clone_from_hibernate m settings env spec s (pod_cpu_policy pod.resources) w in
      ground (
        arith,
        clone-careful m settings env name lax spec s (pod_cpu_policy pod.resources) w,
        bind_woken-seen v pod w',
      )
  clone_woken-careful not_found pod spec w c = ground (arith, fail_wake-seen pod "not found" w)
  clone_woken-careful (err e) pod spec w c = ground (arith, fail_wake-seen pod e w)

-- A wake that starts in any world whose clones were allowed.
pub wake-careful_from :
    (m : Meta) (settings : Settings) (env : Env) (lax : Bool) (pod : Pod) (spec : VmSpec)
    (w : World)
    → (seen m settings env spec.vm_name lax w).careful ≡ true
    → (seen m settings env spec.vm_name lax (wake m settings env pod spec w).1).careful ≡ true
unfolding wake
wake-careful_from m settings env lax pod spec w c =
    let name = spec.vm_name in
    let (pod1, w1) = mark_lifecycle_state m settings env pod LifecycleState.creating "" w in
    let (r, w2) = clear_runtime_annotations m settings env pod1 w1 in
    let (s, w3) = resolve_wake_source m settings env name w2 in
    ground (
      arith,
      mark-quiet (trail m settings env name lax) (trail-ignores m settings env name lax) m settings
          env pod LifecycleState.creating "" w,
      clear-quiet (trail m settings env name lax) (trail-ignores m settings env name lax) m settings
          env pod1 w1,
      resolve-holds m settings env name lax w2,
      clone_woken-careful m settings env name lax s r.0 spec w3,
    )
