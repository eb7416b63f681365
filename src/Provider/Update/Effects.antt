-- ===== src/Provider/Update/Effects.antt =====
-- What an update of a cloud guest does to VMs (update.go).
use vk_cocoon.Base.{
  ◌≡◌, refl, Bool, true, false, not, ◌&&◌, ◌||◌, Option, none, some, String, List, [], ◌∷◌, arith,
  ◌∙◌, is_some, is_none, is_empty,
}
use Prim.Native.String.{◌++◌ as append_text}
use vk_cocoon.Kube.{Pod, VmSpec, Meta}
use vk_cocoon.Vm.{Vm}
use vk_cocoon.Provider.State.{Settings, Tables, key_of}
use vk_cocoon.Provider.World.{
  Env, World, Effect, call, tell, snapshot_save, snapshot_push, snapshot_remove, vm_inspect,
}
use vk_cocoon.Provider.Lifecycle.{Write, republish_on_generation_bump}
use vk_cocoon.Provider.Flush.{patch_incarnation_annotations, lifecycle_patch_attempts}
use vk_cocoon.Provider.Delete.{save_and_push}
use vk_cocoon.Provider.Hibernate.{hibernate}
use vk_cocoon.Provider.Ready.{LiftEnd, lifted, untouched, unknown, lift_hibernate_failure}
use vk_cocoon.Provider.Wake.{WakeEnd, woken, superseded, not_woken, wake}
use vk_cocoon.Provider.Update.{
  answer_snapshot, snapshot, noop_update, flush_if_applied, after_hibernate, after_wake, after_lift,
  act, snapshot_if, apply_cloud_update, outcome_annotations, Table,
}
use vk_cocoon.Provider.Update.Acts.{
  removes, boots, removes-ignores, boots-ignores, removes-inspects, boots-inspects, hibernate-boots,
}
use vk_cocoon.Provider.Update.Calm.{wake-removes}
use vk_cocoon.Provider.Quiet.{IgnoresReports, flush-quiet, patch_with_retry-quiet, patch-quiet}
use vk_cocoon.Provider.Quiet.Status.{lift-quiet, mark_ready-quiet, refresh_and_notify-quiet}

-- A view that does not see snapshots being saved, pushed and removed.
abbrev IgnoresSnapshots {ℓ} : {A : Type ℓ} → (List Effect → A) → Type ℓ
IgnoresSnapshots f =
    (n a b i : String) (t : Table String) (log : List Effect)
    → (f (snapshot_save n a ∷ log) ≡ f log)
      × (f (snapshot_push n a b i t ∷ log) ≡ f log)
      × (f (snapshot_remove n ∷ log) ≡ f log)

module _ (f : List Effect → Bool) (quiet : IgnoresReports f)
    (inspects : (id : String) (log : List Effect) → f (vm_inspect id ∷ log) ≡ f log)
    (saves : IgnoresSnapshots f) (m : Meta) (settings : Settings) (env : Env) where
  flush_if-quiet :
      (r : Write) (pod : Pod) (w : World)
      → f (flush_if_applied m settings env r pod w).1.log ≡ f w.log
  flush_if-quiet r pod w =
      ground (arith, flush-quiet f quiet m settings env (key_of m pod) pod.uid r.status w)

  noop-quiet : (pod : Pod) (w : World) → f (noop_update m settings env pod w).1.log ≡ f w.log
  unfolding noop_update
  noop-quiet pod w =
      let r = republish_on_generation_bump m pod w.tables in
      flush_if-quiet r pod (record w { tables = r.tables })

  after_hibernate-quiet :
      (e : Option String) (pod : Pod) (w : World)
      → f (after_hibernate m settings env e pod w).1.log ≡ f w.log
  after_hibernate-quiet (some e) pod w = refl
  after_hibernate-quiet none pod w = refresh_and_notify-quiet f quiet m settings env _ w

  after_wake-quiet :
      (r : Pod × WakeEnd) (w : World) → f (after_wake m settings env r w).1.log ≡ f w.log
  after_wake-quiet (pod, woken) w = refresh_and_notify-quiet f quiet m settings env pod w
  after_wake-quiet (pod, superseded) w = refl
  after_wake-quiet (pod, not_woken e) w = refl

  after_lift-quiet :
      (r : Pod × LiftEnd) (w : World) → f (after_lift m settings env r w).1.log ≡ f w.log
  after_lift-quiet (pod, unknown e) w = refl
  after_lift-quiet (pod, untouched) w = noop-quiet pod w
  after_lift-quiet (pod, lifted) w = mark_ready-quiet f quiet m settings env pod w

  answer-quiet :
      (pod : Pod) (ref : String) (e : Option String) (w : World)
      → f (answer_snapshot m settings env pod ref e w).1.log ≡ f w.log
  unfolding answer_snapshot
  answer-quiet pod ref e w =
      patch_with_retry-quiet f quiet m settings env lifecycle_patch_attempts
        (patch_incarnation_annotations m settings env (key_of m pod) pod.uid
          (outcome_annotations m settings env ref e))
        w
        (λ u.
          patch-quiet f quiet m settings env (key_of m pod) pod.uid
            (outcome_annotations m settings env ref e) u)

  save-quiet :
      (pod : Pod) (id n repo tag image : String) (w : World)
      → f (save_and_push m settings env pod id n repo tag image w).1.log ≡ f w.log
  unfolding save_and_push call
  save-quiet pod id n repo tag image w =
      let t = m.read_snapshot_annotations pod in
      ground (
        arith,
        (saves n id tag image t w.log).0,
        (saves n repo tag image t (snapshot_save n id ∷ w.log)).1,
      )

  snapshot-quiet :
      (pod : Pod) (spec : VmSpec) (v : Vm) (ref : String) (w : World)
      → f (snapshot m settings env pod spec v ref w).1.log ≡ f w.log
  unfolding snapshot call
  snapshot-quiet pod spec v ref w =
      let (repo, tag) = m.parse_ref ref in
      let n = append_text "snap-" v.name in
      let w1 = (save_and_push m settings env pod v.id n repo tag spec.image w).1 in
      let w2 = (tell env (snapshot_remove n) w1).1 in
      let e = (save_and_push m settings env pod v.id n repo tag spec.image w).0 in
      ground (
        arith,
        save-quiet pod v.id n repo tag spec.image w,
        (saves n n n n [] w1.log).2,
        answer-quiet pod ref e w2,
      )

  snapshot_if-quiet :
      (due : Bool) (v : Option Vm) (pod : Pod) (spec : VmSpec) (ref : String) (w : World)
      → f (snapshot_if m settings env due v pod spec ref w).1.log ≡ f w.log
  snapshot_if-quiet true (some v) pod spec ref w = snapshot-quiet pod spec v ref w
  snapshot_if-quiet true none pod spec ref w = refl
  snapshot_if-quiet false v pod spec ref w = refl

  -- The acts but for the hibernate and the wake themselves.
  act-quiet :
      (want : Bool) (v : Option Vm) (pod : Pod) (spec : VmSpec) (w : World)
      → ((b : Vm)
          → want ≡ true
          → v ≡ some b
          → f (hibernate m settings env pod spec b w).1.log ≡ f w.log)
      → (want ≡ false → v ≡ none → f (wake m settings env pod spec w).1.log ≡ f w.log)
      → f (act m settings env want v pod spec w).1.log ≡ f w.log
  act-quiet true (some b) pod spec w h k =
      let (e, w') = hibernate m settings env pod spec b w in
      after_hibernate-quiet e pod w' ∙ h b refl refl
  act-quiet false none pod spec w h k =
      let (r, w') = wake m settings env pod spec w in after_wake-quiet r w' ∙ k refl refl
  act-quiet true none pod spec w h k = noop-quiet pod w
  act-quiet false (some v) pod spec w h k =
      let (r, w') = lift_hibernate_failure m settings env pod w in
      after_lift-quiet r w' ∙ lift-quiet f quiet inspects m settings env pod w

  pub update-quiet :
      (pod : Pod) (spec : VmSpec) (v : Option Vm) (want : Bool) (ref : String) (w : World)
      → ((b : Vm) (u : World)
          → want ≡ true
          → v ≡ some b
          → f (hibernate m settings env pod spec b u).1.log ≡ f u.log)
      → ((u : World) → want ≡ false → v ≡ none → f (wake m settings env pod spec u).1.log ≡ f u.log)
      → f (apply_cloud_update m settings env pod spec v want ref w).1.log ≡ f w.log
  unfolding apply_cloud_update
  update-quiet pod spec v want ref w h k =
      let due = not (is_empty ref) && not want && settings.has_pusher in
      let w' = (snapshot_if m settings env due v pod spec ref w).1 in
      ground (
        arith,
        noop-quiet pod w,
        snapshot_if-quiet due v pod spec ref w,
        act-quiet want v pod spec w' (λ b. h b w') (k w'),
      )

removes-saves : IgnoresSnapshots removes
unfolding removes
removes-saves n a b i t log = (refl, refl, refl)

boots-saves : IgnoresSnapshots boots
unfolding boots
boots-saves n a b i t log = (refl, refl, refl)

module _ (m : Meta) (settings : Settings) (env : Env) where
  update-removes :
      (pod : Pod) (spec : VmSpec) (v : Option Vm) (want : Bool) (ref : String) (w : World)
      → not want || is_none v ≡ true
      → removes (apply_cloud_update m settings env pod spec v want ref w).1.log ≡ removes w.log
  update-removes pod spec v want ref w h =
      update-quiet removes removes-ignores removes-inspects removes-saves m settings env pod spec v
        want ref w (λ b u e q. ground arith) (λ u e q. wake-removes m settings env pod spec u)

  update-boots :
      (pod : Pod) (spec : VmSpec) (v : Option Vm) (want : Bool) (ref : String) (w : World)
      → want || is_some v ≡ true
      → boots (apply_cloud_update m settings env pod spec v want ref w).1.log ≡ boots w.log
  update-boots pod spec v want ref w h =
      update-quiet boots boots-ignores boots-inspects boots-saves m settings env pod spec v want ref
        w (λ b u e q. hibernate-boots m settings env pod spec b u) (λ u e q. ground arith)

-- However the calls are answered and whatever other goroutines do, an update of a cloud guest removes
-- a VM only where the pod asks to hibernate and has a VM, and boots one only where the pod does not
-- ask to hibernate and has none.
pub apply_cloud_update-acts :
    (m : Meta) (settings : Settings) (env : Env) (pod : Pod) (spec : VmSpec) (v : Option Vm)
    (want : Bool) (ref : String) (t : Tables)
    → let w : World = record { tables = t; log = [] } in
      let log = (apply_cloud_update m settings env pod spec v want ref w).1.log in
      (not (removes log) || want && is_some v ≡ true)
      × (not (boots log) || not want && is_none v ≡ true)
unfolding removes boots
apply_cloud_update-acts m settings env pod spec v want ref t =
    let w : World = record { tables = t; log = [] } in
    ground (
      arith,
      update-removes m settings env pod spec v want ref w,
      update-boots m settings env pod spec v want ref w,
    )
