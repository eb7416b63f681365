-- ===== src/Provider/Quiet/Bind.antt =====
-- What precedes and follows a boot, under a view that does not see reports: the inspection of an
-- indexed VM, the binding of one to its pod, and the ends of a create (create.go, postclone.go).
use vk_cocoon.Base.{
  ℕ, zero, suc, ◌≡◌, refl, ◌∙◌, arith, Bool, true, false, not, ◌&&◌, Option, none, some, String,
  List, ◌∷◌, [],
}
use vk_cocoon.Base.Table.{lookup, insert}
use vk_cocoon.Kube.{Pod, VmSpec, Meta}
use vk_cocoon.Vm.{Vm}
use vk_cocoon.Spec.{is_cloned_boot, annotation_post_clone_state}
use vk_cocoon.Provider.State.{Settings, key_of}
use vk_cocoon.Provider.Lifecycle.{lifecycle_already_failed}
use vk_cocoon.Provider.World.{
  Env, World, Effect, call, tell, vm_inspect, lookup_lease, macos_inspect, sleep, background,
  start_probe,
}
use vk_cocoon.Provider.Runtime.{apply_runtime, fail_op, store_pod}
use vk_cocoon.Provider.Resume.{ResumeOp, owed_op_for, dispatch_resume}
use vk_cocoon.Provider.Evict.{inspect_with_retry, inline_inspect_attempts}
use vk_cocoon.Provider.Evidence.{adopt_indexed, adoptable_vm}
use vk_cocoon.Provider.Wake.{start_probe_if_enabled, dispatch_hibernate_restore}
use vk_cocoon.Provider.PostClone.Markers.{set_pod_annotation}
use vk_cocoon.Provider.Create.{
  CreateError, fail_create, seed_lease_ip, mark_pod_running, adopt_existing, after_adopt,
  resume_or_ready, dispatch_setup, publish_created, await_ready, finish_create, finish_bound,
}
use vk_cocoon.Provider.Quiet.{
  IgnoresReports, is_report, call-quiet, patch-quiet, apply_runtime-quiet, fail_op-quiet,
}
use vk_cocoon.Provider.Quiet.Status.{mark_ready-quiet, refresh_and_notify-quiet}

module _ {A : Type 0} (f : List Effect → A) (quiet : IgnoresReports f)
    (inspects : (id : String) (log : List Effect) → f (vm_inspect id ∷ log) ≡ f log) (m : Meta)
    (settings : Settings) (env : Env) where
  inspect_with_retry-quiet :
      (n : ℕ) (id : String) (w : World)
      → f (inspect_with_retry m settings env n id w).1.log ≡ f w.log
  unfolding inspect_with_retry call
  inspect_with_retry-quiet zero id w = refl
  inspect_with_retry-quiet (suc zero) id w = ground (arith, inspects id w.log)
  inspect_with_retry-quiet (suc (suc n)) id w =
      let w1 = (call env env.vm (vm_inspect id) w).1 in
      let nap = sleep 200_000_000 in
      let w2 = (call env env.awake nap w1).1 in
      ground (
        arith,
        inspects id w.log,
        call-quiet f quiet m settings env env.awake nap w1 (unfold is_report in refl),
        inspect_with_retry-quiet (suc n) id w2,
      )

  adopt_indexed-quiet :
      (v : Option Vm) (name : String) (w : World)
      → f (adopt_indexed m settings env v name w).1.log ≡ f w.log
  adopt_indexed-quiet none name w = refl
  adopt_indexed-quiet (some v) name w =
      ground (arith, inspect_with_retry-quiet inline_inspect_attempts v.id w)

  pub adoptable_vm-quiet :
      (name : String) (w : World) → f (adoptable_vm m settings env name w).1.log ≡ f w.log
  unfolding adoptable_vm
  adoptable_vm-quiet name w = adopt_indexed-quiet (lookup name w.tables.vms_by_name) name w

  pub start_probe-quiet :
      (pod : Pod) (w : World) → f (start_probe_if_enabled m settings env pod w).1.log ≡ f w.log
  unfolding start_probe_if_enabled
  start_probe-quiet pod w = ground (
    arith,
    call-quiet f quiet m settings env (λ _. tt) (start_probe (key_of m pod)) w
        (unfold is_report in refl),
  )

  background-quiet : (key : String) (w : World) → f (tell env (background key) w).1.log ≡ f w.log
  background-quiet key w =
      call-quiet f quiet m settings env (λ _. tt) (background key) w (unfold is_report in refl)

  pub set_pod_annotation-quiet :
      (pod : Pod) (k v : String) (w : World)
      → f (set_pod_annotation m settings env pod k v w).1.log ≡ f w.log
  unfolding set_pod_annotation
  set_pod_annotation-quiet pod k v w =
      let pod' = record pod { annotations = insert k v pod.annotations } in
      ground (
        arith,
        patch-quiet f quiet m settings env (key_of m pod) pod.uid ((k, some v) ∷ [])
            (record w { tables = store_pod (key_of m pod) pod' w.tables }),
      )

  pub fail_create-quiet :
      (pod : Pod) (e : CreateError) (message : String) (w : World)
      → f (fail_create m settings env pod e message w).1.log ≡ f w.log
  unfolding fail_create
  fail_create-quiet pod e message w =
      let (pod', w') = fail_op m settings env pod message w in
      let name = (m.parse_vm_spec pod').vm_name in
      ground (
        arith,
        fail_op-quiet f quiet m settings env pod message w,
        call-quiet f quiet m settings env env.macos_missing (macos_inspect name) w'
            (unfold is_report in refl),
      )

  pub seed_lease_ip-quiet :
      (v : Vm) (w : World) → f (seed_lease_ip m settings env v w).1.log ≡ f w.log
  unfolding seed_lease_ip
  seed_lease_ip-quiet v w = ground (
    arith,
    call-quiet f quiet m settings env env.lease_ip (lookup_lease v.mac) w
        (unfold is_report in refl),
  )

  dispatch_setup-quiet :
      (restoring cloned : Bool) (pod : Pod) (w : World)
      → f (dispatch_setup m settings env restoring cloned pod w).1.log ≡ f w.log
  unfolding dispatch_hibernate_restore
  dispatch_setup-quiet true cloned pod w = background-quiet (key_of m pod) w
  dispatch_setup-quiet false true pod w = background-quiet (key_of m pod) w
  dispatch_setup-quiet false false pod w = refl

  publish_created-quiet :
      (now : Bool) (pod : Pod) (w : World)
      → f (publish_created m settings env now pod w).1.log ≡ f w.log
  publish_created-quiet true pod w = mark_ready-quiet f quiet m settings env pod w
  publish_created-quiet false pod w = refresh_and_notify-quiet f quiet m settings env pod w

  await_ready-quiet :
      (due : Bool) (pod : Pod) (w : World)
      → f (await_ready m settings env due pod w).1.log ≡ f w.log
  await_ready-quiet false pod w = refl
  await_ready-quiet true pod w =
      let (pod', w') = set_pod_annotation m settings env pod annotation_post_clone_state "done" w in
      background-quiet (key_of m pod') w'
      ∙ set_pod_annotation-quiet pod annotation_post_clone_state "done" w

  pub finish_create-quiet :
      (pod : Pod) (spec : VmSpec) (restoring : Bool) (w : World)
      → f (finish_create m settings env pod spec restoring w).1.log ≡ f w.log
  unfolding finish_create mark_pod_running
  finish_create-quiet pod spec restoring w =
      let cloned = is_cloned_boot m pod spec in
      let w1 = (dispatch_setup m settings env restoring cloned pod w).1 in
      let w2 = (start_probe_if_enabled m settings env pod w1).1 in
      let (pod1, w3) = mark_pod_running m settings env pod w2 in
      let broken = lifecycle_already_failed m pod1 w3.tables in
      let now = not spec.managed && not restoring && not broken in
      let (pod2, w4) = publish_created m settings env now pod1 w3 in
      await_ready-quiet (spec.managed && not cloned && not restoring) pod2 w4
      ∙ publish_created-quiet now pod1 w3
      ∙ start_probe-quiet pod w1
      ∙ dispatch_setup-quiet restoring cloned pod w

  pub finish_bound-quiet :
      (r : Pod × Bool) (spec : VmSpec) (restoring : Bool) (w : World)
      → f (finish_bound m settings env r spec restoring w).1.log ≡ f w.log
  finish_bound-quiet (pod, false) spec restoring w = refl
  finish_bound-quiet (pod, true) spec restoring w = finish_create-quiet pod spec restoring w

  resume_or_ready-quiet :
      (op : Option ResumeOp) (pod : Pod) (w : World)
      → f (resume_or_ready m settings env op pod w).1.log ≡ f w.log
  resume_or_ready-quiet none pod w = mark_ready-quiet f quiet m settings env pod w
  resume_or_ready-quiet (some op) pod w =
      let (t, task) = dispatch_resume m (key_of m pod) pod op w.tables in
      ground (arith, background-quiet (key_of m pod) (record w { tables = t }))

  after_adopt-quiet :
      (r : Pod × Bool) (v : Vm) (w : World) → f (after_adopt m settings env r v w).1.log ≡ f w.log
  after_adopt-quiet (pod, false) v w = refl
  after_adopt-quiet (pod, true) v w =
      resume_or_ready-quiet (owed_op_for m pod (some v)) pod
        (start_probe_if_enabled m settings env pod w).1
      ∙ start_probe-quiet pod w

  pub adopt_existing-quiet :
      (pod : Pod) (v : Vm) (w : World) → f (adopt_existing m settings env pod v w).1.log ≡ f w.log
  unfolding adopt_existing
  adopt_existing-quiet pod v w =
      let (r, w') = apply_runtime m settings env pod v w in
      after_adopt-quiet r v w' ∙ apply_runtime-quiet f quiet m settings env pod v w
