-- ===== src/Provider/Startup/Untouched.antt =====
-- Matching the pods and resuming their work removes no VM (provider/cocoon/reconcile.go).
use vk_cocoon.Base.{
  ◌≡◌, refl, ◌∙◌, arith, inl, inr, Bool, true, false, ◌||◌, Option, none, some, String, List, [],
  ◌∷◌, ◌==◌, Option-cases,
}
use vk_cocoon.Base.Table.{Table, lookup}
use vk_cocoon.Kube.{Pod, Meta}
use vk_cocoon.Vm.{Vm}
use vk_cocoon.Provider.State.{Settings, key_of}
use vk_cocoon.Provider.World.{Env, World, Effect, vm_remove, vm_inspect, background}
use vk_cocoon.Provider.Runtime.{apply_runtime, clear_runtime_annotations}
use vk_cocoon.Provider.Resume.{ResumeOp, ResumeTask}
use vk_cocoon.Provider.Create.{resume_section, start_task}
use vk_cocoon.Provider.Quiet.{
  IgnoresReports, is_report, call-quiet, apply_runtime-quiet, clear-quiet,
}
use vk_cocoon.Provider.Quiet.Status.{lift_cleared-quiet}
use vk_cocoon.Provider.Startup.{
  track_seeded, adopt_found, adopt_by_vm_name, reconcile_no_vmid, reconcile_stale_hibernate,
  match_adopted, match_missing, match_found, match_pod, match_pods, dispatch_all,
}

-- Whether the history has a removal of the VM.
unfoldable pub removed : String → List Effect → Bool
removed id [] = false
removed id (vm_remove i ∷ log) = i == id || removed id log
removed id (e ∷ log) = removed id log

pub removed-ignores : (id : String) → IgnoresReports (removed id)
unfolding removed is_report
removed-ignores id e log h = ground arith

pub removed-inspects :
    (id i : String) (log : List Effect) → removed id (vm_inspect i ∷ log) ≡ removed id log
unfolding removed
removed-inspects id i log = refl

-- None of the other steps removes the VM.
module _ (m : Meta) (settings : Settings) (env : Env) (id : String) where
  abbrev at : World → Bool
  at w = removed id w.log

  seeded-at :
      (pod : Pod) (v : Option Vm) (w : World) → at (track_seeded m settings env pod v w).1 ≡ at w
  unfolding track_seeded
  seeded-at pod v w = refl

  adopt_found-at :
      (v : Option Vm) (pod : Pod) (w : World) → at (adopt_found m settings env v pod w).1 ≡ at w
  adopt_found-at none pod w = refl
  adopt_found-at (some v) pod w =
      let (r, w') = apply_runtime m settings env pod v w in
      ground (arith, apply_runtime-quiet (removed id) (removed-ignores id) m settings env pod v w)

  adopt_by_vm_name-at :
      (pod : Pod) (by_name : Table Vm) (w : World)
      → at (adopt_by_vm_name m settings env pod by_name w).1 ≡ at w
  unfolding adopt_by_vm_name
  adopt_by_vm_name-at pod by_name w =
      ground (arith, adopt_found-at (lookup (m.parse_vm_spec pod).vm_name by_name) pod w)

  no_vmid-at : (pod : Pod) (w : World) → at (reconcile_no_vmid m settings env pod w).1 ≡ at w
  unfolding reconcile_no_vmid
  no_vmid-at pod w = ground (arith, seeded-at pod none w)

  match_adopted-at :
      (v : Option Vm) (pod : Pod) (w : World) → at (match_adopted m settings env v pod w).1 ≡ at w
  match_adopted-at (some v) pod w = refl
  match_adopted-at none pod w = no_vmid-at pod w

  match_missing-at :
      (b : Bool) (pod : Pod) (w : World) → at (match_missing m settings env b pod w).1 ≡ at w
  unfolding reconcile_stale_hibernate
  match_missing-at true pod w =
      let (r, w') = clear_runtime_annotations m settings env pod w in
      seeded-at r.0 none w' ∙ clear-quiet (removed id) (removed-ignores id) m settings env pod w
  match_missing-at false pod w = refl

  match_found-at :
      (v : Option Vm) (pod : Pod) (w : World) → at (match_found m settings env v pod w).1 ≡ at w
  match_found-at none pod w = match_missing-at (m.read_hibernate_state pod) pod w
  match_found-at (some v) pod w =
      let (pod', w') = track_seeded m settings env pod (some v) w in
      lift_cleared-quiet (removed id) (removed-ignores id) (removed-inspects id) m settings env pod'
        w'
      ∙ seeded-at pod (some v) w

  match_pod-at :
      (by_id by_name : Table Vm) (pod : Pod) (w : World)
      → at (match_pod m settings env by_id by_name pod w).1 ≡ at w
  unfolding match_pod track_seeded
  match_pod-at by_id by_name pod w =
      let (v, w') = adopt_by_vm_name m settings env pod by_name w in
      ground (
        arith,
        adopt_by_vm_name-at pod by_name w,
        match_adopted-at v pod w',
        match_found-at (lookup (m.runtime_vm_id pod) by_id) pod w,
      )

  pub match_pods-at :
      (by_id by_name : Table Vm) (pods : List Pod) (w : World)
      → at (match_pods m settings env by_id by_name pods w).1 ≡ at w
  unfolding match_pods
  match_pods-at by_id by_name [] w = refl
  match_pods-at by_id by_name (pod ∷ rest) w =
      let (r, w') = match_pod m settings env by_id by_name pod w in
      match_pods-at by_id by_name rest w' ∙ match_pod-at by_id by_name pod w

  start_task-at :
      (task : Option ResumeTask) (pod : Pod) (w : World)
      → at (start_task m settings env task pod w).1 ≡ at w
  start_task-at none pod w = refl
  start_task-at (some task) pod w =
      call-quiet (removed id) (removed-ignores id) m settings env (λ _. tt)
        (background (key_of m pod)) w (unfold is_report in refl)

  pub dispatch_all-at :
      (pods : Table Pod) (work : List (String × ResumeOp)) (w : World)
      → at (dispatch_all m settings env pods work w).1 ≡ at w
  unfolding dispatch_all
  dispatch_all-at pods [] w = refl
  dispatch_all-at pods ((key, op) ∷ rest) w = elim (Option-cases (lookup key pods)) [
    | inl missing ↦ rw missing (dispatch_all-at pods rest w)
    | inr (pod, tracked) ↦
        let (t, task) = resume_section m key pod op w.tables in
        let w1 : World = record w { tables = t } in
        let w2 = (start_task m settings env task pod w1).1 in
        rw tracked (dispatch_all-at pods rest w2 ∙ start_task-at task pod w1)
  ]
