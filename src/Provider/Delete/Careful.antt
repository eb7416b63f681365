-- ===== src/Provider/Delete/Careful.antt =====
-- A delete that fails drops nothing of the pod (provider/cocoon/delete.go).
use vk_cocoon.Base.{
  ◌≡◌, refl, arith, Bool, true, false, Option, none, some, String, List, [], ◌∷◌, is_some,
}
use vk_cocoon.Base.Table.{lookup}
use vk_cocoon.Kube.{Pod, Meta, VmSpec}
use vk_cocoon.Vm.{Vm, Reply, ok, not_found, err}
use vk_cocoon.Provider.State.{Tables, Settings, key_of}
use vk_cocoon.Provider.Track.{claim_deleting, finish_deleting}
use vk_cocoon.Provider.World.{
  Env, World, Effect, call, notify, snapshot_remove, snapshot_save, snapshot_push, vm_inspect,
  vm_remove, macos_inspect, macos_remove, forget_probe,
}
use vk_cocoon.Provider.Runtime.{remove_vm}
use vk_cocoon.Provider.Delete.{
  delete_pod, delete_claimed, delete_bound, after_save, save_if, save_and_push,
  save_and_push_snapshot, delete_macos_pod, macos_vm, macos_name, forget_if_probed,
  after_macos_remove, wants_snapshot,
}

-- Whether a history drops something of a pod: a local snapshot is removed, or the pod is reported.
unfoldable pub drops : List Effect → Bool
drops [] = false
drops (snapshot_remove n ∷ log) = true
drops (notify p ∷ log) = true
drops (e ∷ log) = drops log

-- The two worlds have the same tables, and the second has dropped nothing that the first has not.
abbrev Keeps : World → World → Type 0
Keeps w w' = (w'.tables ≡ w.tables) × (drops w'.log ≡ drops w.log)

module _ (m : Meta) (settings : Settings) (env : Env)
    (quiet : (log : List Effect) (t : Tables) → env.others log t ≡ t) where
  save_and_push-Keeps :
      (pod : Pod) (vm_id name repo tag image : String) (w : World)
      → Keeps w (save_and_push m settings env pod vm_id name repo tag image w).1
  unfolding save_and_push call drops
  save_and_push-Keeps pod vm_id name repo tag image w =
      let l1 = snapshot_save name vm_id ∷ w.log in
      let l2 = snapshot_push name repo tag image (m.read_snapshot_annotations pod) ∷ l1 in
      ground (arith, quiet l1 w.tables, quiet l2 w.tables, quiet l2 (env.others l1 w.tables))

  save_and_push_snapshot-Keeps :
      (pod : Pod) (v : Vm) (tag image : String) (w : World)
      → Keeps w (save_and_push_snapshot m settings env pod v tag image w).1
  unfolding save_and_push_snapshot call drops
  save_and_push_snapshot-Keeps pod v tag image w =
      let w' = (call env env.vm (vm_inspect v.id) w).1 in
      ground (
        arith,
        quiet w'.log w.tables,
        quiet (vm_inspect v.id ∷ w.log) w.tables,
        save_and_push-Keeps pod v.id v.name "" tag image w',
      )

  remove_vm-Keeps :
      (v : Vm) (w : World)
      → is_some (remove_vm m settings env v w).0 ≡ true
      → Keeps w (remove_vm m settings env v w).1
  unfolding remove_vm call drops
  remove_vm-Keeps v w e = ground (arith, quiet (vm_remove v.id ∷ w.log) w.tables)

  after_save-Keeps :
      (e : Option String) (pod : Pod) (v : Vm) (w : World)
      → is_some (after_save m settings env e pod v w).0 ≡ true
      → Keeps w (after_save m settings env e pod v w).1
  after_save-Keeps (some e) pod v w h = (refl, refl)
  after_save-Keeps none pod v w h = ground (arith, remove_vm-Keeps v w)

  save_if-Keeps :
      (b : Bool) (pod : Pod) (spec : VmSpec) (v : Vm) (w : World)
      → Keeps w (save_if m settings env b pod spec v w).1
  save_if-Keeps true pod spec v w =
      save_and_push_snapshot-Keeps pod v m.default_snapshot_tag spec.image w
  save_if-Keeps false pod spec v w = (refl, refl)

  delete_bound-Keeps :
      (bound : Option Vm) (pod : Pod) (spec : VmSpec) (w : World)
      → is_some (delete_bound m settings env bound pod spec w).0 ≡ true
      → Keeps w (delete_bound m settings env bound pod spec w).1
  delete_bound-Keeps none pod spec w h = ground arith
  delete_bound-Keeps (some v) pod spec w h =
      let (e, w') =
        save_if m settings env (wants_snapshot m settings env spec pod v) pod spec v w in
      ground (
        arith,
        save_if-Keeps (wants_snapshot m settings env spec pod v) pod spec v w,
        after_save-Keeps e pod v w',
      )

  macos_vm-Keeps :
      (bound : Option Vm) (name : String) (w : World)
      → Keeps w (macos_vm m settings env bound name w).1
  unfolding call drops
  macos_vm-Keeps (some v) name w = (refl, refl)
  macos_vm-Keeps none name w = ground (arith, quiet (macos_inspect name ∷ w.log) w.tables)

  forget_if_probed-Keeps :
      (key : String) (w : World) → Keeps w (forget_if_probed m settings env key w).1
  unfolding call drops
  forget_if_probed-Keeps key w = ground (arith, quiet (forget_probe key ∷ w.log) w.tables)

  after_macos_remove-Keeps :
      (r : Reply (Unit {0})) (v : Vm) (pod : Pod) (w : World)
      → is_some (after_macos_remove m settings env r v pod w).0 ≡ true
      → Keeps w (after_macos_remove m settings env r v pod w).1
  after_macos_remove-Keeps (err e) v pod w h = (refl, refl)
  after_macos_remove-Keeps not_found v pod w h = ground arith
  after_macos_remove-Keeps (ok _) v pod w h = ground arith

  macos_remove-Keeps :
      (name : String) (w : World) → Keeps w (call env env.done (macos_remove name) w).1
  unfolding call drops
  macos_remove-Keeps name w = ground (arith, quiet (macos_remove name ∷ w.log) w.tables)

  delete_macos-Keeps :
      (pod : Pod) (spec : VmSpec) (w : World)
      → is_some (delete_macos_pod m settings env pod spec w).0 ≡ true
      → Keeps w (delete_macos_pod m settings env pod spec w).1
  unfolding delete_macos_pod
  delete_macos-Keeps pod spec w h =
      let bound = lookup (key_of m pod) w.tables.vms_by_pod in
      let name = macos_name spec bound in
      let (v, w1) = macos_vm m settings env bound name w in
      let w2 = (forget_if_probed m settings env (key_of m pod) w1).1 in
      let (r, w3) = call env env.done (macos_remove name) w2 in
      ground (
        arith,
        macos_vm-Keeps bound name w,
        forget_if_probed-Keeps (key_of m pod) w1,
        macos_remove-Keeps name w2,
        after_macos_remove-Keeps r v pod w3,
      )

  delete_claimed-Keeps :
      (pod : Pod) (w : World)
      → is_some (delete_claimed m settings env pod w).0 ≡ true
      → Keeps w (delete_claimed m settings env pod w).1
  unfolding delete_claimed
  delete_claimed-Keeps pod w h =
      let spec = m.parse_vm_spec pod in
      ground (
        arith,
        delete_macos-Keeps pod spec w,
        delete_bound-Keeps (lookup (key_of m pod) w.tables.vms_by_pod) pod spec w,
      )

-- When no other goroutine interferes, a delete that returns an error, for whatever reason, keeps the
-- pod: the tracked pods, the VMs bound to them or known by name, the published intents and the
-- pending retries are as before, no local snapshot is removed, and the pod is not reported as ended.
pub delete_pod-keeps :
    (m : Meta) (settings : Settings) (env : Env)
    (quiet : (log : List Effect) (t : Tables) → env.others log t ≡ t) (pod : Pod) (w : World)
    → is_some (delete_pod m settings env pod w).0 ≡ true
    → let w' = (delete_pod m settings env pod w).1 in
      (w'.tables.pods ≡ w.tables.pods)
      × (w'.tables.vms_by_pod ≡ w.tables.vms_by_pod)
      × (w'.tables.vms_by_name ≡ w.tables.vms_by_name)
      × (w'.tables.lifecycle_intent ≡ w.tables.lifecycle_intent)
      × (w'.tables.op_retries ≡ w.tables.op_retries)
      × (drops w'.log ≡ drops w.log)
unfolding delete_pod claim_deleting finish_deleting
delete_pod-keeps m settings env quiet pod w h =
    let w1 : World = record w { tables = (claim_deleting (key_of m pod) pod.uid w.tables).0 } in
    ground (arith, delete_claimed-Keeps m settings env quiet pod w1)
