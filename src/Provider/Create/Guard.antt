-- ===== src/Provider/Create/Guard.antt =====
-- What `CreatePod` boots (create.go): while a hibernate snapshot of the VM's name may exist, nothing
-- but that snapshot.
pub mod Careful
use vk_cocoon.Base.{
  ◌≡◌, refl, Bool, true, false, not, ◌&&◌, ◌||◌, Option, none, some, String, List, [], ◌∷◌, arith,
  ◌∙◌, ap, eq_refl,
}
use vk_cocoon.Kube.{Pod, VmSpec, Meta}
use vk_cocoon.Resources.{CpuPolicy, pod_cpu_policy}
use vk_cocoon.Vm.{Vm, Reply, ok, not_found, err, Snapshot, CloneOptions}
use vk_cocoon.Provider.State.{Settings, Tables}
use vk_cocoon.Provider.World.{
  Env, World, call, tell, snapshot_inspect, snapshot_remove, snapshot_pull, snapshot_save,
  vm_inspect, vm_clone, vm_run, get_manifest,
}
use vk_cocoon.Provider.Delete.{fork_snapshot_name}
use vk_cocoon.Provider.Image.{ensure_run_image, ensure_snapshot_base_image, clone_options_for}
use vk_cocoon.Provider.Source.{WakeSource, resolve_wake_source}
use vk_cocoon.Provider.Wake.{clone_from_hibernate}
use vk_cocoon.Provider.Wake.Verified.{trail, seen, run_image-seen, base_image-seen}
use vk_cocoon.Provider.Prepare.{
  local_snapshot_name, cloning, ensure_snapshot, fly_unless, pull_unless, after_pull,
  ensure_fork_snapshot, fork_unless, indexed_or_inspected, save_fork,
}
use vk_cocoon.Provider.BringUp.{
  clone_from_dir, clone_with, clone_fork, clone_from_fork, run_vm, run_image, clone_image,
  clone_based, clone_from_image, boot_fresh,
}

module _ (m : Meta) (settings : Settings) (env : Env) (name : String) where
  -- Every boot so far was careful, and a lookup has found no hibernate snapshot.
  abbrev pub is_clear : World → Bool
  is_clear w = (seen m settings env name true w).careful && (seen m settings env name true w).absent

  inspect-clear :
      (n : String) (w : World)
      → is_clear w ≡ true
      → is_clear (call env env.snapshot (snapshot_inspect n) w).1 ≡ true
  unfolding call trail
  inspect-clear n w c = ground arith

  pull-clear :
      (r : Reply Snapshot) (repo tag n : String) (w : World)
      → is_clear w ≡ true
      → is_clear (pull_unless m settings env r repo tag n w).1 ≡ true
  unfolding call trail
  pull-clear r repo tag n w c = ground arith

  fly-clear :
      (r : Reply Snapshot) (repo tag n : String) (w : World)
      → is_clear w ≡ true
      → is_clear (fly_unless m settings env r repo tag n w).1 ≡ true
  fly-clear r repo tag n w c =
      let (again, w') = call env env.snapshot (snapshot_inspect n) w in
      ground (arith, inspect-clear n w, pull-clear again repo tag n w')

  ensure_snapshot-clear :
      (repo tag n : String) (w : World)
      → is_clear w ≡ true
      → is_clear (ensure_snapshot m settings env repo tag n w).1 ≡ true
  unfolding ensure_snapshot
  ensure_snapshot-clear repo tag n w c =
      let (r, w') = call env env.snapshot (snapshot_inspect n) w in
      ground (arith, inspect-clear n w, fly-clear r repo tag n w')

  clone-clear :
      (opts : CloneOptions) (what n image : String) (w : World)
      → is_clear w ≡ true
      → is_clear (clone_with m settings env opts what n image w).1 ≡ true
  unfolding call trail
  clone-clear opts what n image w c = ground arith

  fork-clear :
      (source : String) (w : World)
      → is_clear w ≡ true
      → is_clear (ensure_fork_snapshot m settings env source w).1 ≡ true
  unfolding ensure_fork_snapshot call trail
  fork-clear source w c = ground arith

  clone_fork-clear :
      (r : Reply String) (spec : VmSpec) (p : CpuPolicy) (w : World)
      → is_clear w ≡ true
      → is_clear (clone_fork m settings env r spec p w).1 ≡ true
  clone_fork-clear (ok n) spec p w c =
      clone-clear (record (clone_options_for m settings spec p) { from = n })
        (cloning spec " from ") n "" w c
  clone_fork-clear not_found spec p w c = c
  clone_fork-clear (err e) spec p w c = c

  clone_image-clear :
      (r : Reply (Option Snapshot)) (n : String) (spec : VmSpec) (p : CpuPolicy) (w : World)
      → is_clear w ≡ true
      → is_clear (clone_image m settings env r n spec p w).1 ≡ true
  unfolding call trail
  clone_image-clear (ok s) n spec p w c =
      ground (arith, base_image-seen m settings env name true s w)
  clone_image-clear not_found n spec p w c = c
  clone_image-clear (err e) n spec p w c = c

  run_vm-clear :
      (pod : Pod) (spec : VmSpec) (w : World)
      → is_clear w ≡ true
      → is_clear (run_vm m settings env pod spec w).1 ≡ true
  unfolding run_vm call trail
  run_vm-clear pod spec w c =
      ground (arith, run_image-seen m settings env name true spec.image spec.force_pull w)

  pub boot_fresh-clear :
      (pod : Pod) (spec : VmSpec) (p : CpuPolicy) (dir : String) (w : World)
      → is_clear w ≡ true
      → is_clear (boot_fresh m settings env pod spec p dir w).1 ≡ true
  unfolding boot_fresh clone_from_dir clone_from_fork clone_from_image
  boot_fresh-clear pod spec p dir w c =
      let (r, w1) = ensure_fork_snapshot m settings env spec.fork_from w in
      let (repo, tag) = m.parse_ref spec.image in
      let n = local_snapshot_name m repo tag in
      let (s, w2) = ensure_snapshot m settings env repo tag n w in
      ground (
        arith,
        clone-clear (record (clone_options_for m settings spec p) { from_dir = dir })
            (cloning spec " from dir ") dir "" w,
        fork-clear spec.fork_from w,
        clone_fork-clear r spec p w1,
        run_vm-clear pod spec w,
        ensure_snapshot-clear repo tag n w,
        clone_image-clear s n spec p w2,
      )
