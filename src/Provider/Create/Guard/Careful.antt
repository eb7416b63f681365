-- ===== src/Provider/Create/Guard/Careful.antt =====
-- `CreatePod` of a cloud guest under the trail, from the adoption to the boot (create.go).
use vk_cocoon.Base.{
  ◌≡◌, refl, Bool, true, false, not, ◌&&◌, ◌||◌, String, List, ◌∷◌, arith, ◌∙◌, ap, eq_refl,
}
use vk_cocoon.Kube.{Pod, VmSpec, Meta}
use vk_cocoon.Resources.{CpuPolicy, pod_cpu_policy}
use vk_cocoon.Vm.{Vm, Reply, ok, not_found, err}
use vk_cocoon.Provider.State.{Settings}
use vk_cocoon.Provider.World.{Env, World, Effect, call, tell, snapshot_remove, vm_inspect}
use vk_cocoon.Provider.Runtime.{apply_runtime}
use vk_cocoon.Provider.Delete.{fork_snapshot_name}
use vk_cocoon.Provider.Evidence.{
  Derived, fresh, restore, source_conflict, image_conflict, no_evidence,
  derive_restore_from_evidence, hibernate_evidence,
}
use vk_cocoon.Provider.Source.{WakeSource, resolve_wake_source}
use vk_cocoon.Provider.Wake.Verified.{trail, trail-ignores, seen}
use vk_cocoon.Provider.Wake.Verified.Sources.{holds_reply, resolve-holds, clone-careful}
use vk_cocoon.Provider.Prepare.{parse_clone_from_dir}
use vk_cocoon.Provider.BringUp.{
  bring_up_vm, bring_up_unmanaged, boot_managed, boot_or_restore, restore_source,
}
use vk_cocoon.Provider.Create.{
  CreateError, conflicting, failed, fail_create, seed_lease_ip, bind_created, boot_created,
  on_derived,
}
use vk_cocoon.Provider.Create.Guard.{boot_fresh-clear}
use vk_cocoon.Provider.Quiet.{IgnoresReports, apply_runtime-quiet}
use vk_cocoon.Provider.Quiet.Bind.{fail_create-quiet, seed_lease_ip-quiet, finish_bound-quiet}

module _ (m : Meta) (settings : Settings) (env : Env) (name : String) where
  abbrev pub at : World → Bool
  at w = (seen m settings env name true w).careful

  abbrev pub no_snapshot : World → Bool
  no_snapshot w = (seen m settings env name true w).absent

  restore_source-careful :
      (s : Reply WakeSource) (spec : VmSpec) (p : CpuPolicy) (w : World)
      → holds_reply m settings env name true s w ≡ true
      → at (restore_source m settings env s spec p w).1 ≡ true
  restore_source-careful (ok s) spec p w c =
      ground (arith, clone-careful m settings env name true spec s p w)
  restore_source-careful not_found spec p w c = ground arith
  restore_source-careful (err e) spec p w c = ground arith

  boot_or_restore-careful :
      (restoring : Bool) (pod : Pod) (spec : VmSpec) (p : CpuPolicy) (dir : String) (w : World)
      → spec.vm_name ≡ name
      → at w ≡ true
      → restoring || no_snapshot w ≡ true
      → at (boot_or_restore m settings env restoring pod spec p dir w).1 ≡ true
  unfolding call trail
  boot_or_restore-careful true pod spec p dir w n c h =
      let (s, w') = resolve_wake_source m settings env name w in
      ground (
        arith,
        resolve-holds m settings env name true w c,
        restore_source-careful s spec p w',
        ap (λ k. (resolve_wake_source m settings env k w)) n,
      )
  boot_or_restore-careful false pod spec p dir w n c h =
      let w' = (tell env (snapshot_remove (fork_snapshot_name spec.vm_name)) w).1 in
      ground (arith, boot_fresh-clear m settings env name pod spec p dir w')

  boot_managed-careful :
      (dir : Reply String) (pod : Pod) (spec : VmSpec) (w : World)
      → spec.vm_name ≡ name
      → at w ≡ true
      → m.read_restore_from_hibernate pod || no_snapshot w ≡ true
      → at (boot_managed m settings env dir pod spec w).1 ≡ true
  boot_managed-careful (ok dir) pod spec w n c h =
      boot_or_restore-careful (m.read_restore_from_hibernate pod) pod spec
        (pod_cpu_policy pod.resources) dir w n c h
  boot_managed-careful not_found pod spec w n c h = c
  boot_managed-careful (err e) pod spec w n c h = c

  -- A VM is brought up with care where the pod asks for a restore or no snapshot exists.
  bring_up-careful :
      (pod : Pod) (spec : VmSpec) (w : World)
      → spec.vm_name ≡ name
      → at w ≡ true
      → not spec.managed || m.read_restore_from_hibernate pod || no_snapshot w ≡ true
      → at (bring_up_vm m settings env pod spec w).1 ≡ true
  unfolding bring_up_vm bring_up_unmanaged
  bring_up-careful pod spec w n c h =
      ground (arith, boot_managed-careful (parse_clone_from_dir m pod) pod spec w n c)

  abbrev pub ignores : IgnoresReports (trail m settings env name true)
  ignores = trail-ignores m settings env name true

  pub inspects :
      (id : String) (log : List Effect)
      → trail m settings env name true (vm_inspect id ∷ log) ≡ trail m settings env name true log
  unfolding trail
  inspects id log = refl

  pub fail_create-seen :
      (pod : Pod) (e : CreateError) (message : String) (w : World)
      → seen m settings env name true (fail_create m settings env pod e message w).1
        ≡ seen m settings env name true w
  fail_create-seen pod e message w =
      fail_create-quiet (trail m settings env name true) ignores inspects m settings env pod e
        message w

  bind_created-seen :
      (r : Reply (Vm × String)) (pod : Pod) (spec : VmSpec) (restoring : Bool) (w : World)
      → seen m settings env name true (bind_created m settings env r pod spec restoring w).1
        ≡ seen m settings env name true w
  bind_created-seen (ok (v, image)) pod spec restoring w =
      let f = trail m settings env name true in
      let (v', w1) = seed_lease_ip m settings env v w in
      let (r, w2) = apply_runtime m settings env pod v' w1 in
      finish_bound-quiet f ignores inspects m settings env r spec restoring w2
      ∙ apply_runtime-quiet f ignores m settings env pod v' w1
      ∙ seed_lease_ip-quiet f ignores inspects m settings env v w
  bind_created-seen not_found pod spec restoring w =
      fail_create-seen pod (failed "not found") "not found" w
  bind_created-seen (err e) pod spec restoring w = fail_create-seen pod (failed e) e w

  pub boot_created-careful :
      (pod : Pod) (spec : VmSpec) (restoring : Bool) (w : World)
      → spec.vm_name ≡ name
      → at w ≡ true
      → not spec.managed || m.read_restore_from_hibernate pod || no_snapshot w ≡ true
      → at (boot_created m settings env pod spec restoring w).1 ≡ true
  unfolding boot_created
  boot_created-careful pod spec restoring w n c h =
      let (v, w') = bring_up_vm m settings env pod spec w in
      ground (arith, bring_up-careful pod spec w n c h, bind_created-seen v pod spec restoring w')

  -- What the evidence allows: a fresh boot when none exists, else a restore that the pod asks for.
  abbrev pub backed : Derived → Pod → World → Bool
  backed fresh pod w = no_snapshot w
  backed restore pod w = m.read_restore_from_hibernate pod
  backed _ pod w = true

  pub derive-backed :
      (pod : Pod) (spec : VmSpec) (w : World)
      → spec.vm_name ≡ name
      → ((p : Pod) → m.read_restore_from_hibernate (m.mark_restore_from_hibernate p) ≡ true)
      → at w ≡ true
      → let (r, w') =
          derive_restore_from_evidence m settings env pod spec
            (m.read_restore_from_hibernate pod)
            w in
        at w' && backed r.1 r.0 w' ≡ true
  unfolding derive_restore_from_evidence hibernate_evidence call trail
  derive-backed pod spec w n law c = ground (arith, law pod, eq_refl name)

  pub on_derived-careful :
      (d : Derived) (pod : Pod) (spec : VmSpec) (restoring : Bool) (w : World)
      → spec.vm_name ≡ name
      → at w && backed d pod w ≡ true
      → at (on_derived m settings env d pod spec restoring w).1 ≡ true
  on_derived-careful fresh pod spec restoring w n c =
      ground (arith, boot_created-careful pod spec restoring w n)
  on_derived-careful restore pod spec restoring w n c =
      ground (arith, boot_created-careful pod spec true w n)
  on_derived-careful source_conflict pod spec restoring w n c =
      ground (arith, fail_create-seen pod (conflicting source_conflict) "explicit clone source" w)
  on_derived-careful image_conflict pod spec restoring w n c =
      ground (arith, fail_create-seen pod (conflicting image_conflict) "another image" w)
  on_derived-careful (no_evidence e) pod spec restoring w n c =
      ground (arith, fail_create-seen pod (conflicting (no_evidence e)) e w)
