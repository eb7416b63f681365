-- ===== src/Provider/Wake.antt =====
-- provider/cocoon/update.go: the clone that wakes a VM from its hibernate snapshot.
pub mod Verified
pub mod Careful
use Prim.Native.String.{◌++◌ as append_text}
use vk_cocoon.Base.{
  ℕ, Bool, true, false, not, ◌&&◌, ◌||◌, Option, none, some, String, ◌==◌, is_empty, or_text,
  nat_eq, if◌then◌else◌,
}
use vk_cocoon.Base.Seq.{exists}
use vk_cocoon.Base.Text.{codes}
use vk_cocoon.Kube.{Pod, VmSpec, Meta, LifecycleState}
use vk_cocoon.Resources.{CpuPolicy, pod_cpu_policy}
use vk_cocoon.Vm.{Vm, Reply, ok, not_found, err, Snapshot, CloneOptions}
use vk_cocoon.Spec.{is_macos_spec, should_drop_nic_before_hibernate}
use vk_cocoon.Provider.State.{Settings, key_of}
use vk_cocoon.Provider.World.{
  Env, Io, Manifest, snapshot_inspect, snapshot_pull, get_manifest, fetch_config, get_node,
  peer_restore, release_import, release_staged, vm_clone, start_probe, background, ◌>>=◌, ◌>>◌,
  pure, call, tell,
}
use vk_cocoon.Provider.Flush.{mark_lifecycle_state}
use vk_cocoon.Provider.Runtime.{apply_runtime, clear_runtime_annotations, fail_op}
use vk_cocoon.Provider.Delete.{remove_local_snapshots}
use vk_cocoon.Provider.Image.{clone_options_for, ensure_snapshot_base_image}
use vk_cocoon.Provider.Source.{
  Verdict, Release, WakeSource, join_host_port, has_image, after, verify_local_snapshot,
  peer_base_url, staged_source, restore_from, config_or_fetch, restore_with, peer_of,
  manifest_or_fetch, try_peer_restore, import_name, imported_source, after_pull, pull_import,
  source_or_pull, source_elsewhere, on_verdict, on_local, resolve_wake_source, has_wake_source,
  current, stale, unverified, keep, import, staged,
}

abbrev label : WakeSource → String
label s = or_text s.local_name s.origin

module _ (m : Meta) (settings : Settings) (env : Env) where
  abbrev release_source : Release → Io (Unit {0})
  release_source keep = pure tt
  release_source (import name) = tell env (release_import name)
  release_source (staged dir) = tell env (release_staged dir)

  abbrev clone_failure : VmSpec → WakeSource → String → String
  clone_failure spec s e =
      append_text "clone vm " (append_text spec.vm_name (after " from " (label s) e))

  abbrev clone_error : Reply Vm → VmSpec → WakeSource → Reply Vm
  clone_error (ok v) spec s = ok v
  clone_error not_found spec s = err (clone_failure spec s "not found")
  clone_error (err e) spec s = err (clone_failure spec s e)

  -- The options of a clone from a hibernate snapshot: one that dropped its NIC gets a fresh one.
  unfoldable pub hibernate_clone_options : VmSpec → WakeSource → CpuPolicy → CloneOptions
  hibernate_clone_options spec s policy = record (clone_options_for m settings spec policy) {
    from = s.local_name;
    from_dir = s.dir;
    pull = has_image s.snapshot;
    nics = if should_drop_nic_before_hibernate m spec then some 1 else none;
  }

  abbrev pub clone_source : Option String → VmSpec → WakeSource → CpuPolicy → Io (Reply Vm)
  clone_source (some e) spec s policy = do release_source s.release; pure (err e)
  clone_source none spec s policy = do
    v ← call env env.vm (vm_clone (hibernate_clone_options spec s policy))
    release_source s.release
    pure (clone_error v spec s)

  -- `cloneFromHibernate`: the source is released however it ends.
  unfoldable pub clone_from_hibernate : VmSpec → WakeSource → CpuPolicy → Io (Reply Vm)
  clone_from_hibernate spec s policy = do
    e ← ensure_snapshot_base_image m settings env s.snapshot
    clone_source e spec s policy

  abbrev start_if : Bool → Pod → Io (Unit {0})
  start_if false pod = pure tt
  start_if true pod = tell env (start_probe (key_of m pod))

  -- `startProbeIfEnabled`.
  unfoldable pub start_probe_if_enabled : Pod → Io (Unit {0})
  start_probe_if_enabled pod = start_if (settings.has_probes && not pod.is_terminating) pod

  -- `dispatchHibernateRestore`: the goroutine waits for the lease, after a post-clone setup if the
  -- guest kept its NIC.
  unfoldable pub dispatch_hibernate_restore : Pod → Io (Unit {0})
  dispatch_hibernate_restore pod = tell env (background (key_of m pod))

-- How a wake ended: with the VM bound, with the name held by a newer incarnation, or with an error.
pub data WakeEnd : Type 0 where
  woken superseded : WakeEnd
  not_woken : String → WakeEnd

module _ (m : Meta) (settings : Settings) (env : Env) where
  abbrev pub start_woken : Pod × Bool → Io (Pod × WakeEnd)
  start_woken (pod, false) = pure (pod, superseded)
  start_woken (pod, true) = do
    start_probe_if_enabled m settings env pod
    dispatch_hibernate_restore m settings env pod
    pure (pod, woken)

  abbrev pub fail_wake : Pod → String → Io (Pod × WakeEnd)
  fail_wake pod e = do pod' ← fail_op m settings env pod e; pure (pod', not_woken e)

  abbrev pub bind_woken : Reply Vm → Pod → Io (Pod × WakeEnd)
  bind_woken (ok v) pod = do r ← apply_runtime m settings env pod v; start_woken r
  bind_woken not_found pod = fail_wake pod "not found"
  bind_woken (err e) pod = fail_wake pod e

  abbrev pub clone_woken : Reply WakeSource → Pod → VmSpec → Io (Pod × WakeEnd)
  clone_woken (ok s) pod spec = do
    v ← clone_from_hibernate m settings env spec s (pod_cpu_policy pod.resources)
    bind_woken v pod
  clone_woken not_found pod spec = fail_wake pod "not found"
  clone_woken (err e) pod spec = fail_wake pod e

  -- `wake`.
  unfoldable pub wake : Pod → VmSpec → Io (Pod × WakeEnd)
  wake pod spec = elim (is_empty spec.vm_name) [
    | true ↦ pure (pod, woken)
    | false ↦ do
      pod1 ← mark_lifecycle_state m settings env pod LifecycleState.creating ""
      r ← clear_runtime_annotations m settings env pod1
      src ← resolve_wake_source m settings env spec.vm_name
      clone_woken src r.0 spec
  ]
