-- ===== src/Provider/BringUp.antt =====
-- provider/cocoon/create.go: how a create gets its VM, by the pod's mode and clone source.
use Prim.Native.String.{◌++◌ as append_text}
use vk_cocoon.Base.{
  suc, Bool, true, false, not, ◌||◌, Option, none, some, String, [], is_empty, if◌then◌else◌,
}
use vk_cocoon.Kube.{Pod, VmSpec, Meta}
use vk_cocoon.Resources.{CpuPolicy, pod_cpu_policy, vm_resource_overrides}
use vk_cocoon.Vm.{Vm, Reply, ok, not_found, err, Snapshot, CloneOptions, RunOptions, state_running}
use vk_cocoon.Provider.State.{Tables, Settings}
use vk_cocoon.Provider.World.{
  Env, Io, snapshot_remove, vm_clone, vm_run, ◌>>=◌, ◌>>◌, pure, section, call, tell,
}
use vk_cocoon.Provider.Delete.{fork_snapshot_name}
use vk_cocoon.Provider.Image.{clone_options_for, ensure_snapshot_base_image, ensure_run_image}
use vk_cocoon.Provider.Source.{WakeSource, resolve_wake_source, after}
use vk_cocoon.Provider.Wake.{clone_from_hibernate}
use vk_cocoon.Provider.Prepare.{
  is_foreign, local_snapshot_name, parse_clone_from_dir, is_run_mode, Booted, explain, booted,
  cloning, image_of, ensure_snapshot, ensure_fork_snapshot,
}

module _ (m : Meta) (settings : Settings) (env : Env) where
  abbrev pub clone_with : CloneOptions → String → String → String → Io Booted
  clone_with opts what name image = do
    v ← call env env.vm (vm_clone opts)
    pure (booted image (explain what name v))

  unfoldable pub clone_from_dir : VmSpec → CpuPolicy → String → Io Booted
  clone_from_dir spec policy dir =
      if is_run_mode m spec
      then pure (err "clone-from-dir is incompatible with mode=run")
      else if not (is_empty spec.fork_from)
      then pure (err (append_text "clone-from-dir is incompatible with fork-from " spec.fork_from))
      else clone_with (record (clone_options_for m settings spec policy) { from_dir = dir })
          (cloning spec " from dir ") dir ""

  abbrev pub clone_fork : Reply String → VmSpec → CpuPolicy → Io Booted
  clone_fork (ok name) spec policy =
      clone_with (record (clone_options_for m settings spec policy) { from = name })
        (cloning spec " from ") name ""
  clone_fork not_found spec policy = pure not_found
  clone_fork (err e) spec policy = pure (err e)

  unfoldable pub run_options : Pod → VmSpec → String → RunOptions
  run_options pod spec image =
      let (cpu, memory) = vm_resource_overrides pod.resources in
      record {
        image = image;
        name = spec.vm_name;
        cpu = cpu;
        memory = memory;
        network = spec.network;
        storage = spec.storage;
        os = spec.os;
        backend = spec.backend;
        no_direct_io = spec.no_direct_io;
        cpu_policy = pod_cpu_policy pod.resources;
      }

  abbrev pub run_image : Reply String → Pod → VmSpec → Io Booted
  run_image (ok image) pod spec = do
    v ← call env env.vm (vm_run (run_options pod spec image))
    pure (booted "" (explain "run vm " spec.vm_name v))
  run_image not_found pod spec = pure (err (after "ensure image " spec.image "not found"))
  run_image (err e) pod spec = pure (err (after "ensure image " spec.image e))

  abbrev pub clone_based : Option String → Option Snapshot → String → VmSpec → CpuPolicy → Io Booted
  clone_based (some e) s name spec policy = pure (err e)
  clone_based none s name spec policy =
      clone_with
        (record (clone_options_for m settings spec policy) {
          from = name;
          pull = not (is_empty (image_of s));
        })
        (cloning spec " from ") name (image_of s)

  abbrev pub clone_image : Reply (Option Snapshot) → String → VmSpec → CpuPolicy → Io Booted
  clone_image (ok s) name spec policy = elim (is_foreign s spec.backend) [
    | true ↦ pure (err (after (cloning spec " from ") name "taken with another backend"))
    | false ↦ do e ← ensure_snapshot_base_image m settings env s; clone_based e s name spec policy
  ]
  clone_image not_found name spec policy = pure (err (after "ensure snapshot " name "not found"))
  clone_image (err e) name spec policy = pure (err (after "ensure snapshot " name e))

  unfoldable pub run_vm : Pod → VmSpec → Io Booted
  run_vm pod spec = do
    image ← ensure_run_image m settings env spec.image spec.force_pull
    run_image image pod spec

  unfoldable pub clone_from_image : VmSpec → CpuPolicy → Io Booted
  clone_from_image spec policy = do
    let (repo, tag) = m.parse_ref spec.image
    let name = local_snapshot_name m repo tag
    s ← ensure_snapshot m settings env repo tag name
    clone_image s name spec policy

  unfoldable pub clone_from_fork : VmSpec → CpuPolicy → Io Booted
  clone_from_fork spec policy = do
    name ← ensure_fork_snapshot m settings env spec.fork_from
    clone_fork name spec policy

  -- The boot of a VM that no hibernate snapshot belongs to.
  unfoldable pub boot_fresh : Pod → VmSpec → CpuPolicy → String → Io Booted
  boot_fresh pod spec policy dir =
      if not (is_empty dir)
      then clone_from_dir spec policy dir
      else if not (is_empty spec.fork_from)
      then clone_from_fork spec policy
      else if is_run_mode m spec
      then run_vm pod spec
      else clone_from_image spec policy

  abbrev pub restore_source : Reply WakeSource → VmSpec → CpuPolicy → Io Booted
  restore_source (ok s) spec policy = do
    v ← clone_from_hibernate m settings env spec s policy
    pure (booted "" v)
  restore_source not_found spec policy = pure not_found
  restore_source (err e) spec policy = pure (err e)

  abbrev pub boot_or_restore : Bool → Pod → VmSpec → CpuPolicy → String → Io Booted
  boot_or_restore true pod spec policy dir = do
    s ← resolve_wake_source m settings env spec.vm_name
    restore_source s spec policy
  boot_or_restore false pod spec policy dir = do
    tell env (snapshot_remove (fork_snapshot_name spec.vm_name))
    boot_fresh pod spec policy dir

  abbrev pub boot_managed : Reply String → Pod → VmSpec → Io Booted
  boot_managed (ok dir) pod spec =
      boot_or_restore (m.read_restore_from_hibernate pod) pod spec (pod_cpu_policy pod.resources)
        dir
  boot_managed not_found pod spec = pure not_found
  boot_managed (err e) pod spec = pure (err e)

  abbrev pre_assigned : String → String → VmSpec → Tables → Tables × Vm
  pre_assigned id ip spec t = (
    record t { next_object = suc t.next_object },
    record {
      object = t.next_object;
      id = id;
      name = spec.vm_name;
      hypervisor = "";
      state = state_running;
      ip = ip;
      mac = "";
      pid = 0;
      disk_path = "";
      network_configs = [];
    },
  )

  -- An unmanaged VM exists already: the pod names it.
  unfoldable pub bring_up_unmanaged : Pod → VmSpec → Io Booted
  bring_up_unmanaged pod spec =
      let id = m.runtime_vm_id pod in
      let ip = m.runtime_ip pod in
      elim (is_empty id || is_empty ip) [
        | true ↦ pure (err "unmanaged vm missing pre-assigned IP/VMID")
        | false ↦ do v ← section (pre_assigned id ip spec); pure (ok (v, ""))
      ]

  -- `bringUpVM`.
  unfoldable pub bring_up_vm : Pod → VmSpec → Io Booted
  bring_up_vm pod spec = elim spec.managed [
    | false ↦ bring_up_unmanaged pod spec
    | true ↦ boot_managed (parse_clone_from_dir m pod) pod spec
  ]
