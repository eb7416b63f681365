-- ===== src/Provider/Macos/Create.antt =====
-- provider/cocoon/macos.go: how the guest of a macOS pod is adopted or launched, in `CreatePod` and at
-- startup.
use vk_cocoon.Base.{
  ℕ, suc, Bool, true, false, ◌&&◌, Option, none, some, String, List, ◌==◌, is_empty,
}
use vk_cocoon.Base.Table.{lookup, insert}
use vk_cocoon.Kube.{Pod, VmSpec, Meta}
use vk_cocoon.Vm.{
  Vm, Reply, ok, not_found, err, MacosVmRecord, apply_macos_record, macos_vm_named, is_macos_vm,
}
use vk_cocoon.Provider.State.{Tables, Settings, key_of}
use vk_cocoon.Provider.Lifecycle.{seed_lifecycle_intent}
use vk_cocoon.Provider.Runtime.{bind_runtime}
use vk_cocoon.Provider.Ready.{lift_hibernate_failure}
use vk_cocoon.Provider.Wake.{start_probe_if_enabled}
use vk_cocoon.Provider.Endpoint.{copied, reconcile_runtime_endpoints, publish_macos_readiness}
use vk_cocoon.Provider.Create.{CreateError, failed, fail_create, seed_lease_ip, mark_pod_running}
use vk_cocoon.Provider.Macos.Vnc.{claim_macos_vnc_port, adopt_macos_vnc_port}
use vk_cocoon.Provider.Macos.Launch.{
  macos_run_args, record_alive, start_macos_vm, ensure_macos_image,
}
use vk_cocoon.Provider.World.{
  Env, Io, macos_inspect, macos_run, read_probe, ◌>>=◌, ◌>>◌, pure, locked, reads, section, call,
}

abbrev pub Created : Type 0
Created = Option CreateError

abbrev is_named : String → Option Vm → Bool
is_named name none = false
is_named name (some v) = is_macos_vm (some v) && v.name == name

-- `macosAlreadyTracked`.
unfoldable pub macos_already_tracked : String → String → Tables → Bool
macos_already_tracked key name t = is_named name (lookup key t.vms_by_pod)

abbrev pub new_guest : String → Tables → Tables × Vm
new_guest name t = (record t { next_object = suc t.next_object }, macos_vm_named t.next_object name)

-- The section of `reconcileMacosPod` for a guest whose process is dead.
unfoldable pub note_leftover : String → String → Tables → Tables
note_leftover key uid t = record t { macos_leftover = insert key uid t.macos_leftover }

module _ (m : Meta) (settings : Settings) (env : Env) where
  -- `startMacosProbe`: the agent's probe differs from that of a cloud guest, its start does not.
  abbrev start_macos_probe : Pod → Io (Unit {0})
  start_macos_probe pod = start_probe_if_enabled m settings env pod

  abbrev pub publish_current : Option Pod → Vm → Io (Unit {0})
  publish_current none v = pure tt
  publish_current (some pod) v = do _ ← reconcile_runtime_endpoints m settings env pod v.ip; pure tt

  abbrev pub after_bind : Pod × Bool → Vm → Io (Pod × Bool)
  after_bind (pod, false) v = pure (pod, false)
  after_bind (pod, true) v = do
    current ← reads (λ t. copied (lookup (key_of m pod) t.pods))
    publish_current current v
    start_macos_probe pod
    pure (pod, true)

  -- `registerMacosVM`: `false` when another incarnation owns the key.
  unfoldable pub register_macos_vm : Pod → VmSpec → Option MacosVmRecord → ℕ → Io (Pod × Bool)
  register_macos_vm pod spec rec port = do
    guest ← section (new_guest spec.vm_name)
    v ← seed_lease_ip m settings env (apply_macos_record rec guest)
    r ← bind_runtime m settings env pod v port
    after_bind r v

  abbrev pub inspect_guest : String → Io (Option MacosVmRecord)
  inspect_guest name = call env env.macos_record (macos_inspect name)

  abbrev pub probe_seen_if : Bool → String → Io Bool
  probe_seen_if false key = pure false
  probe_seen_if true key = call env env.probe_seen (read_probe key)

  abbrev pub restart_unless_seen : Bool → Pod → Io (Unit {0})
  restart_unless_seen true pod = pure tt
  restart_unless_seen false pod = start_macos_probe pod

  -- A second create of a tracked guest: a live probe agent is kept.
  unfoldable pub readopt_macos_pod : Pod → Io Created
  readopt_macos_pod pod = do
    seen ← probe_seen_if settings.has_probes (key_of m pod)
    restart_unless_seen seen pod
    publish_macos_readiness m settings env (key_of m pod)
    pure none

  abbrev pub finish_registered : Pod × Bool → Io Created
  finish_registered (pod, false) = pure none
  finish_registered (pod, true) = do
    pod' ← mark_pod_running m settings env pod
    publish_macos_readiness m settings env (key_of m pod')
    pure none

  unfoldable pub register_created : Pod → VmSpec → Option MacosVmRecord → ℕ → Io Created
  register_created pod spec rec port = do
    r ← register_macos_vm pod spec rec port
    finish_registered r

  -- The answer of `vm run` or `vm start`: the guest is inspected anew.
  abbrev pub after_launch : Reply (Unit {0}) → Pod → VmSpec → ℕ → Io Created
  after_launch not_found pod spec port =
      fail_create m settings env pod (failed "not found") "not found"
  after_launch (err e) pod spec port = fail_create m settings env pod (failed e) e
  after_launch (ok _) pod spec port = do
    rec ← inspect_guest spec.vm_name
    register_created pod spec rec port

  abbrev pub run_with : Option (List String) → Pod → VmSpec → ℕ → Io Created
  run_with none pod spec port =
      fail_create m settings env pod (failed "COCOON_MACOS_VNC_PASSWORD")
        "COCOON_MACOS_VNC_PASSWORD"
  run_with (some args) pod spec port = do
    r ← call env env.done (macos_run spec.vm_name args)
    after_launch r pod spec port

  abbrev pub run_image : Option String → Pod → VmSpec → ℕ → Io Created
  run_image (some e) pod spec port = fail_create m settings env pod (failed e) e
  run_image none pod spec port = run_with (macos_run_args m settings pod spec port) pod spec port

  -- No record: a new guest.
  unfoldable pub launch_macos : Pod → VmSpec → ℕ → Io Created
  launch_macos pod spec port = do
    e ← ensure_macos_image settings env spec.image
    run_image e pod spec port

  -- A record without a process.
  unfoldable pub restart_macos : Pod → VmSpec → ℕ → Io Created
  restart_macos pod spec port = do
    r ← start_macos_vm settings env spec.vm_name port
    after_launch r pod spec port

  abbrev pub claim_section : Pod → Tables → Tables × ℕ
  claim_section pod = claim_macos_vnc_port settings (key_of m pod) (m.runtime_vnc_port pod)

  abbrev pub on_record : Option MacosVmRecord → Bool → Pod → VmSpec → Io Created
  on_record none alive pod spec = do port ← section (claim_section pod); launch_macos pod spec port
  on_record (some rec) true pod spec = do
    port ← section (adopt_macos_vnc_port (key_of m pod) rec.vnc)
    register_created pod spec (some rec) port
  on_record (some rec) false pod spec = do
    port ← section (claim_section pod)
    restart_macos pod spec port

  unfoldable pub create_untracked_macos : Pod → VmSpec → Io Created
  create_untracked_macos pod spec = do
    rec ← inspect_guest spec.vm_name
    alive ← record_alive settings env rec
    on_record rec alive pod spec

  -- `createMacosPod`.
  unfoldable pub create_macos_pod : Pod → VmSpec → Io Created
  create_macos_pod pod spec = elim (is_empty spec.image) [
    | true ↦ fail_create m settings env pod (failed "missing image") "missing image"
    | false ↦ do
      tracked ← reads (macos_already_tracked (key_of m pod) spec.vm_name)
      elim tracked [ true ↦ readopt_macos_pod pod | false ↦ create_untracked_macos pod spec ]
  ]

  abbrev pub lift_unless_hibernating : Bool → Pod → Io (Unit {0})
  lift_unless_hibernating true pod = pure tt
  lift_unless_hibernating false pod = do _ ← lift_hibernate_failure m settings env pod; pure tt

  abbrev pub publish_adopted : Pod × Bool → Io (Unit {0})
  publish_adopted (pod, false) = pure tt
  publish_adopted (pod, true) = do
    lift_unless_hibernating (m.read_hibernate_state pod) pod
    publish_macos_readiness m settings env (key_of m pod)

  abbrev pub on_startup_record : Option MacosVmRecord → Bool → Pod → VmSpec → Io (Unit {0})
  on_startup_record none alive pod spec = pure tt
  on_startup_record (some rec) false pod spec = locked (note_leftover (key_of m pod) pod.uid)
  on_startup_record (some rec) true pod spec = do
    locked (seed_lifecycle_intent m pod)
    port ← section (adopt_macos_vnc_port (key_of m pod) rec.vnc)
    r ← register_macos_vm pod spec (some rec) port
    publish_adopted r

  -- `reconcileMacosPod`.
  unfoldable pub reconcile_macos_pod : Pod → VmSpec → Io (Unit {0})
  reconcile_macos_pod pod spec = elim (is_empty spec.vm_name) [
    | true ↦ pure tt
    | false ↦ do
      rec ← inspect_guest spec.vm_name
      alive ← record_alive settings env rec
      on_startup_record rec alive pod spec
  ]
