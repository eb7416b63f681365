-- ===== src/Provider/Runtime.antt =====
-- provider/cocoon: the steps that the handlers share (delete.go, create.go, provider.go, status.go,
-- observability.go): removing a VM, binding a VM to a pod, publishing annotations and statuses.
use Prim.Native.String.{len, slice}
use vk_cocoon.Base.{
  suc, zero, ℕ, leb, Bool, true, false, not, ◌||◌, Option, none, some, String, List, [], ◌∷◌, ◌==◌,
  is_empty, nat_eq, if◌then◌else◌,
}
use vk_cocoon.Base.Table.{lookup, insert, delete, Table}
use vk_cocoon.Base.Text.{trim_space}
use vk_cocoon.Cli.{decimal}
use vk_cocoon.Kube.{Pod, PodStatus, Meta, is_ready, failed}
use vk_cocoon.Vm.{Vm, NetworkConfig, ok, not_found, err, is_static_nic}
use vk_cocoon.Spec.{annotation_post_clone_state}
use vk_cocoon.Provider.State.{Tables, Settings, key_of}
use vk_cocoon.Provider.Track.{
  is_superseded, track_pod_incarnation, detach_incarnation, set_vm_ip, untrack,
}
use vk_cocoon.Provider.Lifecycle.{stamp_lifecycle_intent}
use vk_cocoon.Provider.Status.{status_with_vm, status_without_vm}
use vk_cocoon.Provider.World.{
  Env, Io, ApiReply, accepted, vm_remove, release_lease, lookup_lease, read_probe, notify,
  forget_probe, ◌>>=◌, ◌>>◌, pure, locked, reads, section, call, tell,
}
use vk_cocoon.Provider.Flush.{
  patch_incarnation_annotations, patch_with_retry, lifecycle_patch_attempts, name_taken,
  mark_lifecycle_state,
}

abbrev own_mac : String → List String
own_mac mac = if is_empty mac then [] else mac ∷ []

unfoldable pub nic_macs : List NetworkConfig → List String
unfolding is_static_nic
nic_macs [] = []
nic_macs (nic ∷ rest) =
    let macs = nic_macs rest in
    let mac = trim_space nic.mac in if is_empty mac || is_static_nic nic then macs else mac ∷ macs

abbrev macs_of : List NetworkConfig → String → List String
macs_of [] mac = own_mac (trim_space mac)
macs_of (nic ∷ rest) mac = nic_macs (nic ∷ rest)

-- `dhcpMACs`: the addresses whose leases are released with the VM.
unfoldable pub dhcp_macs : Vm → List String
unfolding nic_macs
dhcp_macs v = macs_of v.network_configs v.mac

abbrev is_tracked_object : Pod → Option Pod → Bool
is_tracked_object pod none = false
is_tracked_object pod (some tracked) = nat_eq tracked.object pod.object

-- A change to the caller's pod shows in the tables when it is the tracked object.
unfoldable pub store_pod : String → Pod → Tables → Tables
store_pod key pod t =
    if is_tracked_object pod (lookup key t.pods)
    then record t { pods = insert key pod t.pods }
    else t

abbrev pub lifecycle_message_max_bytes : ℕ
lifecycle_message_max_bytes = 4096

-- `truncate` (postclone.go) cuts at a number of bytes; a character that the cut would split is
-- dropped whole.
unfoldable pub truncate : String → ℕ → String
truncate s n = if leb (len s) n then s else slice s 0 n

unfoldable pub without_runtime : Meta → Pod → Pod
without_runtime m pod = record pod {
  annotations =
      delete annotation_post_clone_state
        (delete m.annotation_ip (delete m.annotation_vm_id pod.annotations));
}

-- The annotations of a runtime that `applyVMRuntime` patches.
abbrev pub runtime_annotations : Meta → String → String → ℕ → Table (Option String)
runtime_annotations m vm_id ip zero =
    (m.annotation_vm_id, some vm_id) ∷ (m.annotation_ip, some ip) ∷ []
runtime_annotations m vm_id ip (suc port) =
    (m.annotation_vm_id, some vm_id)
    ∷ (m.annotation_ip, some ip)
    ∷ (m.annotation_vnc_port, some (decimal (suc port)))
    ∷ []

-- Those that `clearRuntimeAnnotations` removes.
abbrev pub no_runtime_annotations : Meta → Table (Option String)
no_runtime_annotations m =
    (m.annotation_vm_id, none) ∷ (m.annotation_ip, none) ∷ (annotation_post_clone_state, none) ∷ []

module _ (m : Meta) (settings : Settings) (env : Env) where
  unfoldable pub release_leases : List String → Io (Unit {0})
  release_leases [] = pure tt
  release_leases (mac ∷ rest) = do tell env (release_lease mac); release_leases rest

  -- `releaseDHCPLeases`: a failed release is logged only.
  unfoldable pub release_dhcp_leases : Vm → Io (Unit {0})
  release_dhcp_leases v =
      if settings.has_lease_releaser then release_leases (dhcp_macs v) else pure tt

  -- `removeVM`: a VM that is not there counts as removed. The result is the error, if any.
  unfoldable pub remove_vm : Vm → Io (Option String)
  remove_vm v = do
    r ← call env env.done (vm_remove v.id)
    elim r [
      | ok _ ↦ do release_dhcp_leases v; pure none
      | not_found ↦ do release_dhcp_leases v; pure none
      | err e ↦ pure (some e)
    ]

  -- `notify`: the copy handed over carries the current intent.
  unfoldable pub notify_pod : Pod → Io (Unit {0})
  notify_pod pod = do handoff ← reads (stamp_lifecycle_intent m pod); tell env (notify handoff)

  abbrev has_static_first : List NetworkConfig → Bool
  has_static_first [] = false
  has_static_first (nic ∷ rest) = is_static_nic nic

  abbrev pub leased_ip : String → Vm → String → Io String
  leased_ip key v ip =
      if ip == v.ip
      then pure v.ip
      else do set ← section (set_vm_ip key v.id ip); pure (if set then ip else "")

  -- `resolveVMIP`: the lease is read anew, the tracked address is only a cache.
  unfoldable pub resolve_vm_ip : String → Vm → Io String
  resolve_vm_ip key v =
      if has_static_first v.network_configs || is_empty v.mac || not settings.has_lease_parser
      then pure v.ip
      else do
        lease ← call env env.lease_ip (lookup_lease v.mac)
        elim lease [
          | ok ip ↦ leased_ip key v ip
          | not_found ↦ leased_ip key v ""
          | err e ↦ pure v.ip
        ]

  abbrev pub probe_result : Bool → String → Io (Bool × String)
  probe_result true key = call env env.probe (read_probe key)
  probe_result false key = pure (false, "")

  abbrev pub status_of : String → Pod → Option Vm → Io PodStatus
  status_of key pod none = pure (status_without_vm pod)
  status_of key pod (some v) = do
    ip ← resolve_vm_ip key v
    probe ← probe_result settings.has_probes key
    pure (status_with_vm pod ip probe.0 (is_ready (m.read_lifecycle_state pod)) probe.1)

  abbrev pub status_if_tracked : String → Option Pod → Io (Option PodStatus)
  status_if_tracked key none = pure none
  status_if_tracked key (some pod) = do
    v ← reads (λ t. lookup key t.vms_by_pod)
    status ← status_of key pod v
    pure (some status)

  -- `GetPodStatus`; `none` is its not-found error.
  unfoldable pub get_pod_status : String → Io (Option PodStatus)
  get_pod_status key = do tracked ← reads (λ t. lookup key t.pods); status_if_tracked key tracked

  abbrev pub with_status : Pod → Option PodStatus → Pod
  with_status pod none = pod
  with_status pod (some status) = record pod { status = status }

  unfoldable pub refresh_status : Pod → Io Pod
  refresh_status pod = do
    status ← get_pod_status (key_of m pod)
    let pod' = with_status pod status
    locked (store_pod (key_of m pod) pod')
    pure pod'

  unfoldable pub refresh_and_notify : Pod → Io Pod
  refresh_and_notify pod = do pod' ← refresh_status pod; notify_pod pod'; pure pod'

  -- `forgetPod`, with the probe that goes with it.
  unfoldable pub forget_pod : String → Io (Unit {0})
  forget_pod key = do
    locked (untrack key)
    (if settings.has_probes then tell env (forget_probe key) else pure tt)

  -- `applyVMRuntime`: `false` when another incarnation owns the name.
  unfoldable pub apply_vm_runtime : Pod → String → String → ℕ → Io (Pod × Bool)
  apply_vm_runtime pod vm_id ip vnc_port = do
    taken ← reads (is_superseded (key_of m pod) pod.uid)
    elim taken [
      | true ↦ pure (pod, false)
      | false ↦ do
        let pod' = m.apply_runtime vm_id ip vnc_port pod
        locked (store_pod (key_of m pod) pod')
        r ← patch_with_retry m settings env lifecycle_patch_attempts (
            patch_incarnation_annotations m settings env (key_of m pod) pod.uid
              (runtime_annotations m vm_id ip vnc_port))
        pure (pod', not (name_taken r))
    ]

  abbrev bind_section : Pod → Vm → Tables → Tables × (Pod × Bool)
  bind_section pod v t = let r = track_pod_incarnation m pod (some v) t in (r.0, (r.1, r.2))

  -- `bindRuntime` of a VM with its own id and address.
  unfoldable pub bind_runtime : Pod → Vm → ℕ → Io (Pod × Bool)
  bind_runtime pod v vnc_port = do
    bound ← section (bind_section pod v)
    elim bound.1 [
      | false ↦ pure (pod, false)
      | true ↦ do
        r ← apply_vm_runtime bound.0 v.id v.ip vnc_port
        elim r.1 [
          | true ↦ pure r
          | false ↦ do _ ← section (detach_incarnation (key_of m pod) pod.uid (some v)); pure r
        ]
    ]

  unfoldable pub apply_runtime : Pod → Vm → Io (Pod × Bool)
  apply_runtime pod v = bind_runtime pod v 0

  -- `clearRuntimeAnnotations`: the pod without them, and what the apiserver said.
  unfoldable pub clear_runtime_annotations : Pod → Io (Pod × ApiReply)
  clear_runtime_annotations pod = do
    taken ← reads (is_superseded (key_of m pod) pod.uid)
    elim taken [
      | true ↦ pure (pod, accepted)
      | false ↦ do
        let pod' = without_runtime m pod
        locked (store_pod (key_of m pod) pod')
        r ←
            patch_incarnation_annotations m settings env (key_of m pod) pod.uid
              (no_runtime_annotations m)
        pure (pod', r)
    ]

  -- `failOp`: the failure becomes the pod's lifecycle.
  unfoldable pub fail_op : Pod → String → Io Pod
  fail_op pod message =
      mark_lifecycle_state m settings env pod failed (truncate message lifecycle_message_max_bytes)
