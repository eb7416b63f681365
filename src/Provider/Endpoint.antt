-- ===== src/Provider/Endpoint.antt =====
-- provider/cocoon/create.go and macos.go: the endpoint annotations of a running guest, and the Ready
-- publication of a macOS guest.
use vk_cocoon.Base.{
  ℕ, zero, suc, Bool, true, false, not, ◌&&◌, ◌||◌, Option, none, some, String, ◌==◌, [], ◌∷◌,
  is_empty, if◌then◌else◌,
}
use vk_cocoon.Base.Table.{Table, lookup, insert}
use vk_cocoon.Cli.{decimal}
use vk_cocoon.Kube.{Pod, Meta}
use vk_cocoon.Vm.{Vm, is_macos_vm}
use vk_cocoon.Spec.{text_at}
use vk_cocoon.Provider.State.{Settings, key_of}
use vk_cocoon.Provider.Lifecycle.{lifecycle_already_failed}
use vk_cocoon.Provider.Flush.{
  patch_incarnation_annotations, patch_with_retry, lifecycle_patch_attempts, is_accepted,
  patch_superseded,
}
use vk_cocoon.Provider.Runtime.{refresh_and_notify}
use vk_cocoon.Provider.Ready.{mark_ready_published}
use vk_cocoon.Provider.World.{Env, Io, read_probe, ◌>>=◌, pure, reads, call}

abbrev port_text : Option ℕ → String
port_text none = ""
port_text (some zero) = ""
port_text (some (suc n)) = decimal (suc n)

abbrev patch_value : String → Option String
patch_value desired = if is_empty desired then none else some desired

-- `addAnnotationPatch`.
unfoldable pub add_annotation_patch :
    Table (Option String) → String → String → String → Table (Option String)
add_annotation_patch patch key current desired =
    if current == desired then patch else insert key (patch_value desired) patch

abbrev pub is_nil : Table (Option String) → Bool
is_nil [] = true
is_nil (row ∷ rest) = false

-- `GetPod` hands out a copy, which is not the tracked object.
abbrev pub copied : Option Pod → Option Pod
copied none = none
copied (some pod) = some (record pod { object = 0 })

module _ (m : Meta) (settings : Settings) (env : Env) where
  -- The annotations of the pod that differ from the endpoints of its VM.
  unfoldable pub endpoint_annotations : Pod → String → Option Vm → Option ℕ → Table (Option String)
  endpoint_annotations pod ip v port =
      let given = text_at m.annotation_vnc_port pod.annotations in
      let vnc =
        if is_macos_vm v
        then add_annotation_patch [] m.annotation_vnc_port given (port_text port)
        else [] in
      add_annotation_patch vnc m.annotation_ip (text_at m.annotation_ip pod.annotations) ip

  -- `reconcileRuntimeEndpoints`: `false` when a newer incarnation owns the name.
  unfoldable pub reconcile_runtime_endpoints : Pod → String → Io Bool
  reconcile_runtime_endpoints pod ip = do
    v ← reads (λ t. lookup (key_of m pod) t.vms_by_pod)
    port ← reads (λ t. lookup (key_of m pod) t.macos_vnc)
    let annos = endpoint_annotations pod ip v port
    elim (is_nil annos) [
      | true ↦ pure true
      | false ↦ do
        r ←
            patch_with_retry m settings env lifecycle_patch_attempts
              (patch_incarnation_annotations m settings env (key_of m pod) pod.uid annos)
        pure (is_accepted r || not (patch_superseded r))
    ]

  abbrev pub publish_owned : Bool → Pod → Io (Unit {0})
  publish_owned false pod = pure tt
  publish_owned true pod = mark_ready_published m settings env pod

  abbrev pub publish_bound : Option Vm → Pod → Io (Unit {0})
  publish_bound none pod = mark_ready_published m settings env pod
  publish_bound (some v) pod = do
    owned ← reconcile_runtime_endpoints pod v.ip
    publish_owned owned pod

  abbrev pub publish_if : Bool → Pod → Io (Unit {0})
  publish_if false pod = do _ ← refresh_and_notify m settings env pod; pure tt
  publish_if true pod = do v ← reads (λ t. lookup (key_of m pod) t.vms_by_pod); publish_bound v pod

  abbrev pub is_probed : Bool → String → Io Bool
  is_probed false key = pure false
  is_probed true key = do r ← call env env.probe (read_probe key); pure r.0

  abbrev pub publish_pod : Option Pod → String → Io (Unit {0})
  publish_pod none key = pure tt
  publish_pod (some pod) key = do
    ready ← is_probed settings.has_probes key
    broken ← reads (lifecycle_already_failed m pod)
    publish_if (ready && not broken) pod

  -- `publishMacosReadiness`: the endpoints are published before Ready.
  unfoldable pub publish_macos_readiness : String → Io (Unit {0})
  publish_macos_readiness key = do
    pod ← reads (λ t. copied (lookup key t.pods))
    publish_pod pod key
