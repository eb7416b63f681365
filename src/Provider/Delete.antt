-- ===== src/Provider/Delete.antt =====
-- provider/cocoon/delete.go, with snapshot.go's saves and macos.go's delete: what `DeletePod` does
-- under the pod's lock.
pub mod Claim
pub mod Careful
use vk_cocoon.Base.{
  ℕ, Bool, true, false, not, ◌&&◌, ◌||◌, Option, none, some, String, List, ◌==◌, ◌∷◌, [], is_empty,
  is_some, or_text, if◌then◌else◌,
}
use vk_cocoon.Base.Table.{lookup, contains}
use Prim.Native.String.{◌++◌ as append_text}
use vk_cocoon.Kube.{Pod, PodStatus, Phase, VmSpec, Meta}
use vk_cocoon.Vm.{Vm, Reply, ok, not_found, err, state_running, apply_macos_record, macos_vm_id}
use vk_cocoon.Spec.{is_macos_spec}
use vk_cocoon.Provider.State.{Tables, Settings, DeleteClaim, key_of}
use vk_cocoon.Provider.Track.{claim_deleting, finish_deleting}
use vk_cocoon.Provider.Resume.{is_resuming}
use vk_cocoon.Provider.World.{
  Env, Io, Effect, vm_inspect, snapshot_save, snapshot_push, snapshot_remove, macos_inspect,
  macos_remove, forget_probe, ◌>>=◌, ◌>>◌, pure, locked, reads, section, call, tell,
}
use vk_cocoon.Provider.Runtime.{remove_vm, release_dhcp_leases, notify_pod, forget_pod}

-- Why a delete failed; after `kept_vm` the VM is still there.
pub data DeleteError : Type 0 where
  in_flight resuming : DeleteError
  kept_vm : String → DeleteError

abbrev pub fork_snapshot_name : String → String
fork_snapshot_name name = append_text "fork-" name

abbrev succeeded_pod : Pod → Pod
succeeded_pod pod = record pod { status = record pod.status { phase = Phase.succeeded } }

abbrev macos_name : VmSpec → Option Vm → String
macos_name spec none = spec.vm_name
macos_name spec (some v) = or_text v.name spec.vm_name

-- The VM of a guest that is not bound, of which only the id is set.
abbrev unnamed_guest : String → Vm
unnamed_guest id = record {
  object = 0;
  id = id;
  name = "";
  hypervisor = "";
  state = "";
  ip = "";
  mac = "";
  pid = 0;
  disk_path = "";
  network_configs = [];
}

module _ (m : Meta) (settings : Settings) (env : Env) where
  -- `removeLocalSnapshots`: the two removals run side by side in the source.
  unfoldable pub remove_local_snapshots : String → Io (Unit {0})
  remove_local_snapshots name =
      if is_empty name
      then pure tt
      else do tell env (snapshot_remove name); tell env (snapshot_remove (fork_snapshot_name name))

  -- `saveAndPush`; the result is the error, if any.
  unfoldable pub save_and_push :
      Pod → String → String → String → String → String → Io (Option String)
  save_and_push pod vm_id name repo tag image = do
    saved ← call env env.done (snapshot_save name vm_id)
    elim saved [
      | not_found ↦ pure (some "not found")
      | err e ↦ pure (some e)
      | ok _ ↦ do
        pushed ←
            call env env.done (snapshot_push name repo tag image (m.read_snapshot_annotations pod))
        elim pushed [
          | ok _ ↦ pure none
          | not_found ↦ pure (some "not found")
          | err e ↦ pure (some e)
        ]
    ]

  -- `saveAndPushSnapshot`: a VM that does not run has no state to save.
  unfoldable pub save_and_push_snapshot : Pod → Vm → String → String → Io (Option String)
  save_and_push_snapshot pod v tag image = do
    current ← call env env.vm (vm_inspect v.id)
    elim current [
      | not_found ↦ pure none
      | err e ↦ pure (some e)
      | ok c ↦ elim (c.state == state_running) [
        | true ↦ save_and_push pod v.id v.name "" tag image
        | false ↦ pure none
      ]
    ]

  -- The pod is forgotten, and reported as ended.
  abbrev end_pod : Pod → Io (Option DeleteError)
  end_pod pod = do
    forget_pod m settings env (key_of m pod)
    notify_pod m settings env (succeeded_pod pod)
    pure none

  -- The VM that `vm rm` names when none is bound: what the record of the guest says of it.
  abbrev macos_vm : Option Vm → String → Io Vm
  macos_vm (some v) name = pure v
  macos_vm none name = do
    rec ← call env env.macos_record (macos_inspect name)
    pure (apply_macos_record rec (unnamed_guest (macos_vm_id name)))

  abbrev forget_if_probed : String → Io (Unit {0})
  forget_if_probed key = if settings.has_probes then tell env (forget_probe key) else pure tt

  abbrev after_macos_remove : Reply (Unit {0}) → Vm → Pod → Io (Option DeleteError)
  after_macos_remove (err e) v pod = pure (some (DeleteError.kept_vm e))
  after_macos_remove not_found v pod = do release_dhcp_leases m settings env v; end_pod pod
  after_macos_remove (ok _) v pod = do release_dhcp_leases m settings env v; end_pod pod

  -- `deleteMacosPod`; a guest that `vm rm` does not find counts as removed.
  unfoldable pub delete_macos_pod : Pod → VmSpec → Io (Option DeleteError)
  delete_macos_pod pod spec = do
    bound ← reads (λ t. lookup (key_of m pod) t.vms_by_pod)
    elim (is_empty (macos_name spec bound)) [
      | true ↦ do forget_pod m settings env (key_of m pod); pure none
      | false ↦ do
        v ← macos_vm bound (macos_name spec bound)
        forget_if_probed (key_of m pod)
        r ← call env env.done (macos_remove (macos_name spec bound))
        after_macos_remove r v pod
    ]

  abbrev drop_snapshots : Bool → String → Io (Unit {0})
  drop_snapshots true name = pure tt
  drop_snapshots false name = remove_local_snapshots name

  abbrev after_removal : Option String → Pod → Vm → Io (Option DeleteError)
  after_removal (some e) pod v = pure (some (DeleteError.kept_vm e))
  after_removal none pod v = do
    drop_snapshots (m.read_keep_snapshot_on_delete pod) v.name
    end_pod pod

  abbrev after_save : Option String → Pod → Vm → Io (Option DeleteError)
  after_save (some e) pod v = pure (some (DeleteError.kept_vm e))
  after_save none pod v = do e ← remove_vm m settings env v; after_removal e pod v

  -- Whether the VM is saved and pushed before it is removed.
  unfoldable pub wants_snapshot : VmSpec → Pod → Vm → Bool
  wants_snapshot spec pod v =
      m.should_snapshot_vm spec pod && settings.has_pusher && not (is_empty v.name)

  abbrev save_if : Bool → Pod → VmSpec → Vm → Io (Option String)
  save_if true pod spec v = save_and_push_snapshot pod v m.default_snapshot_tag spec.image
  save_if false pod spec v = pure none

  abbrev delete_bound : Option Vm → Pod → VmSpec → Io (Option DeleteError)
  delete_bound none pod spec = do
    drop_snapshots (m.read_keep_snapshot_on_delete pod) spec.vm_name
    forget_pod m settings env (key_of m pod)
    pure none
  delete_bound (some v) pod spec = do
    e ← save_if (wants_snapshot spec pod v) pod spec v
    after_save e pod v

  abbrev delete_held : Bool → Pod → VmSpec → Io (Option DeleteError)
  delete_held true pod spec = pure (some DeleteError.resuming)
  delete_held false pod spec = elim (is_macos_spec m spec) [
    | true ↦ delete_macos_pod pod spec
    | false ↦ elim spec.managed [
      | false ↦ do forget_pod m settings env (key_of m pod); pure none
      | true ↦ do
        bound ← reads (λ t. lookup (key_of m pod) t.vms_by_pod)
        delete_bound bound pod spec
    ]
  ]

  -- What `deletePod` does once it holds the claim.
  unfoldable pub delete_claimed : Pod → Io (Option DeleteError)
  delete_claimed pod = do
    held ← reads (is_resuming (key_of m pod))
    delete_held held pod (m.parse_vm_spec pod)

  abbrev on_claim : DeleteClaim → Pod → Io (Option DeleteError)
  on_claim DeleteClaim.superseded pod = pure none
  on_claim DeleteClaim.in_flight pod = pure (some DeleteError.in_flight)
  on_claim DeleteClaim.claimed pod = do
    e ← delete_claimed pod
    locked (finish_deleting (key_of m pod))
    pure e

  -- `deletePod`; `none` is success.
  unfoldable pub delete_pod : Pod → Io (Option DeleteError)
  delete_pod pod = do claim ← section (claim_deleting (key_of m pod) pod.uid); on_claim claim pod
