-- ===== src/Provider/Evidence.antt =====
-- provider/cocoon: what `CreatePod` asks before it boots a VM: the snapshot compatibility class
-- (compatibility.go), a VM to adopt, and a hibernate snapshot to restore (create.go).
pub mod Rules
use vk_cocoon.Base.{
  Bool, true, false, not, ◌&&◌, ◌||◌, Option, none, some, String, ◌==◌, is_empty, nat_eq,
  if◌then◌else◌,
}
use vk_cocoon.Base.Table.{Table, lookup, delete}
use vk_cocoon.Kube.{Pod, Phase, VmSpec, Meta}
use vk_cocoon.Vm.{Vm, Reply, ok, not_found, err, Snapshot, is_macos_vm}
use vk_cocoon.Spec.{text_at, has_explicit_clone_source}
use vk_cocoon.Provider.State.{Tables, Settings, key_of}
use vk_cocoon.Provider.World.{
  Env, Io, Manifest, snapshot_inspect, get_manifest, ◌>>=◌, ◌>>◌, pure, locked, reads, call,
}
use vk_cocoon.Provider.Runtime.{store_pod}
use vk_cocoon.Provider.Evict.{inspect_with_retry, inline_inspect_attempts}

abbrev pub is_terminal : Phase → Bool
is_terminal Phase.succeeded = true
is_terminal Phase.failed = true
is_terminal _ = false

pub data Compatibility : Type 0 where
  compatible unclassified differs : Compatibility

-- `assertPodSnapshotCompatibility`; the last two are its errors.
unfoldable pub assert_pod_snapshot_compatibility : Meta → Settings → Pod → Compatibility
assert_pod_snapshot_compatibility m settings pod =
    let requested = text_at m.label_snapshot_compatibility_class pod.node_selector in
    if is_terminal pod.status.phase || is_empty requested
    then compatible
    else if is_empty settings.snapshot_compatibility_class
    then unclassified
    else if requested == settings.snapshot_compatibility_class
    then compatible
    else differs

-- What is known of a hibernate snapshot of a VM name: with the image recorded at push time.
pub data HibernateEvidence : Type 0 where
  absent : HibernateEvidence
  found : String → HibernateEvidence
  unavailable : String → HibernateEvidence

pub data Derived : Type 0 where
  fresh restore : Derived
  source_conflict image_conflict : Derived
  no_evidence : String → Derived

pub data Adoption : Type 0 where
  adopt : Vm → Adoption
  afresh : Adoption
  inconclusive : String → Adoption

-- The row of the index is dropped while it still is the VM that is gone.
abbrev same_object : Vm → Option Vm → Bool
same_object v none = false
same_object v (some u) = nat_eq u.object v.object

unfoldable pub drop_gone : String → Vm → Tables → Tables
drop_gone name v t =
    if same_object v (lookup name t.vms_by_name)
    then record t { vms_by_name = delete name t.vms_by_name }
    else t

abbrev pub evidence_of_snapshot : Reply Snapshot → HibernateEvidence
evidence_of_snapshot (ok s) = found ""
evidence_of_snapshot not_found = absent
evidence_of_snapshot (err e) = unavailable e

abbrev pub evidence_of_manifest : Reply Manifest → HibernateEvidence
evidence_of_manifest (ok man) = found man.base_image
evidence_of_manifest not_found = absent
evidence_of_manifest (err e) = unavailable e

module _ (m : Meta) (settings : Settings) (env : Env) where
  -- `hibernateEvidence`, with `fetchHibernateManifest`; a manifest that does not parse is an error.
  unfoldable pub hibernate_evidence : String → Io HibernateEvidence
  hibernate_evidence name = elim settings.has_registry [
    | false ↦ do r ← call env env.snapshot (snapshot_inspect name); pure (evidence_of_snapshot r)
    | true ↦ do r ← call env env.manifest (get_manifest name); pure (evidence_of_manifest r)
  ]

  abbrev pub decide : Pod → VmSpec → Bool → HibernateEvidence → Derived
  decide pod spec marked (unavailable e) = no_evidence e
  decide pod spec marked absent = fresh
  decide pod spec marked (found image) =
      if not marked && has_explicit_clone_source m pod spec
      then source_conflict
      else (if not (is_empty image) && not (image == spec.image) then image_conflict else restore)

  abbrev pub mark_if : Bool → Derived → Pod → Io Pod
  mark_if false restore pod = do
    let pod' = m.mark_restore_from_hibernate pod
    locked (store_pod (key_of m pod) pod')
    pure pod'
  mark_if _ _ pod = pure pod

  -- `deriveRestoreFromEvidence`; a restore that the operator did not ask for marks the pod.
  unfoldable pub derive_restore_from_evidence : Pod → VmSpec → Bool → Io (Pod × Derived)
  derive_restore_from_evidence pod spec marked = do
    evidence ← hibernate_evidence spec.vm_name
    pod' ← mark_if marked (decide pod spec marked evidence) pod
    pure (pod', decide pod spec marked evidence)

  abbrev pub adopt_seen : Reply Vm → String → Vm → Io Adoption
  adopt_seen (ok seen) name v = pure (adopt v)
  adopt_seen not_found name v = do locked (drop_gone name v); pure afresh
  adopt_seen (err e) name v = pure (inconclusive e)

  -- Whether the indexed VM is a macOS guest comes first.
  abbrev pub adopt_guest : Bool → String → Vm → Io Adoption
  adopt_guest true name v = pure afresh
  adopt_guest false name v = do
    r ← inspect_with_retry m settings env inline_inspect_attempts v.id
    adopt_seen r name v

  abbrev pub adopt_indexed : Option Vm → String → Io Adoption
  adopt_indexed none name = pure afresh
  adopt_indexed (some v) name = adopt_guest (is_macos_vm (some v)) name v

  -- `adoptableVM`.
  unfoldable pub adoptable_vm : String → Io Adoption
  adoptable_vm name = do
    existing ← reads (λ t. lookup name t.vms_by_name)
    adopt_indexed existing name
