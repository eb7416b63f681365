-- ===== src/Provider/Evidence/Rules.antt =====
-- When a pod may boot afresh, restore or be adopted (provider/cocoon/create.go, compatibility.go).
use vk_cocoon.Base.{
  ◌∷◌, ◌≡◌, ◌↔◌, ◌⊎◌, inl, inr, Bool-cases, refl, sym, arith, Bool, true, false, not, ◌||◌, Option,
  none, some, String, eq_iff,
}
use vk_cocoon.Base.Table.{lookup, lookup-delete_self}
use vk_cocoon.Kube.{Pod, VmSpec, Meta}
use vk_cocoon.Base.Text.{trim_space}
use vk_cocoon.Vm.{Vm, Snapshot, Reply, ok, not_found, err, is_macos_vm}
use vk_cocoon.Spec.{text_at, has_explicit_clone_source}
use vk_cocoon.Provider.State.{Tables, Settings}
use vk_cocoon.Provider.World.{call, Manifest, get_manifest, snapshot_inspect, Env, World}
use vk_cocoon.Provider.Evict.{inspect_with_retry, inline_inspect_attempts}
use vk_cocoon.Provider.Evidence.{
  compatible, assert_pod_snapshot_compatibility, is_terminal, HibernateEvidence, absent, found,
  unavailable, fresh, restore, Adoption, adopt, afresh, hibernate_evidence, decide,
  derive_restore_from_evidence, adoptable_vm, adopt_indexed, adopt_guest, adopt_seen, inconclusive,
  evidence_of_manifest, evidence_of_snapshot, drop_gone, same_object,
}

-- A pod passes exactly when it has ended, asks for no class, or asks for the class of the node.
pub assert_pod_snapshot_compatibility-passes :
    (m : Meta) (settings : Settings) (pod : Pod)
    → (assert_pod_snapshot_compatibility m settings pod ≡ compatible) ↔ (
        (is_terminal pod.status.phase ≡ true)
        ⊎ ((text_at m.label_snapshot_compatibility_class pod.node_selector ≡ "")
            ⊎ (text_at m.label_snapshot_compatibility_class pod.node_selector
                ≡ settings.snapshot_compatibility_class)))
unfolding assert_pod_snapshot_compatibility
assert_pod_snapshot_compatibility-passes m settings pod =
    let requested = text_at m.label_snapshot_compatibility_class pod.node_selector in
    let given = settings.snapshot_compatibility_class in
    (
      ground (arith, eq_iff requested "", eq_iff given "", eq_iff requested given),
      ground (arith, eq_iff requested "", eq_iff given "", eq_iff requested given),
    )

module _ (m : Meta) (pod : Pod) (spec : VmSpec) (marked : Bool) where
  -- The evidence is of a snapshot that this pod may restore.
  abbrev Approves : HibernateEvidence → Type 0
  Approves absent = ⊥
  Approves (found image) =
      ((image ≡ "") ⊎ (image ≡ spec.image))
      × ((marked ≡ true) ⊎ (has_explicit_clone_source m pod spec ≡ false))
  Approves (unavailable e) = ⊥

  -- The operator asked for the restore, or the pod names no clone source of its own: neither a
  -- directory nor a VM to fork.
  abbrev pub MayRestore : Type 0
  MayRestore =
      (marked ≡ true)
      ⊎ ((trim_space (text_at m.annotation_clone_from_dir pod.annotations) ≡ "")
          × (spec.fork_from ≡ ""))

module _ (m : Meta) (settings : Settings) (env : Env) (pod : Pod) (spec : VmSpec)
    (marked : Bool) where
  decide-fresh :
      (ev : HibernateEvidence) → (decide m settings env pod spec marked ev ≡ fresh) ↔ (ev ≡ absent)
  decide-fresh absent = (λ h. refl, λ h. refl)
  decide-fresh (found image) = ground arith
  decide-fresh (unavailable e) = ground arith

  decide-restore :
      (ev : HibernateEvidence)
      → (decide m settings env pod spec marked ev ≡ restore) ↔ Approves m pod spec marked ev
  decide-restore absent = ground arith
  decide-restore (found image) = (
    ground (arith, eq_iff image "", eq_iff image spec.image),
    ground (arith, eq_iff image "", eq_iff image spec.image),
  )
  decide-restore (unavailable e) = ground arith

  -- The registry, or the local store where no registry is configured, answers that it has no
  -- hibernate snapshot of the VM.
  abbrev pub HasNone : World → Type 0
  HasNone w =
      ((settings.has_registry ≡ true)
        × (env.manifest (get_manifest spec.vm_name ∷ w.log) ≡ Reply.not_found))
      ⊎ ((settings.has_registry ≡ false)
          × (env.snapshot (snapshot_inspect spec.vm_name ∷ w.log) ≡ Reply.not_found))

  hibernate_evidence-absent :
      (w : World) → ((hibernate_evidence m settings env spec.vm_name w).0 ≡ absent) ↔ HasNone w
  unfolding hibernate_evidence call
  hibernate_evidence-absent w = ground arith

  -- The registry's manifest, or without a registry the local snapshot, where there is one.
  abbrev manifest_at : World → Reply Manifest
  manifest_at w = env.manifest (get_manifest spec.vm_name ∷ w.log)

  abbrev snapshot_at : World → Reply Snapshot
  snapshot_at w = env.snapshot (snapshot_inspect spec.vm_name ∷ w.log)

  -- There is a hibernate snapshot of the VM, and its manifest, if it has one, names no other image.
  abbrev pub HasFitting : World → Type 0
  HasFitting w =
      ((settings.has_registry ≡ true)
        × ((man : Manifest) × (manifest_at w ≡ ok man)
            × ((man.base_image ≡ "") ⊎ (man.base_image ≡ spec.image))))
      ⊎ ((settings.has_registry ≡ false) × ((s : Snapshot) × (snapshot_at w ≡ ok s)))

  no_source : (has_explicit_clone_source m pod spec ≡ false) ↔ (
      (trim_space (text_at m.annotation_clone_from_dir pod.annotations) ≡ "")
      × (spec.fork_from ≡ ""))
  unfolding has_explicit_clone_source
  no_source =
      let dir = trim_space (text_at m.annotation_clone_from_dir pod.annotations) in
      (
        ground (arith, eq_iff dir "", eq_iff spec.fork_from ""),
        ground (arith, eq_iff dir "", eq_iff spec.fork_from ""),
      )

  registered :
      (w : World)
      → settings.has_registry ≡ true
      → (hibernate_evidence m settings env spec.vm_name w).0 ≡ evidence_of_manifest (manifest_at w)
  unfolding hibernate_evidence call
  registered w h = ground (arith, h)

  unregistered :
      (w : World)
      → settings.has_registry ≡ false
      → (hibernate_evidence m settings env spec.vm_name w).0 ≡ evidence_of_snapshot (snapshot_at w)
  unfolding hibernate_evidence call
  unregistered w h = ground (arith, h)

  to_may :
      ((marked ≡ true) ⊎ (has_explicit_clone_source m pod spec ≡ false))
      → MayRestore m pod spec marked
  to_may (inl h) = inl h
  to_may (inr h) = inr (no_source.0 h)

  from_may :
      MayRestore m pod spec marked
      → (marked ≡ true) ⊎ (has_explicit_clone_source m pod spec ≡ false)
  from_may (inl h) = inl h
  from_may (inr h) = inr (no_source.1 h)

  manifest-fits :
      (r : Reply Manifest)
      → Approves m pod spec marked (evidence_of_manifest r)
      → ((man : Manifest) × (r ≡ ok man) × ((man.base_image ≡ "") ⊎ (man.base_image ≡ spec.image)))
        × MayRestore m pod spec marked
  manifest-fits (ok man) (fits, may) = ((man, refl, fits), to_may may)
  manifest-fits not_found h = absurd h
  manifest-fits (err e) h = absurd h

  snapshot-fits :
      (r : Reply Snapshot)
      → Approves m pod spec marked (evidence_of_snapshot r)
      → ((s : Snapshot) × (r ≡ ok s)) × MayRestore m pod spec marked
  snapshot-fits (ok s) (fits, may) = ((s, refl), to_may may)
  snapshot-fits not_found h = absurd h
  snapshot-fits (err e) h = absurd h

  to_fitting :
      (w : World)
      → Approves m pod spec marked (hibernate_evidence m settings env spec.vm_name w).0
      → HasFitting w × MayRestore m pod spec marked
  to_fitting w h = elim (Bool-cases settings.has_registry) [
    | inl e ↦
        let (fits, may) = manifest-fits (manifest_at w) (rw (sym (registered w e)) h) in
        (inl (e, fits), may)
    | inr e ↦
        let (kept, may) = snapshot-fits (snapshot_at w) (rw (sym (unregistered w e)) h) in
        (inr (e, kept), may)
  ]

  from_fitting :
      (w : World)
      → HasFitting w
      → MayRestore m pod spec marked
      → Approves m pod spec marked (hibernate_evidence m settings env spec.vm_name w).0
  from_fitting w (inl (r, (man, e, fits))) may = rw (registered w r) (rw e (fits, from_may may))
  from_fitting w (inr (r, (s, e))) may = rw (unregistered w r) (rw e (inl refl, from_may may))

  -- Whatever the registry and the local store answer, the pod may boot afresh exactly when they
  -- answer that there is no hibernate snapshot of its VM, never because the question failed; and it
  -- restores exactly when they answer that there is one, whose manifest names the pod's image or none,
  -- and either the operator asked for the restore or the pod names no clone source of its own, neither
  -- a directory nor a VM to fork.
  pub derive_restore-decides :
      (w : World)
      → let answer = (derive_restore_from_evidence m settings env pod spec marked w).0.1 in
        ((answer ≡ fresh) ↔ HasNone w)
        × ((answer ≡ restore) ↔ (HasFitting w × MayRestore m pod spec marked))
  unfolding derive_restore_from_evidence
  derive_restore-decides w =
      let ev = (hibernate_evidence m settings env spec.vm_name w).0 in
      let (to_absent, from_absent) = decide-fresh ev in
      let (to_none, from_none) = hibernate_evidence-absent w in
      let (to_approved, from_approved) = decide-restore ev in
      (
        (λ h. to_none (to_absent h), λ h. from_absent (from_none h)),
        (λ h. to_fitting w (to_approved h), λ h. from_approved (from_fitting w h.0 h.1)),
      )

-- What an adoption may answer about the VM that the index had under the name, with the tables that it
-- leaves: that VM, if it is no macOS guest; or to create one, and then the index names the gone VM no more.
abbrev pub Follows : String → Option Vm → Adoption → Tables → Type 0
Follows name indexed (adopt v) t = (indexed ≡ some v) × (is_macos_vm (some v) ≡ false)
Follows name none afresh t = Unit {0}
Follows name (some v) afresh t =
    (is_macos_vm (some v) || not (same_object v (lookup name t.vms_by_name))) ≡ true
Follows name indexed (inconclusive e) t = Unit {0}

drop_gone-gone :
    (name : String) (v : Vm) (t : Tables)
    → same_object v (lookup name (drop_gone name v t).vms_by_name) ≡ false
unfolding drop_gone
drop_gone-gone name v t = ground (arith, lookup-delete_self name t.vms_by_name)

module _ (m : Meta) (settings : Settings) (env : Env) where
  adopt_seen-Follows :
      (r : Reply Vm) (name : String) (v : Vm) (w : World)
      → is_macos_vm (some v) ≡ false
      → let a = adopt_seen m settings env r name v w in Follows name (some v) a.0 a.1.tables
  adopt_seen-Follows (ok u) name v w h = (refl, h)
  adopt_seen-Follows not_found name v w h = ground (arith, drop_gone-gone name v w.tables)
  adopt_seen-Follows (err e) name v w h = tt

  adopt_guest-Follows :
      (b : Bool) (name : String) (v : Vm) (w : World)
      → is_macos_vm (some v) ≡ b
      → let a = adopt_guest m settings env b name v w in Follows name (some v) a.0 a.1.tables
  adopt_guest-Follows true name v w h = ground arith
  adopt_guest-Follows false name v w h =
      let (r, w') = inspect_with_retry m settings env inline_inspect_attempts v.id w in
      adopt_seen-Follows r name v w' h

  adopt_indexed-Follows :
      (indexed : Option Vm) (name : String) (w : World)
      → let a = adopt_indexed m settings env indexed name w in Follows name indexed a.0 a.1.tables
  adopt_indexed-Follows none name w = tt
  adopt_indexed-Follows (some v) name w = adopt_guest-Follows (is_macos_vm (some v)) name v w refl

  -- Whatever the calls answer and other goroutines do, only the VM that the index had under the name
  -- is adopted, and never a macOS guest; and when a VM is to be created, because the indexed one is
  -- gone, the index no longer has that one under the name.
  pub adoptable_vm-Follows :
      (name : String) (w : World)
      → let a = adoptable_vm m settings env name w in
        Follows name (lookup name w.tables.vms_by_name) a.0 a.1.tables
  unfolding adoptable_vm
  adoptable_vm-Follows name w = adopt_indexed-Follows (lookup name w.tables.vms_by_name) name w
