-- ===== src/Provider/Sections/Claim.antt =====
-- A delete claim keeps every other handler from tracking a pod under its key (provider.go).
pub mod Writes
pub mod Exclusion
use vk_cocoon.Base.{
  Bool, ◌≡◌, refl, true, false, Option, none, some, String, List, [], ◌∷◌, arith, ◌==◌, eq_iff,
  is_empty, Bool-cases, Option-cases, inl, inr,
}
use vk_cocoon.Base.Seq.{All}
use vk_cocoon.Base.Table.{
  Table, lookup, insert, delete, contains, lookup-insert, lookup-insert_ne, lookup-delete,
  contains-insert, contains-delete,
}
use vk_cocoon.Kube.{Pod, Meta, StatusLaws}
use vk_cocoon.Vm.{Vm}
use vk_cocoon.Provider.State.{Tables, key_of}
use vk_cocoon.Provider.Track.{
  set_vm, drop_vm, untrack, untrack_incarnation, detach_incarnation, index_orphan_by_name,
  track_pod, track_pod_unless_deleting, track_pod_incarnation, update_tracked_vm,
  refresh_keep_snapshot_on_delete, gc_stale_restarts, claim_deleting, claim_deleting_incarnation,
  finish_deleting, reassert_lifecycle, is_deleting,
}
use vk_cocoon.Provider.Lifecycle.{
  apply_lifecycle, seed_lifecycle_intent, record_lifecycle_flushed, drop_superseded_lifecycle,
}
use vk_cocoon.Provider.Lifecycle.Writes.{WriteRequest, write}
use vk_cocoon.Provider.Retry.{take_op_retry, retry_op_later}
use vk_cocoon.Provider.Resume.{claim_resume, release_resume}
use vk_cocoon.Provider.Create.{drop_claim}
use vk_cocoon.Provider.Sections.{Section, run_section, run_sections}

-- Nothing is tracked that was not, and what is still tracked is the same incarnation.
abbrev pub SameOrGone : Option Pod → Option Pod → Type 0
SameOrGone before none = Unit {0}
SameOrGone none (some q) = ⊥
SameOrGone (some p) (some q) = q.uid ≡ p.uid

-- Nothing is bound that was not.
abbrev pub NoNewBinding : Option Vm → Option Vm → Type 0
NoNewBinding before none = Unit {0}
NoNewBinding none (some w) = ⊥
NoNewBinding (some v) (some w) = Unit {0}

pub record Excluded (key : String) (t t' : Tables) : Type 0 where
  pub claimed : contains key t'.deleting ≡ true
  pub pod : SameOrGone (lookup key t.pods) (lookup key t'.pods)
  pub binding : NoNewBinding (lookup key t.vms_by_pod) (lookup key t'.vms_by_pod)

pub SameOrGone-refl : (o : Option Pod) → SameOrGone o o
SameOrGone-refl none = tt
SameOrGone-refl (some p) = refl

pub NoNewBinding-refl : (o : Option Vm) → NoNewBinding o o
NoNewBinding-refl none = tt
NoNewBinding-refl (some v) = tt

SameOrGone-trans : (a b c : Option Pod) → SameOrGone a b → SameOrGone b c → SameOrGone a c
SameOrGone-trans a b none h k = tt
SameOrGone-trans a none (some r) h k = elim k [ ]
SameOrGone-trans none (some q) (some r) h k = elim h [ ]
SameOrGone-trans (some p) (some q) (some r) h k = cc

NoNewBinding-trans : (a b c : Option Vm) → NoNewBinding a b → NoNewBinding b c → NoNewBinding a c
NoNewBinding-trans a b none h k = tt
NoNewBinding-trans a none (some r) h k = elim k [ ]
NoNewBinding-trans none (some q) (some r) h k = elim h [ ]
NoNewBinding-trans (some p) (some q) (some r) h k = tt

-- A section that changes none of the three tables.
pub same :
    (key : String) (t t' : Tables)
    → contains key t'.deleting ≡ true
    → lookup key t'.pods ≡ lookup key t.pods
    → lookup key t'.vms_by_pod ≡ lookup key t.vms_by_pod
    → Excluded key t t'
same key t t' c p v = record {
  claimed = c;
  pod = rw p (SameOrGone-refl (lookup key t.pods));
  binding = rw v (NoNewBinding-refl (lookup key t.vms_by_pod));
}

delete-SameOrGone :
    (k key : String) (pods : Table Pod) → SameOrGone (lookup key pods) (lookup key (delete k pods))
delete-SameOrGone k key pods =
    ground (arith, lookup-delete k key pods, SameOrGone-refl (lookup key pods))

delete-NoNewBinding :
    (k key : String) (vms : Table Vm) → NoNewBinding (lookup key vms) (lookup key (delete k vms))
delete-NoNewBinding k key vms =
    ground (arith, lookup-delete k key vms, NoNewBinding-refl (lookup key vms))

pub drop_vm-Excluded :
    (k key : String) (t : Tables) → contains key t.deleting ≡ true → Excluded key t (drop_vm k t)
unfolding drop_vm
drop_vm-Excluded k key t c = elim (Option-cases (lookup k t.vms_by_pod)) [
  | inl e ↦ rw (e, drop_vm) (same key t t c refl refl)
  | inr (v, e) ↦
      rw (e, drop_vm)
        (record {
          claimed = c;
          pod = SameOrGone-refl (lookup key t.pods);
          binding = delete-NoNewBinding k key t.vms_by_pod;
        })
]

pub untrack-Excluded :
    (k key : String) (t : Tables) → contains key t.deleting ≡ true → Excluded key t (untrack k t)
unfolding untrack
untrack-Excluded k key t c =
    let d = drop_vm-Excluded k key t c in
    record {
      claimed = d.claimed;
      pod =
          SameOrGone-trans (lookup key t.pods) (lookup key (drop_vm k t).pods) _ d.pod
            (delete-SameOrGone k key (drop_vm k t).pods);
      binding = d.binding;
    }

pub untrack_incarnation-Excluded :
    (k uid key : String) (t : Tables)
    → contains key t.deleting ≡ true
    → Excluded key t (untrack_incarnation k uid t).0
unfolding untrack_incarnation
untrack_incarnation-Excluded k uid key t c =
    ground (arith, untrack-Excluded k key t c, same key t t c refl refl)

pub index_orphan-Excluded :
    (v : Option Vm) (key : String) (t : Tables)
    → contains key t.deleting ≡ true
    → Excluded key t (index_orphan_by_name v t)
unfolding index_orphan_by_name
index_orphan-Excluded none key t c = same key t t c refl refl
index_orphan-Excluded (some v) key t c = elim (Bool-cases (is_empty v.name)) [
  | inl e ↦ rw e (same key t t c refl refl)
  | inr e ↦ rw e (same key t _ c refl refl)
]

pub Excluded-trans :
    (key : String) (a b c : Tables) → Excluded key a b → Excluded key b c → Excluded key a c
Excluded-trans key a b c h k = record {
  claimed = k.claimed;
  pod = SameOrGone-trans (lookup key a.pods) (lookup key b.pods) (lookup key c.pods) h.pod k.pod;
  binding =
      NoNewBinding-trans (lookup key a.vms_by_pod) (lookup key b.vms_by_pod)
        (lookup key c.vms_by_pod) h.binding k.binding;
}

pub detach-Excluded :
    (k uid : String) (v : Option Vm) (key : String) (t : Tables)
    → contains key t.deleting ≡ true
    → Excluded key t (detach_incarnation k uid v t).0
unfolding detach_incarnation
detach-Excluded k uid none key t c =
    ground (arith, untrack_incarnation-Excluded k uid key t c, same key t t c refl refl)
detach-Excluded k uid (some v) key t c =
    let t' = (untrack_incarnation k uid t).0 in
    let h = untrack_incarnation-Excluded k uid key t c in
    let i = index_orphan-Excluded (some v) key t' h.claimed in
    ground (
      arith,
      h,
      Excluded-trans key t t' (index_orphan_by_name (some v) t') h i,
      same key t t c refl refl,
    )

set_vm-same :
    (k key : String) (v : Vm) (t : Tables)
    → (k == key) ≡ false
    → lookup key (set_vm k v t).vms_by_pod ≡ lookup key t.vms_by_pod
unfolding set_vm
set_vm-same k key v t d = lookup-insert_ne k key v t.vms_by_pod d

module _ (m : Meta) where
  track_pod-Excluded :
      (pod : Pod) (v : Option Vm) (key : String) (t : Tables)
      → (key_of m pod == key) ≡ false
      → contains key t.deleting ≡ true
      → Excluded key t (track_pod m pod v t).0
  unfolding track_pod reassert_lifecycle set_vm
  track_pod-Excluded pod none key t d c =
      same key t _ (ground arith) (grind (arith, lookup-insert_ne)) (ground arith)
  track_pod-Excluded pod (some v) key t d c =
      same key t _ (ground arith) (grind (arith, lookup-insert_ne))
        (grind (arith, lookup-insert_ne))

  pub track-Excluded :
      (pod : Pod) (v : Option Vm) (key : String) (t : Tables)
      → contains key t.deleting ≡ true
      → Excluded key t (track_pod_unless_deleting m pod v t).0
  unfolding track_pod_unless_deleting is_deleting
  track-Excluded pod v key t c = elim (Bool-cases (key_of m pod == key)) [
    | inl e ↦
        let c' : contains (key_of m pod) t.deleting ≡ true =
          rw ((eq_iff (key_of m pod) key).0 e) c in
        rw c' (same key t t c refl refl)
    | inr d ↦ ground (arith, track_pod-Excluded pod v key t d c, same key t t c refl refl)
  ]

  pub bind-Excluded :
      (pod : Pod) (v : Option Vm) (key : String) (t : Tables)
      → contains key t.deleting ≡ true
      → Excluded key t (track_pod_incarnation m pod v t).0
  unfolding track_pod_incarnation is_deleting
  bind-Excluded pod v key t c = elim (Bool-cases (key_of m pod == key)) [
    | inl e ↦
        let c' : contains (key_of m pod) t.deleting ≡ true =
          rw ((eq_iff (key_of m pod) key).0 e) c in
        rw c' (index_orphan-Excluded v key t c)
    | inr d ↦ ground (arith, track_pod-Excluded pod v key t d c, index_orphan-Excluded v key t c)
  ]

pub update_tracked_vm-Excluded :
    (k vm_id : String) (mutate : Vm → Vm) (key : String) (t : Tables)
    → contains key t.deleting ≡ true
    → Excluded key t (update_tracked_vm k vm_id mutate t).0
unfolding update_tracked_vm set_vm
update_tracked_vm-Excluded k vm_id mutate key t c = elim (Option-cases (lookup k t.vms_by_pod)) [
  | inl e ↦ ground (arith, same key t t c refl refl)
  | inr (v, e) ↦
      let w = mutate (record v { object = t.next_object }) in
      ground (
        arith,
        same key t t c refl refl,
        SameOrGone-refl (lookup key t.pods),
        NoNewBinding-refl (lookup key t.vms_by_pod),
        lookup-insert k key w t.vms_by_pod,
        eq_iff k key,
      )
]

pub drop_claim-Excluded :
    (absent macos : Bool) (k uid key : String) (t : Tables)
    → contains key t.deleting ≡ true
    → Excluded key t (drop_claim absent macos k uid t)
unfolding drop_claim
drop_claim-Excluded absent macos k uid key t c = ground (
  arith,
  same key t t c refl refl,
  delete-SameOrGone k key t.pods,
  NoNewBinding-refl (lookup key t.vms_by_pod),
)
