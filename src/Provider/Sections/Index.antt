-- ===== src/Provider/Sections/Index.antt =====
-- The index of VMs by name: every row stands under its VM's own name (provider.go).
use vk_cocoon.Base.{
  suc, Bool, ◌≡◌, false, Option, none, some, String, List, [], ◌∷◌, arith, eq_iff, is_empty,
  Bool-cases, Option-cases, inl, inr,
}
use vk_cocoon.Base.Table.{Table, lookup, insert, delete, lookup-insert, lookup-delete}
use vk_cocoon.Kube.{Pod, Meta}
use vk_cocoon.Vm.{Vm}
use vk_cocoon.Provider.State.{Tables, key_of}
use vk_cocoon.Provider.Track.{
  set_vm, drop_vm, untrack, untrack_incarnation, detach_incarnation, index_orphan_by_name,
  track_pod, track_pod_unless_deleting, track_pod_incarnation, update_tracked_vm,
  refresh_keep_snapshot_on_delete, gc_stale_restarts, claim_deleting, claim_deleting_incarnation,
  finish_deleting, reassert_lifecycle,
}
use vk_cocoon.Provider.Lifecycle.{
  apply_lifecycle, seed_lifecycle_intent, record_lifecycle_flushed, drop_superseded_lifecycle,
  republish_on_generation_bump,
}
use vk_cocoon.Provider.Retry.{take_op_retry, retry_op_later, pod_lock}
use vk_cocoon.Provider.Resume.{claim_resume, release_resume}
use vk_cocoon.Provider.Runtime.{store_pod}
use vk_cocoon.Provider.Evict.{take_restart, note_event, claim_recheck, end_recheck}
use vk_cocoon.Provider.Hibernate.{start_hibernate, finish_hibernate}
use vk_cocoon.Provider.PostClone.{set_lifecycle_state_for_wake}
use vk_cocoon.Provider.PostClone.Markers.{marker_section}
use vk_cocoon.Provider.Stale.{note_busy_create, settle_busy_create}
use vk_cocoon.Provider.Evidence.{drop_gone}
use vk_cocoon.Provider.Macos.Vnc.{claim_macos_vnc_port, adopt_macos_vnc_port}
use vk_cocoon.Provider.Macos.Create.{note_leftover}
use vk_cocoon.Provider.Create.{drop_claim}
use vk_cocoon.Provider.Sections.{Section, run_section, run_sections}

-- What stands under the name `n` has that name, and no row stands under "".
abbrev pub NamedAs : String → Option Vm → Type 0
NamedAs n none = Unit {0}
NamedAs n (some v) = (v.name ≡ n) × (is_empty n ≡ false)

abbrev pub IndexIsNamed : Tables → Type 0
IndexIsNamed t = (n : String) → NamedAs n (lookup n t.vms_by_name)

insert-NamedAs :
    (v : Vm) (n : String) (names : Table Vm)
    → is_empty v.name ≡ false
    → NamedAs n (lookup n names)
    → NamedAs n (lookup n (insert v.name v names))
insert-NamedAs v n names e h = ground (arith, lookup-insert v.name n v names, eq_iff v.name n)

delete-NamedAs :
    (k n : String) (names : Table Vm)
    → NamedAs n (lookup n names)
    → NamedAs n (lookup n (delete k names))
delete-NamedAs k n names h = ground (arith, lookup-delete k n names)

set_vm-IsNamed :
    (key : String) (v : Vm) (t : Tables) → IndexIsNamed t → IndexIsNamed (set_vm key v t)
unfolding set_vm
set_vm-IsNamed key v t h n = elim (Bool-cases (is_empty v.name)) [
  | inl e ↦ rw e (h n)
  | inr e ↦ rw e (insert-NamedAs v n t.vms_by_name e (h n))
]

drop_vm-IsNamed : (key : String) (t : Tables) → IndexIsNamed t → IndexIsNamed (drop_vm key t)
unfolding drop_vm
drop_vm-IsNamed key t h n = elim (Option-cases (lookup key t.vms_by_pod)) [
  | inl e ↦ rw (e, drop_vm) (h n)
  | inr (v, e) ↦ rw (e, drop_vm) (ground (arith, h n, delete-NamedAs v.name n t.vms_by_name (h n)))
]

untrack-IsNamed : (key : String) (t : Tables) → IndexIsNamed t → IndexIsNamed (untrack key t)
unfolding untrack
untrack-IsNamed key t h n = drop_vm-IsNamed key t h n

untrack_incarnation-IsNamed :
    (key uid : String) (t : Tables)
    → IndexIsNamed t
    → IndexIsNamed (untrack_incarnation key uid t).0
unfolding untrack_incarnation
untrack_incarnation-IsNamed key uid t h n = ground (arith, h n, untrack-IsNamed key t h n)

index_orphan-IsNamed :
    (v : Option Vm) (t : Tables) → IndexIsNamed t → IndexIsNamed (index_orphan_by_name v t)
unfolding index_orphan_by_name
index_orphan-IsNamed none t h n = h n
index_orphan-IsNamed (some v) t h n = elim (Bool-cases (is_empty v.name)) [
  | inl e ↦ rw e (h n)
  | inr e ↦ rw e (insert-NamedAs v n t.vms_by_name e (h n))
]

detach-IsNamed :
    (key uid : String) (v : Option Vm) (t : Tables)
    → IndexIsNamed t
    → IndexIsNamed (detach_incarnation key uid v t).0
unfolding detach_incarnation
detach-IsNamed key uid none t h n = ground (arith, h n, untrack_incarnation-IsNamed key uid t h n)
detach-IsNamed key uid (some v) t h n =
    let t' = (untrack_incarnation key uid t).0 in
    let h' = untrack_incarnation-IsNamed key uid t h in
    ground (arith, h n, h' n, index_orphan-IsNamed (some v) t' h' n)

update_tracked_vm-IsNamed :
    (key vm_id : String) (mutate : Vm → Vm) (t : Tables)
    → IndexIsNamed t
    → IndexIsNamed (update_tracked_vm key vm_id mutate t).0
unfolding update_tracked_vm
update_tracked_vm-IsNamed key vm_id mutate t h n = elim (Option-cases (lookup key t.vms_by_pod)) [
  | inl e ↦ ground (arith, h n)
  | inr (v, e) ↦ ground (
    arith,
    h n,
    set_vm-IsNamed key (mutate (record v { object = t.next_object }))
        (record t { next_object = suc t.next_object }) h n,
  )
]

drop_gone-IsNamed :
    (name : String) (v : Vm) (t : Tables) → IndexIsNamed t → IndexIsNamed (drop_gone name v t)
unfolding drop_gone
drop_gone-IsNamed name v t h n = ground (arith, h n, delete-NamedAs name n t.vms_by_name (h n))

drop_claim-IsNamed :
    (absent macos : Bool) (key uid : String) (t : Tables)
    → IndexIsNamed t
    → IndexIsNamed (drop_claim absent macos key uid t)
unfolding drop_claim
drop_claim-IsNamed absent macos key uid t h n = ground (arith, h n)

module _ (m : Meta) where
  reassert-IsNamed :
      (key : String) (pod : Pod) (t : Tables)
      → IndexIsNamed t
      → IndexIsNamed (reassert_lifecycle m key pod t).0
  unfolding reassert_lifecycle
  reassert-IsNamed key pod t h n = ground (arith, h n)

  track_pod-IsNamed :
      (pod : Pod) (v : Option Vm) (t : Tables)
      → IndexIsNamed t
      → IndexIsNamed (track_pod m pod v t).0
  unfolding track_pod
  track_pod-IsNamed pod none t h n = reassert-IsNamed (key_of m pod) pod t h n
  track_pod-IsNamed pod (some v) t h n =
      set_vm-IsNamed (key_of m pod) v _ (reassert-IsNamed (key_of m pod) pod t h) n

  section-IsNamed : (s : Section) (t : Tables) → IndexIsNamed t → IndexIsNamed (run_section m s t)
  unfolding track_pod_unless_deleting track_pod_incarnation claim_deleting
      claim_deleting_incarnation finish_deleting refresh_keep_snapshot_on_delete gc_stale_restarts
      apply_lifecycle seed_lifecycle_intent record_lifecycle_flushed drop_superseded_lifecycle
      take_op_retry retry_op_later claim_resume release_resume store_pod marker_section
      set_lifecycle_state_for_wake republish_on_generation_bump pod_lock take_restart note_event
      claim_recheck end_recheck start_hibernate finish_hibernate note_busy_create settle_busy_create
      claim_macos_vnc_port adopt_macos_vnc_port note_leftover
  section-IsNamed (Section.track pod v) t h n = ground (arith, h n, track_pod-IsNamed pod v t h n)
  section-IsNamed (Section.bind pod v) t h n =
      ground (arith, h n, track_pod-IsNamed pod v t h n, index_orphan-IsNamed v t h n)
  section-IsNamed (Section.forget key) t h n = untrack-IsNamed key t h n
  section-IsNamed (Section.untrack_uid key uid) t h n = untrack_incarnation-IsNamed key uid t h n
  section-IsNamed (Section.detach key uid v) t h n = detach-IsNamed key uid v t h n
  section-IsNamed (Section.index v) t h n = index_orphan-IsNamed v t h n
  section-IsNamed (Section.forget_vm key) t h n = drop_vm-IsNamed key t h n
  section-IsNamed (Section.mutate_vm key vm_id mutate) t h n =
      update_tracked_vm-IsNamed key vm_id mutate t h n
  section-IsNamed (Section.claim key uid) t h n = ground (arith, h n)
  section-IsNamed (Section.claim_vm key uid vm_id) t h n = ground (arith, h n)
  section-IsNamed (Section.finish key) t h n = h n
  section-IsNamed (Section.keep_snapshot pod) t h n = ground (arith, h n)
  section-IsNamed (Section.collect_restarts cutoff) t h n = h n
  section-IsNamed (Section.write_lifecycle r) t h n = ground (arith, h n)
  section-IsNamed (Section.seed_lifecycle pod) t h n = ground (arith, h n)
  section-IsNamed (Section.mark_flushed key uid snap) t h n = ground (arith, h n)
  section-IsNamed (Section.drop_intent key uid snap) t h n = ground (arith, h n)
  section-IsNamed (Section.take_retry key) t h n = h n
  section-IsNamed (Section.put_off pod prev now) t h n = ground (arith, h n)
  section-IsNamed (Section.start_resume key) t h n = ground (arith, h n)
  section-IsNamed (Section.end_resume key) t h n = h n
  section-IsNamed (Section.fail_create absent macos key uid) t h n =
      drop_claim-IsNamed absent macos key uid t h n
  section-IsNamed (Section.drop_index name v) t h n = drop_gone-IsNamed name v t h n
  section-IsNamed (Section.store key pod) t h n = ground (arith, h n)
  section-IsNamed (Section.mark_post_clone state pod) t h n = ground (arith, h n)
  section-IsNamed (Section.wake_lifecycle pod id state message) t h n = ground (arith, h n)
  section-IsNamed (Section.lift_failed pod) t h n = ground (arith, h n)
  section-IsNamed (Section.republish pod) t h n = ground (arith, h n)
  section-IsNamed (Section.lock_pod key) t h n = ground (arith, h n)
  section-IsNamed (Section.restart id now) t h n = ground (arith, h n)
  section-IsNamed (Section.event key) t h n = ground (arith, h n)
  section-IsNamed (Section.recheck id) t h n = ground (arith, h n)
  section-IsNamed (Section.recheck_end id) t h n = h n
  section-IsNamed (Section.hibernate_start key) t h n = h n
  section-IsNamed (Section.hibernate_end key) t h n = h n
  section-IsNamed (Section.busy_create name) t h n = h n
  section-IsNamed (Section.settle_create name settled) t h n = ground (arith, h n)
  section-IsNamed (Section.claim_port settings key preferred) t h n = ground (arith, h n)
  section-IsNamed (Section.adopt_port key none) t h n = h n
  section-IsNamed (Section.adopt_port key (some display)) t h n = h n
  section-IsNamed (Section.leave_guest key uid) t h n = h n
  section-IsNamed Section.allocate t h n = h n

  -- Whatever sections the handlers run, in whatever order, every VM in the index by name stands
  -- under its own name, and none under the empty name.
  pub sections-IsNamed :
      (ss : List Section) (t : Tables) → IndexIsNamed t → IndexIsNamed (run_sections m ss t)
  sections-IsNamed [] t h = h
  sections-IsNamed (s ∷ ss) t h = sections-IsNamed ss (run_section m s t) (section-IsNamed s t h)
