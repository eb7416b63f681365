-- ===== src/Provider/Sections.antt =====
-- The critical sections of the provider (provider/cocoon/*.go) as one type, so that any interleaving
-- of its goroutines is a list of sections: `finish` releases a delete claim, `store` is a write to a
-- pod that may be the tracked object, `mutate_vm` is `updateTrackedVM` with any change to the VM.
-- `trackPod` without a guard runs at startup only, before the handlers start, and is no section here.
pub mod Claim
pub mod Index
use vk_cocoon.Base.{
  ℕ, suc, Bool, true, false, not, ◌&&◌, Option, none, some, String, List, [], ◌∷◌, ◌==◌,
  if◌then◌else◌,
}
use vk_cocoon.Kube.{Pod, Meta, LifecycleState}
use vk_cocoon.Vm.{Vm}
use vk_cocoon.Provider.State.{Tables, Settings}
use vk_cocoon.Provider.Track.{
  track_pod_unless_deleting, track_pod_incarnation, untrack, untrack_incarnation,
  detach_incarnation, index_orphan_by_name, claim_deleting, claim_deleting_incarnation,
  finish_deleting, update_tracked_vm, drop_vm, refresh_keep_snapshot_on_delete, gc_stale_restarts,
}
use vk_cocoon.Provider.Lifecycle.{
  apply_lifecycle, seed_lifecycle_intent, record_lifecycle_flushed, drop_superseded_lifecycle,
  republish_on_generation_bump,
}
use vk_cocoon.Provider.Lifecycle.Writes.{WriteRequest, write}
use vk_cocoon.Provider.Retry.{take_op_retry, retry_op_later, pod_lock}
use vk_cocoon.Provider.Resume.{claim_resume, release_resume}
use vk_cocoon.Provider.Runtime.{store_pod}
use vk_cocoon.Provider.Evict.{take_restart, note_event, claim_recheck, end_recheck}
use vk_cocoon.Provider.Hibernate.{start_hibernate, finish_hibernate}
use vk_cocoon.Provider.Ready.{write_if_failed}
use vk_cocoon.Provider.PostClone.{set_lifecycle_state_for_wake}
use vk_cocoon.Provider.PostClone.Markers.{marker_section}
use vk_cocoon.Provider.Stale.{note_busy_create, settle_busy_create}
use vk_cocoon.Provider.Evidence.{drop_gone}
use vk_cocoon.Provider.Macos.Vnc.{claim_macos_vnc_port, adopt_macos_vnc_port}
use vk_cocoon.Provider.Macos.Create.{note_leftover}
use vk_cocoon.Provider.Create.{drop_claim}

pub data Section : Type 0 where
  track bind : Pod → Option Vm → Section
  forget : String → Section
  untrack_uid : String → String → Section
  detach : String → String → Option Vm → Section
  index : Option Vm → Section
  claim : String → String → Section
  claim_vm : String → String → String → Section
  finish : String → Section
  mutate_vm : String → String → (Vm → Vm) → Section
  forget_vm : String → Section
  keep_snapshot : Pod → Section
  collect_restarts : ℕ → Section
  write_lifecycle : WriteRequest → Section
  seed_lifecycle : Pod → Section
  mark_flushed drop_intent : String → String → String → Section
  take_retry : String → Section
  put_off : Pod → ℕ → ℕ → Section
  start_resume end_resume : String → Section
  fail_create : Bool → Bool → String → String → Section
  drop_index : String → Vm → Section
  store : String → Pod → Section
  mark_post_clone : String → Pod → Section
  wake_lifecycle : Pod → String → LifecycleState → String → Section
  lift_failed republish : Pod → Section
  lock_pod : String → Section
  restart : String → ℕ → Section
  event recheck recheck_end : String → Section
  hibernate_start hibernate_end : String → Section
  busy_create : String → Section
  settle_create : String → ℕ → Section
  claim_port : Settings → String → ℕ → Section
  adopt_port : String → Option ℕ → Section
  leave_guest : String → String → Section
  allocate : Section

module _ (m : Meta) where
  abbrev pub run_section : Section → Tables → Tables
  run_section (track pod v) t = (track_pod_unless_deleting m pod v t).0
  run_section (bind pod v) t = (track_pod_incarnation m pod v t).0
  run_section (forget key) t = untrack key t
  run_section (untrack_uid key uid) t = (untrack_incarnation key uid t).0
  run_section (detach key uid v) t = (detach_incarnation key uid v t).0
  run_section (index v) t = index_orphan_by_name v t
  run_section (claim key uid) t = (claim_deleting key uid t).0
  run_section (claim_vm key uid vm_id) t = (claim_deleting_incarnation key uid vm_id t).0
  run_section (finish key) t = finish_deleting key t
  run_section (mutate_vm key vm_id mutate) t = (update_tracked_vm key vm_id mutate t).0
  run_section (forget_vm key) t = drop_vm key t
  run_section (keep_snapshot pod) t = refresh_keep_snapshot_on_delete m pod t
  run_section (collect_restarts cutoff) t = gc_stale_restarts cutoff t
  run_section (write_lifecycle r) t = (write m r t).tables
  run_section (seed_lifecycle pod) t = seed_lifecycle_intent m pod t
  run_section (mark_flushed key uid snap) t = record_lifecycle_flushed m key uid snap t
  run_section (drop_intent key uid snap) t = drop_superseded_lifecycle m key uid snap t
  run_section (take_retry key) t = (take_op_retry key t).0
  run_section (put_off pod prev now) t = retry_op_later m pod prev now t
  run_section (start_resume key) t = (claim_resume key t).0
  run_section (end_resume key) t = release_resume key t
  run_section (fail_create absent macos key uid) t = drop_claim absent macos key uid t
  run_section (drop_index name v) t = drop_gone name v t
  run_section (store key pod) t = store_pod key pod t
  run_section (mark_post_clone state pod) t = (marker_section m state pod t).0
  run_section (wake_lifecycle pod id state message) t =
      (set_lifecycle_state_for_wake m pod id state message t).tables
  run_section (lift_failed pod) t = (write_if_failed m pod t).0
  run_section (republish pod) t = (republish_on_generation_bump m pod t).tables
  run_section (lock_pod key) t = (pod_lock key t).0
  run_section (restart id now) t = (take_restart id now t).0
  run_section (event key) t = (note_event key t).0
  run_section (recheck id) t = (claim_recheck id t).0
  run_section (recheck_end id) t = end_recheck id t
  run_section (hibernate_start key) t = start_hibernate key t
  run_section (hibernate_end key) t = (finish_hibernate key t).0
  run_section (busy_create name) t = (note_busy_create name t).0
  run_section (settle_create name settled) t = settle_busy_create name settled t
  run_section (claim_port settings key preferred) t =
      (claim_macos_vnc_port settings key preferred t).0
  run_section (adopt_port key display) t = (adopt_macos_vnc_port key display t).0
  run_section (leave_guest key uid) t = note_leftover key uid t
  run_section allocate t = record t { next_object = suc t.next_object }

  abbrev pub run_sections : List Section → Tables → Tables
  run_sections [] t = t
  run_sections (s ∷ ss) t = run_sections ss (run_section s t)
