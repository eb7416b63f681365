-- ===== src/Provider/Sections/Claim/Exclusion.antt =====
-- Every section leaves a standing delete claim alone (provider.go).
use vk_cocoon.Base.{◌==◌, false, ◌≡◌, refl, true, none, some, String, List, [], ◌∷◌, arith}
use vk_cocoon.Base.Table.{lookup, contains, contains-insert, contains-delete}
use vk_cocoon.Kube.{Meta, StatusLaws}
use vk_cocoon.Provider.State.{Tables, key_of}
use vk_cocoon.Provider.Track.{
  gc_stale_restarts, claim_deleting, claim_deleting_incarnation, finish_deleting,
}
use vk_cocoon.Provider.Lifecycle.{
  seed_lifecycle_intent, record_lifecycle_flushed, drop_superseded_lifecycle,
}
use vk_cocoon.Provider.Retry.{take_op_retry, retry_op_later, pod_lock}
use vk_cocoon.Provider.Resume.{claim_resume, release_resume}
use vk_cocoon.Provider.Evict.{take_restart, note_event, claim_recheck, end_recheck}
use vk_cocoon.Provider.Hibernate.{start_hibernate, finish_hibernate}
use vk_cocoon.Provider.Stale.{note_busy_create, settle_busy_create}
use vk_cocoon.Provider.Evidence.{drop_gone}
use vk_cocoon.Provider.Macos.Vnc.{claim_macos_vnc_port, adopt_macos_vnc_port}
use vk_cocoon.Provider.Macos.Create.{note_leftover}
use vk_cocoon.Provider.Sections.{Section, run_section, run_sections}
use vk_cocoon.Provider.Sections.Claim.{
  Excluded, Excluded-trans, bind-Excluded, detach-Excluded, drop_vm-Excluded, drop_claim-Excluded,
  index_orphan-Excluded, same, update_tracked_vm-Excluded, track-Excluded, untrack-Excluded,
  untrack_incarnation-Excluded,
}
use vk_cocoon.Provider.Sections.Claim.Writes.{
  keeps_uid, keep-Excluded, lift-Excluded, marker_section-Excluded, republish-Excluded,
  store_pod-Excluded, wake_write-Excluded, write-Excluded,
}

-- The section does not give the claim on `key` up; and a write to a pod keeps the uid of the tracked
-- object, which nothing in the provider writes.
abbrev pub KeepsClaim : String → Section → Tables → Type 0
KeepsClaim key (Section.finish k) t = (k == key) ≡ false
KeepsClaim key (Section.store k pod) t = keeps_uid pod (lookup k t.pods) ≡ true
KeepsClaim key _ t = Unit {0}

-- Every section does so in the tables that it finds.
abbrev pub KeepsClaims : Meta → String → List Section → Tables → Type 0
KeepsClaims m key [] t = Unit {0}
KeepsClaims m key (s ∷ ss) t = KeepsClaim key s t × KeepsClaims m key ss (run_section m s t)

module _ (m : Meta) (laws : StatusLaws m) where
  pub section-Excluded :
      (s : Section) (key : String) (t : Tables)
      → KeepsClaim key s t
      → contains key t.deleting ≡ true
      → Excluded key t (run_section m s t)
  unfolding claim_deleting claim_deleting_incarnation finish_deleting gc_stale_restarts
      seed_lifecycle_intent record_lifecycle_flushed drop_superseded_lifecycle take_op_retry
      retry_op_later claim_resume release_resume pod_lock take_restart note_event claim_recheck
      end_recheck start_hibernate finish_hibernate note_busy_create settle_busy_create drop_gone
      claim_macos_vnc_port adopt_macos_vnc_port note_leftover
  section-Excluded (Section.track pod v) key t k c = track-Excluded m pod v key t c
  section-Excluded (Section.bind pod v) key t k c = bind-Excluded m pod v key t c
  section-Excluded (Section.forget j) key t k c = untrack-Excluded j key t c
  section-Excluded (Section.untrack_uid j uid) key t k c =
      untrack_incarnation-Excluded j uid key t c
  section-Excluded (Section.detach j uid v) key t k c = detach-Excluded j uid v key t c
  section-Excluded (Section.index v) key t k c = index_orphan-Excluded v key t c
  section-Excluded (Section.forget_vm j) key t k c = drop_vm-Excluded j key t c
  section-Excluded (Section.mutate_vm j id mutate) key t k c =
      update_tracked_vm-Excluded j id mutate key t c
  section-Excluded (Section.claim j uid) key t k c =
      same key t _ (ground (arith, contains-insert j key tt t.deleting)) (ground arith)
        (ground arith)
  section-Excluded (Section.claim_vm j uid id) key t k c =
      same key t _ (ground (arith, contains-insert j key tt t.deleting)) (ground arith)
        (ground arith)
  section-Excluded (Section.finish j) key t k c =
      same key t _ (rw (contains-delete j key t.deleting, k) c) refl refl
  section-Excluded (Section.keep_snapshot pod) key t k c =
      keep-Excluded m laws pod key t (lookup (key_of m pod) t.pods) refl c
  section-Excluded (Section.collect_restarts cutoff) key t k c = same key t _ c refl refl
  section-Excluded (Section.write_lifecycle r) key t k c =
      write-Excluded m laws r key t (lookup (key_of m r.pod) t.pods) refl c
  section-Excluded (Section.seed_lifecycle pod) key t k c =
      same key t _ (ground arith) (ground arith) (ground arith)
  section-Excluded (Section.mark_flushed j uid snap) key t k c =
      same key t _ (ground arith) (ground arith) (ground arith)
  section-Excluded (Section.drop_intent j uid snap) key t k c =
      same key t _ (ground arith) (ground arith) (ground arith)
  section-Excluded (Section.take_retry j) key t k c = same key t _ c refl refl
  section-Excluded (Section.put_off pod prev now) key t k c =
      same key t _ (ground arith) (ground arith) (ground arith)
  section-Excluded (Section.start_resume j) key t k c =
      same key t _ (ground arith) (ground arith) (ground arith)
  section-Excluded (Section.end_resume j) key t k c = same key t _ c refl refl
  section-Excluded (Section.fail_create absent macos j uid) key t k c =
      drop_claim-Excluded absent macos j uid key t c
  section-Excluded (Section.store j pod) key t k c =
      store_pod-Excluded j pod key t (lookup j t.pods) refl k c
  section-Excluded (Section.mark_post_clone state pod) key t k c =
      marker_section-Excluded m state pod key t (lookup (key_of m pod) t.pods) refl c
  section-Excluded (Section.wake_lifecycle pod id state message) key t k c =
      wake_write-Excluded m laws pod id state message key t c
  section-Excluded (Section.lift_failed pod) key t k c = lift-Excluded m laws pod key t c
  section-Excluded (Section.republish pod) key t k c = republish-Excluded m laws pod key t c
  section-Excluded (Section.drop_index name v) key t k c =
      same key t _ (ground arith) (ground arith) (ground arith)
  section-Excluded (Section.lock_pod j) key t k c =
      same key t _ (ground arith) (ground arith) (ground arith)
  section-Excluded (Section.restart id now) key t k c =
      same key t _ (ground arith) (ground arith) (ground arith)
  section-Excluded (Section.event j) key t k c =
      same key t _ (ground arith) (ground arith) (ground arith)
  section-Excluded (Section.recheck id) key t k c =
      same key t _ (ground arith) (ground arith) (ground arith)
  section-Excluded (Section.settle_create name settled) key t k c =
      same key t _ (ground arith) (ground arith) (ground arith)
  section-Excluded (Section.claim_port settings j preferred) key t k c =
      same key t _ (ground arith) (ground arith) (ground arith)
  section-Excluded (Section.recheck_end id) key t k c = same key t _ c refl refl
  section-Excluded (Section.hibernate_start j) key t k c = same key t _ c refl refl
  section-Excluded (Section.hibernate_end j) key t k c = same key t _ c refl refl
  section-Excluded (Section.busy_create name) key t k c = same key t _ c refl refl
  section-Excluded (Section.leave_guest j uid) key t k c = same key t _ c refl refl
  section-Excluded (Section.adopt_port j none) key t k c = same key t _ c refl refl
  section-Excluded (Section.adopt_port j (some display)) key t k c = same key t _ c refl refl
  section-Excluded Section.allocate key t k c = same key t _ c refl refl

  -- While a delete claim on a key stands, whatever sections the other handlers run, in whatever order,
  -- none of which releases the claim or writes another uid into the tracked pod object, the claim
  -- stays, no pod or VM comes under the key, and a pod that is still tracked there is the same
  -- incarnation.
  pub sections-Excluded :
      (ss : List Section) (key : String) (t : Tables)
      → KeepsClaims m key ss t
      → contains key t.deleting ≡ true
      → Excluded key t (run_sections m ss t)
  sections-Excluded [] key t k c = same key t t c refl refl
  sections-Excluded (s ∷ ss) key t k c =
      let h = section-Excluded s key t k.0 c in
      Excluded-trans key t (run_section m s t) _ h
        (sections-Excluded ss key (run_section m s t) k.1 h.claimed)
