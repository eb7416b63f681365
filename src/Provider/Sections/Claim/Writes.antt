-- ===== src/Provider/Sections/Claim/Writes.antt =====
-- The sections that write a tracked pod, under a standing delete claim (lifecycle.go, postclone.go).
use vk_cocoon.Base.{
  Bool, ◌≡◌, refl, true, Option, none, some, String, arith, eq_iff, ◌==◌, nat_eq, if◌then◌else◌,
}
use vk_cocoon.Base.Table.{Table, lookup, insert, contains, lookup-insert}
use vk_cocoon.Kube.{Pod, Meta, StatusLaws, LifecycleState}
use vk_cocoon.Provider.State.{Tables, LifecycleEntry, key_of}
use vk_cocoon.Provider.Track.{refresh_keep_snapshot_on_delete}
use vk_cocoon.Provider.Lifecycle.{apply_lifecycle, republish_on_generation_bump}
use vk_cocoon.Provider.Lifecycle.Writes.{WriteRequest, write}
use vk_cocoon.Provider.Runtime.{store_pod}
use vk_cocoon.Provider.PostClone.{set_lifecycle_state_for_wake}
use vk_cocoon.Provider.PostClone.Markers.{marker_section, mark_on}
use vk_cocoon.Provider.Ready.{write_if_failed}
use vk_cocoon.Provider.Sections.Claim.{
  Excluded, NoNewBinding-refl, SameOrGone, SameOrGone-refl, same,
}

-- A write to the object that is tracked is a write to a pod of the same uid.
abbrev pub keeps_uid : Pod → Option Pod → Bool
keeps_uid pod none = true
keeps_uid pod (some p) = if nat_eq p.object pod.object then pod.uid == p.uid else true

stamp-SameOrGone :
    (k key : String) (p q : Pod) (pods : Table Pod)
    → lookup k pods ≡ some p
    → q.uid ≡ p.uid
    → SameOrGone (lookup key pods) (lookup key (insert k q pods))
stamp-SameOrGone k key p q pods e u =
    ground (arith, lookup-insert k key q pods, eq_iff k key, SameOrGone-refl (lookup key pods))

pub store_pod-Excluded :
    (k : String) (pod : Pod) (key : String) (t : Tables) (o : Option Pod)
    → lookup k t.pods ≡ o
    → keeps_uid pod o ≡ true
    → contains key t.deleting ≡ true
    → Excluded key t (store_pod k pod t)
unfolding store_pod
store_pod-Excluded k pod key t none e u c = ground (arith, same key t t c refl refl)
store_pod-Excluded k pod key t (some p) e u c = ground (
  arith,
  same key t t c refl refl,
  eq_iff pod.uid p.uid,
  NoNewBinding-refl (lookup key t.vms_by_pod),
  stamp-SameOrGone k key p pod t.pods e,
)

pub marker_section-Excluded :
    (m : Meta) (state : String) (pod : Pod) (key : String) (t : Tables) (o : Option Pod)
    → lookup (key_of m pod) t.pods ≡ o
    → contains key t.deleting ≡ true
    → Excluded key t (marker_section m state pod t).0
unfolding marker_section
marker_section-Excluded m state pod key t none e c = ground (arith, same key t t c refl refl)
marker_section-Excluded m state pod key t (some p) e c =
    let q = mark_on m state p in
    ground (
      arith,
      same key t t c refl refl,
      NoNewBinding-refl (lookup key t.vms_by_pod),
      stamp-SameOrGone (key_of m pod) key p q t.pods e refl,
    )

module _ (m : Meta) (laws : StatusLaws m) where
  open laws use {apply_uid, mark_uid}

  pub write-Excluded :
      (r : WriteRequest) (key : String) (t : Tables) (o : Option Pod)
      → lookup (key_of m r.pod) t.pods ≡ o
      → contains key t.deleting ≡ true
      → Excluded key t (write m r t).tables
  unfolding apply_lifecycle
  write-Excluded r key t none e c =
      ground
        (arith, SameOrGone-refl (lookup key t.pods), NoNewBinding-refl (lookup key t.vms_by_pod))
  write-Excluded r key t (some p) e c =
      let s = (write m r t).status in
      ground (
        arith,
        SameOrGone-refl (lookup key t.pods),
        NoNewBinding-refl (lookup key t.vms_by_pod),
        stamp-SameOrGone (key_of m r.pod) key p (m.apply_status s p) t.pods e (apply_uid s p),
      )

  pub keep-Excluded :
      (pod : Pod) (key : String) (t : Tables) (o : Option Pod)
      → lookup (key_of m pod) t.pods ≡ o
      → contains key t.deleting ≡ true
      → Excluded key t (refresh_keep_snapshot_on_delete m pod t)
  unfolding refresh_keep_snapshot_on_delete
  keep-Excluded pod key t none e c = ground (arith, same key t t c refl refl)
  keep-Excluded pod key t (some p) e c = ground (
    arith,
    same key t t c refl refl,
    NoNewBinding-refl (lookup key t.vms_by_pod),
    stamp-SameOrGone (key_of m pod) key p (m.mark_keep_snapshot_on_delete p) t.pods e (mark_uid p),
  )

  pub any_write-Excluded :
      (pod : Pod) (state : LifecycleState) (message key : String) (t : Tables)
      → contains key t.deleting ≡ true
      → Excluded key t (apply_lifecycle m pod state message t).tables
  any_write-Excluded pod state message key t c =
      write-Excluded (record { pod = pod; state = state; message = message }) key t
        (lookup (key_of m pod) t.pods) refl c

  pub wake_write-Excluded :
      (pod : Pod) (id : String) (state : LifecycleState) (message key : String) (t : Tables)
      → contains key t.deleting ≡ true
      → Excluded key t (set_lifecycle_state_for_wake m pod id state message t).tables
  unfolding set_lifecycle_state_for_wake
  wake_write-Excluded pod id state message key t c =
      ground (arith, same key t t c refl refl, any_write-Excluded pod state message key t c)

  pub lift-Excluded :
      (pod : Pod) (key : String) (t : Tables)
      → contains key t.deleting ≡ true
      → Excluded key t (write_if_failed m pod t).0
  lift-Excluded pod key t c =
      ground
        (arith, same key t t c refl refl, any_write-Excluded pod LifecycleState.creating "" key t c)

  republish_as-Excluded :
      (pod : Pod) (key : String) (t : Tables) (o : Option LifecycleEntry)
      → lookup (key_of m pod) t.lifecycle_intent ≡ o
      → contains key t.deleting ≡ true
      → Excluded key t (republish_on_generation_bump m pod t).tables
  unfolding republish_on_generation_bump
  republish_as-Excluded pod key t none e c = ground (arith, same key t t c refl refl)
  republish_as-Excluded pod key t (some cur) e c = ground (
    arith,
    same key t t c refl refl,
    any_write-Excluded pod cur.status.state cur.status.message key t c,
  )

  pub republish-Excluded :
      (pod : Pod) (key : String) (t : Tables)
      → contains key t.deleting ≡ true
      → Excluded key t (republish_on_generation_bump m pod t).tables
  republish-Excluded pod key t c =
      republish_as-Excluded pod key t (lookup (key_of m pod) t.lifecycle_intent) refl c
