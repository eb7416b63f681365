-- ===== src/Provider/Lifecycle/Writes.antt =====
-- What one lifecycle write does, and what any sequence of writes keeps (lifecycle.go,
-- applyLifecycleLocked).
use vk_cocoon.Base.{
  ℕ, ◌≤◌, ◌≡◌, refl, inl, inr, false, Option, none, some, String, List, [], ◌∷◌, arith, ◌==◌,
  eq_iff, Bool-cases,
}
use vk_cocoon.Base.Table.{lookup, lookup-insert_self, lookup-insert_ne}
use vk_cocoon.Kube.{Pod, Meta, StatusLaws, LifecycleState}
use vk_cocoon.Provider.State.{Tables, LifecycleEntry, key_of}
use vk_cocoon.Provider.Lifecycle.{Write, apply_lifecycle}

-- A write as a caller asks for it.
pub record WriteRequest : Type 0 where
  pub pod : Pod
  pub state : LifecycleState
  pub message : String

-- The intent belongs to incarnation `uid`, at generation `g` or a later one.
abbrev pub IntentAtLeast : String → ℕ → Option LifecycleEntry → Type 0
IntentAtLeast uid g none = ⊥
IntentAtLeast uid g (some e) = (e.uid ≡ uid) × (g ≤ e.status.observed_generation)

abbrev pub TracksUid : String → Option Pod → Type 0
TracksUid uid none = ⊥
TracksUid uid (some p) = p.uid ≡ uid

-- The incarnation `uid` is tracked under `key`, and its intent is at generation `g` or later.
pub record Holds (key uid : String) (g : ℕ) (t : Tables) : Type 0 where
  pub tracked : TracksUid uid (lookup key t.pods)
  pub intent : IntentAtLeast uid g (lookup key t.lifecycle_intent)

module _ (m : Meta) where
  abbrev pub write : WriteRequest → Tables → Write
  write r t = apply_lifecycle m r.pod r.state r.message t

  abbrev pub write_all : List WriteRequest → Tables → Tables
  write_all [] t = t
  write_all (r ∷ rs) t = write_all rs (write r t).tables

  -- A write that is not applied changes neither the tables nor the caller's pod.
  pub apply_lifecycle-rejected :
      (pod : Pod) (state : LifecycleState) (message : String) (t : Tables)
      → (apply_lifecycle m pod state message t).applied ≡ false
      → ((apply_lifecycle m pod state message t).tables ≡ t)
        × ((apply_lifecycle m pod state message t).pod ≡ pod)
  unfolding apply_lifecycle
  apply_lifecycle-rejected pod state message t h = ground arith

module _ (m : Meta) (laws : StatusLaws m) where
  open laws use {apply_uid}

  own-Holds :
      (uid : String) (g : ℕ) (r : WriteRequest) (t : Tables) (o : Option Pod)
      (e : Option LifecycleEntry)
      → lookup (key_of m r.pod) t.pods ≡ o
      → lookup (key_of m r.pod) t.lifecycle_intent ≡ e
      → TracksUid uid o
      → IntentAtLeast uid g e
      → Holds (key_of m r.pod) uid g (write m r t).tables
  unfolding apply_lifecycle
  own-Holds uid g r t none e po pe h k = elim h [ ]
  own-Holds uid g r t (some p) none po pe h k = elim k [ ]
  own-Holds uid g r t (some p) (some e) po pe h k =
      grind (arith, lookup-insert_self, apply_uid, eq_iff p.uid r.pod.uid, eq_iff e.uid r.pod.uid)

  other-Holds :
      (key uid : String) (g : ℕ) (r : WriteRequest) (t : Tables)
      → (key_of m r.pod == key) ≡ false
      → Holds key uid g t
      → Holds key uid g (write m r t).tables
  unfolding apply_lifecycle
  other-Holds key uid g r t e h = grind (arith, lookup-insert_ne)

  write-Holds :
      (key uid : String) (g : ℕ) (r : WriteRequest) (t : Tables)
      → Holds key uid g t
      → Holds key uid g (write m r t).tables
  write-Holds key uid g r t h = elim (Bool-cases (key_of m r.pod == key)) [
    | inl same ↦
        let e = (eq_iff (key_of m r.pod) key).0 same in
        rw (← e) (
          own-Holds uid g r t (lookup (key_of m r.pod) t.pods)
            (lookup (key_of m r.pod) t.lifecycle_intent) refl refl (rw e h.tracked) (rw e h.intent))
    | inr differs ↦ other-Holds key uid g r t differs h
  ]

  -- No sequence of lifecycle writes, by any callers with any pods, loses the intent of the tracked
  -- incarnation or takes its observed generation back.
  pub write_all-Holds :
      (key uid : String) (g : ℕ) (rs : List WriteRequest) (t : Tables)
      → Holds key uid g t
      → Holds key uid g (write_all m rs t)
  write_all-Holds key uid g [] t h = h
  write_all-Holds key uid g (r ∷ rs) t h =
      write_all-Holds key uid g rs (write m r t).tables (write-Holds key uid g r t h)
