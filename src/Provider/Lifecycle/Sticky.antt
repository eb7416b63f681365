-- ===== src/Provider/Lifecycle/Sticky.antt =====
-- A Failed intent is left by a new attempt or a new generation only (lifecycle.go,
-- applyLifecycleLocked).
use vk_cocoon.Base.{
  ℕ, ◌≤◌, ◌≡◌, refl, inl, inr, Bool, true, false, Option, none, some, String, List, [], ◌∷◌, arith,
  ◌==◌, eq_iff, Bool-cases,
}
use vk_cocoon.Base.Seq.{All}
use vk_cocoon.Base.Table.{lookup, lookup-insert_self, lookup-insert_ne}
use vk_cocoon.Kube.{Pod, Meta, StatusLaws, LifecycleState, is_failed, creating, hibernating}
use vk_cocoon.Provider.State.{Tables, LifecycleEntry, key_of}
use vk_cocoon.Provider.Lifecycle.{apply_lifecycle}
use vk_cocoon.Provider.Lifecycle.Writes.{WriteRequest, write, write_all}

module _ (m : Meta) where
  abbrev pub FailedAt : String → ℕ → Option LifecycleEntry → Type 0
  FailedAt uid g none = ⊥
  FailedAt uid g (some e) =
      (e.uid ≡ uid) × (is_failed e.status.state ≡ true) × (e.status.observed_generation ≡ g)

  abbrev pub TracksUpTo : String → ℕ → Option Pod → Type 0
  TracksUpTo uid g none = ⊥
  TracksUpTo uid g (some p) = (p.uid ≡ uid) × (m.read_generation p ≤ g)

  -- The tracked incarnation `uid` has failed at generation `g`.
  pub record HasFailed (key uid : String) (g : ℕ) (t : Tables) : Type 0 where
    pub tracked : TracksUpTo uid g (lookup key t.pods)
    pub intent : FailedAt uid g (lookup key t.lifecycle_intent)

  abbrev pub starts_attempt : LifecycleState → Bool
  starts_attempt creating = true
  starts_attempt hibernating = true
  starts_attempt _ = false

  -- The write starts no attempt and brings no later generation.
  abbrev pub IsLate : ℕ → WriteRequest → Type 0
  IsLate g r = (starts_attempt r.state ≡ false) × (m.read_generation r.pod ≤ g)

module _ (m : Meta) (laws : StatusLaws m) where
  open laws use {apply_uid, apply_generation}

  own-HasFailed :
      (uid : String) (g : ℕ) (r : WriteRequest) (t : Tables) (o : Option Pod)
      (e : Option LifecycleEntry)
      → lookup (key_of m r.pod) t.pods ≡ o
      → lookup (key_of m r.pod) t.lifecycle_intent ≡ e
      → TracksUpTo m uid g o
      → FailedAt m uid g e
      → IsLate m g r
      → HasFailed m (key_of m r.pod) uid g (write m r t).tables
  unfolding apply_lifecycle
  own-HasFailed uid g r t none e po pe h k late = elim h [ ]
  own-HasFailed uid g r t (some p) none po pe h k late = elim k [ ]
  own-HasFailed uid g r t (some p) (some e) po pe h k late = grind (
    arith,
    lookup-insert_self,
    apply_uid,
    apply_generation,
    eq_iff p.uid r.pod.uid,
    eq_iff e.uid r.pod.uid,
  )

  other-HasFailed :
      (key uid : String) (g : ℕ) (r : WriteRequest) (t : Tables)
      → (key_of m r.pod == key) ≡ false
      → HasFailed m key uid g t
      → HasFailed m key uid g (write m r t).tables
  unfolding apply_lifecycle
  other-HasFailed key uid g r t e h = grind (arith, lookup-insert_ne)

  write-HasFailed :
      (key uid : String) (g : ℕ) (r : WriteRequest) (t : Tables)
      → IsLate m g r
      → HasFailed m key uid g t
      → HasFailed m key uid g (write m r t).tables
  write-HasFailed key uid g r t late h = elim (Bool-cases (key_of m r.pod == key)) [
    | inl same ↦
        let e = (eq_iff (key_of m r.pod) key).0 same in
        rw (← e) (
          own-HasFailed uid g r t (lookup (key_of m r.pod) t.pods)
            (lookup (key_of m r.pod) t.lifecycle_intent) refl refl (rw e h.tracked) (rw e h.intent)
            late)
    | inr differs ↦ other-HasFailed key uid g r t differs h
  ]

  -- Once the tracked incarnation has failed at a generation, it stays failed at that generation
  -- under any sequence of writes that start no attempt and bring no later generation.
  pub write_all-HasFailed :
      (key uid : String) (g : ℕ) (rs : List WriteRequest) (t : Tables)
      → All (IsLate m g) rs
      → HasFailed m key uid g t
      → HasFailed m key uid g (write_all m rs t)
  write_all-HasFailed key uid g [] t late h = h
  write_all-HasFailed key uid g (r ∷ rs) t late h =
      write_all-HasFailed key uid g rs (write m r t).tables late.1
        (write-HasFailed key uid g r t late.0 h)
