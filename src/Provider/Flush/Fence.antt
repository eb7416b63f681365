-- ===== src/Provider/Flush/Fence.antt =====
-- A flush sends three patches at most, and leaves alone whatever it does not own (lifecycle.go).
use vk_cocoon.Base.{
  ℕ, zero, suc, ◌+◌, ◌≤◌, ◌≡◌, refl, Bool, true, false, Option, some, String, List, [], ◌∷◌, arith,
  ◌==◌, eq_iff, ◌⊎◌, inl, inr, Bool-cases,
}
use vk_cocoon.Base.Table.{Table, lookup, lookup-insert_self, lookup-insert_ne, lookup-delete_ne}
use vk_cocoon.Kube.{Meta, LifecycleStatus}
use vk_cocoon.Provider.State.{Tables, Settings, LifecycleEntry}
use vk_cocoon.Provider.Lifecycle.{
  lifecycle_owned, record_lifecycle_flushed, drop_superseded_lifecycle,
}
use vk_cocoon.Provider.World.{Env, World, Effect, patch_annotations, sleep, call}
use vk_cocoon.Provider.Flush.{
  flush_attempts, flush_lifecycle, patch_incarnation_annotations, lifecycle_patch_interval,
  lifecycle_patch_attempts, flushed,
}

-- The annotation patches in a history.
abbrev pub patches : List Effect → ℕ
patches [] = 0
patches (patch_annotations key uid annos ∷ log) = suc (patches log)
patches (e ∷ log) = patches log

module _ (m : Meta) (settings : Settings) (env : Env) where
  patch-patches :
      (key uid : String) (annos : Table (Option String)) (w : World)
      → patches (patch_incarnation_annotations m settings env key uid annos w).1.log
        ≤ suc (patches w.log)
  unfolding patch_incarnation_annotations call
  patch-patches key uid annos w = ground arith

  abbrev nap : World → Bool × World
  nap = call env env.awake (sleep lifecycle_patch_interval)

  nap-patches : (w : World) → patches (nap w).1.log ≡ patches w.log
  unfolding call
  nap-patches w = refl

  flush_attempts-patches :
      (n : ℕ) (key uid : String) (annos : Table (Option String)) (snap : String) (w : World)
      → patches (flush_attempts m settings env n key uid annos snap w).1.log ≤ n + patches w.log
  unfolding flush_attempts
  flush_attempts-patches zero key uid annos snap w = omega arith
  flush_attempts-patches (suc zero) key uid annos snap w =
      ground (arith, patch-patches key uid annos w)
  flush_attempts-patches (suc (suc n)) key uid annos snap w =
      let w' = (patch_incarnation_annotations m settings env key uid annos w).1 in
      ground (
        arith,
        patch-patches key uid annos w,
        nap-patches w',
        flush_attempts-patches (suc n) key uid annos snap (nap w').1,
      )

  -- A flush sends three patches at most, whatever the apiserver answers and whatever other
  -- goroutines do meanwhile.
  pub flush_lifecycle-patches :
      (key uid : String) (status : LifecycleStatus) (w : World)
      → patches (flush_lifecycle m settings env key uid status w).1.log ≤ 3 + patches w.log
  unfolding flush_lifecycle
  flush_lifecycle-patches key uid status w =
      flush_attempts-patches lifecycle_patch_attempts key uid (m.status_annotations status)
        (m.status_snapshot status) w

  -- The other goroutines leave the row `k` of the intents alone.
  abbrev pub LeavesIntent : String → Type 0
  LeavesIntent k =
      (log : List Effect) (t : Tables)
      → lookup k (env.others log t).lifecycle_intent ≡ lookup k t.lifecycle_intent

  abbrev intent_at : String → World → Option LifecycleEntry
  intent_at k w = lookup k w.tables.lifecycle_intent

  patch-intent :
      (k key uid : String) (annos : Table (Option String)) (w : World)
      → LeavesIntent k
      → intent_at k (patch_incarnation_annotations m settings env key uid annos w).1 ≡ intent_at k w
  unfolding patch_incarnation_annotations call
  patch-intent k key uid annos w quiet =
      ground (arith, quiet (patch_annotations key uid annos ∷ w.log) w.tables)

  nap-intent : (k : String) (w : World) → LeavesIntent k → intent_at k (nap w).1 ≡ intent_at k w
  unfolding call
  nap-intent k w quiet = quiet (sleep lifecycle_patch_interval ∷ w.log) w.tables

  abbrev row_after : (Tables → Tables) → String → Tables → Option LifecycleEntry
  row_after f k t = lookup k (f t).lifecycle_intent

  recorded-intent :
      (k key uid snap : String) (t : Tables)
      → (key == k) ≡ false
      → row_after (record_lifecycle_flushed m key uid snap) k t ≡ lookup k t.lifecycle_intent
  unfolding record_lifecycle_flushed
  recorded-intent k key uid snap t h = grind (arith, lookup-insert_ne)

  dropped-intent :
      (k key uid snap : String) (t : Tables)
      → (key == k) ≡ false
      → row_after (drop_superseded_lifecycle m key uid snap) k t ≡ lookup k t.lifecycle_intent
  unfolding drop_superseded_lifecycle
  dropped-intent k key uid snap t h = grind (arith, lookup-delete_ne)

  flush_attempts-intent :
      (n : ℕ) (k key uid : String) (annos : Table (Option String)) (snap : String) (w : World)
      → LeavesIntent k
      → (key == k) ≡ false
      → intent_at k (flush_attempts m settings env n key uid annos snap w).1 ≡ intent_at k w
  unfolding flush_attempts
  flush_attempts-intent zero k key uid annos snap w quiet h = refl
  flush_attempts-intent (suc zero) k key uid annos snap w quiet h =
      let w' = (patch_incarnation_annotations m settings env key uid annos w).1 in
      ground (
        arith,
        patch-intent k key uid annos w quiet,
        recorded-intent k key uid snap w'.tables h,
        dropped-intent k key uid snap w'.tables h,
      )
  flush_attempts-intent (suc (suc n)) k key uid annos snap w quiet h =
      let w' = (patch_incarnation_annotations m settings env key uid annos w).1 in
      ground (
        arith,
        patch-intent k key uid annos w quiet,
        nap-intent k w' quiet,
        recorded-intent k key uid snap w'.tables h,
        dropped-intent k key uid snap w'.tables h,
        flush_attempts-intent (suc n) k key uid annos snap (nap w').1 quiet h,
      )

  unowned-intent :
      (n : ℕ) (key uid : String) (annos : Table (Option String)) (snap : String) (w : World)
      → lifecycle_owned m key uid snap w.tables ≡ false
      → intent_at key (flush_attempts m settings env n key uid annos snap w).1 ≡ intent_at key w
  unfolding flush_attempts
  unowned-intent zero key uid annos snap w h = refl
  unowned-intent (suc n) key uid annos snap w h = ground arith

  -- The row as it stands once its status is flushed.
  abbrev pub flushed_row : LifecycleEntry → String → LifecycleEntry
  flushed_row e snap = record e { flushed = snap }

  recorded-row :
      (key uid snap : String) (e : LifecycleEntry) (t : Tables)
      → lookup key t.lifecycle_intent ≡ some e
      → lifecycle_owned m key uid snap t ≡ true
      → row_after (record_lifecycle_flushed m key uid snap) key t ≡ some (flushed_row e snap)
  unfolding record_lifecycle_flushed lifecycle_owned
  recorded-row key uid snap e t h o = grind (arith, lookup-insert_self)

  kept-owned :
      (key uid snap : String) (t t' : Tables)
      → lookup key t'.lifecycle_intent ≡ lookup key t.lifecycle_intent
      → lifecycle_owned m key uid snap t' ≡ lifecycle_owned m key uid snap t
  unfolding lifecycle_owned
  kept-owned key uid snap t t' h = ground (arith, h)

  attempts-row :
      (n : ℕ) (key uid : String) (annos : Table (Option String)) (snap : String)
      (e : LifecycleEntry) (w : World)
      → LeavesIntent key
      → intent_at key w ≡ some e
      → (flush_attempts m settings env n key uid annos snap w).0 ≡ flushed
      → intent_at key (flush_attempts m settings env n key uid annos snap w).1
        ≡ some (flushed_row e snap)
  unfolding flush_attempts
  attempts-row zero key uid annos snap e w quiet h f = cc
  attempts-row (suc zero) key uid annos snap e w quiet h f =
      let t = (patch_incarnation_annotations m settings env key uid annos w).1.tables in
      ground (
        arith,
        patch-intent key key uid annos w quiet,
        kept-owned key uid snap w.tables t,
        recorded-row key uid snap e t,
      )
  attempts-row (suc (suc n)) key uid annos snap e w quiet h f =
      let w' = (patch_incarnation_annotations m settings env key uid annos w).1 in
      let t = w'.tables in
      ground (
        arith,
        patch-intent key key uid annos w quiet,
        nap-intent key w' quiet,
        kept-owned key uid snap w.tables t,
        recorded-row key uid snap e t,
        attempts-row (suc n) key uid annos snap e (nap w').1 quiet,
      )

  -- After a flush that reports success, where no other goroutine touches the row of the intent, the
  -- row is there with its status and incarnation as before, marked as flushed with the snapshot of the
  -- flushed status.
  pub flush_lifecycle-settled :
      (key uid : String) (status : LifecycleStatus) (e : LifecycleEntry) (w : World)
      → LeavesIntent key
      → intent_at key w ≡ some e
      → (flush_lifecycle m settings env key uid status w).0 ≡ flushed
      → intent_at key (flush_lifecycle m settings env key uid status w).1
        ≡ some (flushed_row e (m.status_snapshot status))
  unfolding flush_lifecycle
  flush_lifecycle-settled key uid status e w quiet h f =
      attempts-row lifecycle_patch_attempts key uid (m.status_annotations status)
        (m.status_snapshot status) e w quiet h f

  -- A flush changes no row but its own, and not even that if another status or another incarnation
  -- holds it: with rows that only the flush could touch, every such row is what it was.
  pub flush_lifecycle-intent :
      (k key uid : String) (status : LifecycleStatus) (w : World)
      → LeavesIntent k
      → ((key == k) ≡ false) ⊎ (lifecycle_owned m k uid (m.status_snapshot status) w.tables ≡ false)
      → intent_at k (flush_lifecycle m settings env key uid status w).1 ≡ intent_at k w
  unfolding flush_lifecycle
  flush_lifecycle-intent k key uid status w quiet (inl h) =
      flush_attempts-intent lifecycle_patch_attempts k key uid (m.status_annotations status)
        (m.status_snapshot status) w quiet h
  flush_lifecycle-intent k key uid status w quiet (inr h) = elim (Bool-cases (key == k)) [
    | inl same ↦ rw ((eq_iff key k).0 same) (
        unowned-intent lifecycle_patch_attempts k uid (m.status_annotations status)
          (m.status_snapshot status) w h)
    | inr differs ↦
        flush_attempts-intent lifecycle_patch_attempts k key uid (m.status_annotations status)
          (m.status_snapshot status) w quiet differs
  ]
