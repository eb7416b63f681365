-- ===== src/Provider/Reclaim/Unused.antt =====
-- The reclaimer drops nothing that a pod of the node uses (gc.go).
use text.Mathlib.Text.{starts_with, find?}
use vk_cocoon.Base.{
  is_some, ◌≡◌, refl, Bool, true, false, not, ◌&&◌, ◌||◌, String, List, [], ◌∷◌, arith, ◌==◌,
  eq_refl,
}
use vk_cocoon.Base.Seq.{All, exists}
use vk_cocoon.Base.Table.{Table}
use vk_cocoon.Kube.{Pod, Meta}
use vk_cocoon.Vm.{Reply, ok, not_found, err, Snapshot}
use vk_cocoon.Provider.State.{Settings, Tables}
use vk_cocoon.Provider.World.{
  Env, World, Effect, call, Manifest, snapshot_remove, snapshot_list, get_manifest, fetch_config,
}
use vk_cocoon.Provider.Delete.{remove_local_snapshots, fork_snapshot_name}
use vk_cocoon.Provider.Source.{Verdict, current, stale, unverified, verify_local_snapshot}
use vk_cocoon.Provider.Prepare.{local_snapshot_name}
use vk_cocoon.Provider.Reclaim.{
  cut_suffix, snapshot_names_in_use, vm_name_of, is_unused, is_copy, drop_stale, reclaim_one,
  reclaim_each, reclaim_listed, reclaim_local_snapshots,
}

-- Every removal in a history passes the test, which sees what came before it.
unfoldable pub drops_only : (List Effect → String → Bool) → List Effect → Bool
drops_only p [] = true
drops_only p (snapshot_remove n ∷ log) = drops_only p log && p log n
drops_only p (e ∷ log) = drops_only p log

-- The registry has said that it has no hibernate snapshot of the name, or one with another SnapshotID.
abbrev other_id : Reply String → String → Bool
other_id (ok named) id = not (named == id)
other_id _ id = false

abbrev is_missing : Reply Manifest → Bool
is_missing not_found = true
is_missing _ = false

unfoldable pub outdated : Env → String → String → List Effect → Bool
outdated env name id [] = false
outdated env name id (get_manifest n ∷ log) =
    n == name && is_missing (env.manifest (get_manifest n ∷ log)) || outdated env name id log
outdated env name id (fetch_config n ∷ log) =
    n == name && other_id (env.config_id (fetch_config n ∷ log)) id || outdated env name id log
outdated env name id (e ∷ log) = outdated env name id log

module _ (m : Meta) (settings : Settings) (env : Env) where
  -- The VM names of the tracked pods, and the snapshots that their images stand for.
  unfoldable pub names_needed : Table Pod → List String
  names_needed [] = []
  names_needed (row ∷ rows) =
      let ref = m.parse_ref (m.parse_vm_spec row.1).image in
      (m.parse_vm_spec row.1).vm_name ∷ local_snapshot_name m ref.0 ref.1 ∷ names_needed rows

  abbrev base_of : Snapshot → String
  base_of s = (cut_suffix s.name m.hibernate_import_suffix).0

  abbrev was_cut : Snapshot → Bool
  was_cut s = (cut_suffix s.name m.hibernate_import_suffix).1

  -- `s` may be dropped under the name `n`: no pod needs it, the provider made it, and it is a copy that
  -- can be pulled again, or the registry has said that it is outdated.
  unfoldable pub may_drop : List String → Snapshot → List Effect → String → Bool
  may_drop needed s log n =
      not (exists (λ k. k == base_of s) needed)
      && (s.description == "vk-cocoon clone source" || starts_with (base_of s) "vk-")
      && ((was_cut s
              || s.description == "vk-cocoon clone source"
              || is_some (find? (base_of s) ":"))
            && n == s.name
          || outdated env (base_of s) s.id log
            && (n == base_of s || n == fork_snapshot_name (base_of s)))

  -- Some listed snapshot may be dropped under the name.
  unfoldable pub may_drop_one : List String → List Snapshot → List Effect → String → Bool
  may_drop_one names listed log n = exists (λ s. may_drop names s log n) listed

  abbrev Allows : List String → (List Effect → String → Bool) → Snapshot → Type 0
  Allows names p s =
      (log : List Effect) (n : String) → may_drop names s log n ≡ true → p log n ≡ true

  weaken :
      (names : List String) (p q : List Effect → String → Bool) (listed : List Snapshot)
      → ((log : List Effect) (n : String) → p log n ≡ true → q log n ≡ true)
      → All (Allows names p) listed
      → All (Allows names q) listed
  weaken names p q [] h a = tt
  weaken names p q (s ∷ rest) h (a, more) =
      (λ log n d. h log n (a log n d), weaken names p q rest h more)

  listed-All :
      (names : List String) (listed : List Snapshot)
      → All (Allows names (may_drop_one names listed)) listed
  unfolding may_drop_one exists
  listed-All names [] = tt
  listed-All names (s ∷ rest) = (
    λ log n d. ground arith,
    weaken names (may_drop_one names rest) (may_drop_one names (s ∷ rest)) rest
        (λ log n h. ground arith) (listed-All names rest),
  )

module _ (m : Meta) (settings : Settings) (env : Env) (p : List Effect → String → Bool) where
  abbrev at : World → Bool
  at w = drops_only p w.log

  local-drops :
      (n : String) (w : World)
      → p w.log n ≡ true
      → p (snapshot_remove n ∷ w.log) (fork_snapshot_name n) ≡ true
      → at w ≡ true
      → at (remove_local_snapshots m settings env n w).1 ≡ true
  unfolding remove_local_snapshots call drops_only
  local-drops n w h k c = ground arith

  verify-drops :
      (n : String) (s : Snapshot) (w : World)
      → at (verify_local_snapshot m settings env n s w).1 ≡ at w
  unfolding verify_local_snapshot call drops_only
  verify-drops n s w = ground arith

  abbrev is_stale : Verdict → Bool
  is_stale (stale man id) = true
  is_stale _ = false

  verify-outdated :
      (n : String) (s : Snapshot) (w : World)
      → let (v, w') = verify_local_snapshot m settings env n s w in
        not (is_stale v) || outdated env n s.id w'.log ≡ true
  unfolding verify_local_snapshot call outdated
  verify-outdated n s w = ground (arith, eq_refl n)

  removed-outdated :
      (n name id : String) (log : List Effect)
      → outdated env name id (snapshot_remove n ∷ log) ≡ outdated env name id log
  unfolding outdated
  removed-outdated n name id log = refl

  drop_stale-drops :
      (names : List String) (v : Verdict) (s : Snapshot) (w : World)
      → Allows m settings env names p s
      → is_unused m names s ≡ true
      → not (is_stale v) || outdated env (vm_name_of m s) s.id w.log ≡ true
      → at w ≡ true
      → at (drop_stale m settings env v s w).1 ≡ true
  unfolding may_drop is_unused vm_name_of
  drop_stale-drops names current s w a u r c = c
  drop_stale-drops names (unverified e) s w a u r c = c
  drop_stale-drops names (stale man id) s w a u r c =
      let n = vm_name_of m s in
      local-drops n w (a w.log n (ground (arith, eq_refl n)))
        (a (snapshot_remove n ∷ w.log) (fork_snapshot_name n)
          (ground (arith, eq_refl (fork_snapshot_name n), removed-outdated n n s.id w.log)))
        c

  one-drops :
      (names : List String) (s : Snapshot) (w : World)
      → Allows m settings env names p s
      → at w ≡ true
      → at (reclaim_one m settings env names s w).1 ≡ true
  unfolding reclaim_one call drops_only may_drop is_unused is_copy vm_name_of
  one-drops names s w a c =
      let (v, w') = verify_local_snapshot m settings env (vm_name_of m s) s w in
      ground (
        arith,
        a w.log s.name,
        eq_refl s.name,
        verify-drops (vm_name_of m s) s w,
        verify-outdated (vm_name_of m s) s w,
        drop_stale-drops names v s w' a,
      )

  pub each-drops :
      (names : List String) (listed : List Snapshot) (w : World)
      → All (Allows m settings env names p) listed
      → at w ≡ true
      → at (reclaim_each m settings env names listed w).1 ≡ true
  unfolding reclaim_each
  each-drops names [] w a c = c
  each-drops names (s ∷ rest) w (a, more) c =
      each-drops names rest (reclaim_one m settings env names s w).1 more (one-drops names s w a c)

abbrev pub listed_or_none : Reply (List Snapshot) → List Snapshot
listed_or_none (ok listed) = listed
listed_or_none _ = []

needed_lem :
    (m : Meta) (settings : Settings) (env : Env) (pods : Table Pod)
    → snapshot_names_in_use m pods ≡ names_needed m settings env pods
unfolding snapshot_names_in_use names_needed
needed_lem m settings env [] = refl
needed_lem m settings env ((key, pod) ∷ pods) = ground (arith, needed_lem m settings env pods)

listed-drops :
    (m : Meta) (settings : Settings) (env : Env) (r : Reply (List Snapshot)) (w : World)
    → let names = names_needed m settings env w.tables.pods in
      let p = may_drop_one m settings env names (listed_or_none r) in
      drops_only p w.log ≡ true → drops_only p (reclaim_listed m settings env r w).1.log ≡ true
listed-drops m settings env (ok listed) w c =
    let names = names_needed m settings env w.tables.pods in
    rw (needed_lem m settings env w.tables.pods) (
      each-drops m settings env (may_drop_one m settings env names listed) names listed w
        (listed-All m settings env names listed) c)
listed-drops m settings env not_found w c = c
listed-drops m settings env (err e) w c = c

-- Whatever the calls answer, the reclaimer removes a snapshot only if one is listed that no tracked pod
-- has the VM name of, nor the image that it was pulled for, and that the provider made; and it removes
-- that snapshot where it can be pulled again, or else the hibernate snapshot and the fork snapshot of
-- its VM name after the registry has answered that it has none, or one with another SnapshotID.
pub reclaim_local_snapshots-drops :
    (m : Meta) (settings : Settings) (env : Env) (t : Tables)
    → let w : World = record { tables = t; log = [] } in
      let (r, w') = call env env.snapshots snapshot_list w in
      let needed = names_needed m settings env w'.tables.pods in
      drops_only
        (may_drop_one m settings env needed (listed_or_none r))
        (reclaim_local_snapshots m settings env w).1.log
      ≡ true
unfolding reclaim_local_snapshots
reclaim_local_snapshots-drops m settings env t =
    let w : World = record { tables = t; log = [] } in
    let (r, w') = call env env.snapshots snapshot_list w in
    listed-drops m settings env r w' (unfold call drops_only in refl)
