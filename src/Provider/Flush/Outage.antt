-- ===== src/Provider/Flush/Outage.antt =====
-- A flush outlasts a short outage of the apiserver (lifecycle.go).
use vk_cocoon.Base.{
  ℕ, zero, suc, ◌+◌, ◌≤◌, ◌≡◌, ◌⊎◌, true, false, Option, String, List, ◌∷◌, [], arith,
}
use vk_cocoon.Base.Table.{Table}
use vk_cocoon.Kube.{Meta, LifecycleStatus}
use vk_cocoon.Provider.State.{Tables, Settings}
use vk_cocoon.Provider.Lifecycle.{lifecycle_owned}
use vk_cocoon.Provider.World.{Env, World, Effect, patch_annotations, sleep, call}
use vk_cocoon.Provider.Flush.{
  flush_attempts, flush_lifecycle, patch_incarnation_annotations, lifecycle_patch_interval, flushed,
  is_accepted, patch_superseded,
}
use vk_cocoon.Provider.Flush.Fence.{patches}

-- The apiserver may be down, but never names another incarnation, and has recovered by the third
-- patch; no other goroutine changes the tables and no sleep is cancelled meanwhile.
pub record Recovers (env : Env) : Type 0 where
  pub alone : (log : List Effect) (t : Tables) → env.others log t ≡ t
  pub awake : (log : List Effect) → env.awake log ≡ true
  pub no_conflict : (log : List Effect) → patch_superseded (env.api log) ≡ false
  pub back : (log : List Effect) → 3 ≤ patches log → is_accepted (env.api log) ≡ true

-- A patch that gives the pod's incarnation these annotations was accepted.
abbrev pub Reached : Env → String → String → Table (Option String) → List Effect → Type 0
Reached env key uid annos [] = ⊥
Reached env key uid annos (e ∷ log) =
    ((e ≡ patch_annotations key uid annos) × (is_accepted (env.api (e ∷ log)) ≡ true))
    ⊎ Reached env key uid annos log

module _ (m : Meta) (settings : Settings) (env : Env) (calm : Recovers env)
    (client : settings.has_clientset ≡ true) where
  attempts-Reached :
      (n : ℕ) (key uid : String) (annos : Table (Option String)) (snap : String) (w : World)
      → lifecycle_owned m key uid snap w.tables ≡ true
      → 2 ≤ n + patches w.log
      → let r = flush_attempts m settings env (suc n) key uid annos snap w in
        (r.0 ≡ flushed) × Reached env key uid annos r.1.log
  unfolding flush_attempts patch_incarnation_annotations call
  attempts-Reached zero key uid annos snap w o p =
      let log = patch_annotations key uid annos ∷ w.log in
      let ok = calm.back log (omega arith) in ground (arith, client, ok)
  attempts-Reached (suc n) key uid annos snap w o p =
      let log = patch_annotations key uid annos ∷ w.log in
      let nap = sleep lifecycle_patch_interval in
      let t = env.others log w.tables in
      let w' : World = record { tables = env.others (nap ∷ log) t; log = nap ∷ log } in
      ground (
        arith,
        client,
        calm.alone log w.tables,
        calm.alone (nap ∷ log) t,
        calm.awake (nap ∷ log),
        calm.no_conflict log,
        attempts-Reached n key uid annos snap w',
      )

-- A flush of the status that the tables hold reaches the apiserver, if there is a client and the
-- apiserver is back by the third patch, never names another incarnation, no other goroutine changes
-- the tables meanwhile and no sleep is cancelled: a patch that gives this incarnation of the pod the
-- annotations of the status is sent and accepted, and the flush ends as one that went through.
pub flush_lifecycle-flushed :
    (m : Meta) (settings : Settings) (env : Env) (key uid : String) (status : LifecycleStatus)
    (t : Tables)
    → Recovers env
    → settings.has_clientset ≡ true
    → lifecycle_owned m key uid (m.status_snapshot status) t ≡ true
    → let r = flush_lifecycle m settings env key uid status (record { tables = t; log = [] }) in
      (r.0 ≡ flushed) × Reached env key uid (m.status_annotations status) r.1.log
unfolding flush_lifecycle
flush_lifecycle-flushed m settings env key uid status t calm client o =
    attempts-Reached m settings env calm client 2 key uid (m.status_annotations status)
      (m.status_snapshot status) (record { tables = t; log = [] }) o (omega arith)
