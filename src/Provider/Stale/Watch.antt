-- ===== src/Provider/Stale/Watch.antt =====
-- provider/cocoon/reconcile.go: the goroutine of `watchBusyCreate`, which asks again until a record that
-- is still being created is settled.
use vk_cocoon.Base.{
  ℕ, zero, suc, ◌+◌, ◌*◌, Bool, true, false, not, ◌&&◌, Option, none, some, String, List, ◌==◌, ltb,
  min,
}
use vk_cocoon.Base.Seq.{exists}
use vk_cocoon.Kube.{Pod, Meta}
use vk_cocoon.Vm.{Vm, Reply, ok, not_found, err, StaleCreateOutcome}
use vk_cocoon.Provider.State.{Settings}
use vk_cocoon.Provider.Track.{index_orphan_by_name}
use vk_cocoon.Provider.Evict.{recheck_initial_delay, recheck_max_delay, recheck_budget}
use vk_cocoon.Provider.Stale.{Settled, settle_busy_create, handle_orphan, classify_settled_create}
use vk_cocoon.Provider.World.{
  Env, Io, list_node_pods, reconcile_stale_create, read_clock, sleep, ◌>>=◌, ◌>>◌, pure, locked,
  call,
}

-- The verb has collected the record, or does not find it.
abbrev pub is_resolved : Reply StaleCreateOutcome → Bool
is_resolved (ok StaleCreateOutcome.collected) = true
is_resolved (ok StaleCreateOutcome.not_found) = true
is_resolved (ok StaleCreateOutcome.busy) = false
is_resolved (ok StaleCreateOutcome.not_creating) = false
is_resolved not_found = false
is_resolved (err e) = false

module _ (m : Meta) (settings : Settings) (env : Env) where
  abbrev wants : String → Pod → Bool
  wants name pod = not pod.is_terminating && (m.parse_vm_spec pod).vm_name == name

  abbrev wanted_of : Reply (List Pod) → String → Reply Bool
  wanted_of (ok pods) name = ok (exists (wants name) pods)
  wanted_of not_found name = err "list pods"
  wanted_of (err e) name = err e

  -- `vmNameWanted`, with `listNodePods`.
  unfoldable pub vm_name_wanted : String → Io (Reply Bool)
  vm_name_wanted name = do pods ← call env env.node_pods list_node_pods; pure (wanted_of pods name)

  abbrev index_or_orphan : Reply Bool → Vm → Io (Unit {0})
  index_or_orphan (ok false) v = handle_orphan m settings env v
  index_or_orphan (ok true) v = locked (index_orphan_by_name (some v))
  index_or_orphan not_found v = locked (index_orphan_by_name (some v))
  index_or_orphan (err e) v = locked (index_orphan_by_name (some v))

  -- `settleCommittedCreate`: without an answer the VM is kept for adoption.
  unfoldable pub settle_committed_create : Vm → Io (Unit {0})
  settle_committed_create v = do wanted ← vm_name_wanted v.name; index_or_orphan wanted v

  abbrev pub after_classify : Settled → ℕ → Io (Option (Unit {0})) → Io (Option (Unit {0}))
  after_classify (Settled.adoptable fresh) deadline again = do
    settle_committed_create fresh
    pure (some tt)
  after_classify Settled.settled deadline again = pure (some tt)
  after_classify Settled.transitional deadline again = do
    now ← call env env.clock read_clock
    elim (ltb deadline now) [ true ↦ pure (some tt) | false ↦ again ]

  abbrev pub after_verb : Bool → String → ℕ → Io (Option (Unit {0})) → Io (Option (Unit {0}))
  after_verb true id deadline again = pure (some tt)
  after_verb false id deadline again = do
    s ← classify_settled_create m settings env id
    after_classify s deadline again

  abbrev pub after_sleep : Bool → String → ℕ → Io (Option (Unit {0})) → Io (Option (Unit {0}))
  after_sleep false id deadline again = pure (some tt)
  after_sleep true id deadline again = do
    outcome ← call env env.outcome (reconcile_stale_create id)
    after_verb (is_resolved outcome) id deadline again

  -- The loop, on fuel; `none` when it runs out.
  unfoldable pub watch_rounds : ℕ → ℕ → ℕ → String → Io (Option (Unit {0}))
  watch_rounds zero deadline delay id = pure none
  watch_rounds (suc n) deadline delay id = do
    slept ← call env env.awake (sleep delay)
    after_sleep slept id deadline (watch_rounds n deadline (min (delay * 2) recheck_max_delay) id)

  -- The goroutine: however the loop ends, the channel `settled` is taken down.
  unfoldable pub run_busy_watch : ℕ → String → String → ℕ → Io (Option (Unit {0}))
  run_busy_watch fuel id name settled = do
    start ← call env env.clock read_clock
    r ← watch_rounds fuel (start + recheck_budget) recheck_initial_delay id
    locked (settle_busy_create name settled)
    pure r
