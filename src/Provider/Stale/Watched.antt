-- ===== src/Provider/Stale/Watched.antt =====
-- The watch of a busy create comes to an end (reconcile.go).
use vk_cocoon.Base.{
  ℕ, zero, suc, ◌+◌, ◌*◌, ◌≤◌, ◌<◌, ◌≡◌, refl, arith, Bool, true, false, Option, String, min,
  is_some,
}
use vk_cocoon.Base.Table.{lookup, lookup-delete_self}
use vk_cocoon.Kube.{Meta}
use vk_cocoon.Vm.{Vm, Reply, ok, not_found, err}
use vk_cocoon.Provider.State.{Settings, Tables}
use vk_cocoon.Provider.Evict.{recheck_initial_delay, recheck_max_delay, recheck_budget}
use vk_cocoon.Provider.Stale.{
  Settled, settle_busy_create, classify_seen, classify_settled_create, is_channel,
}
use vk_cocoon.Provider.Stale.Watch.{
  is_resolved, after_classify, after_verb, after_sleep, watch_rounds, run_busy_watch,
}
use vk_cocoon.Provider.PostClone.Wait.{KeepsTime}
use vk_cocoon.Provider.World.{
  Env, World, Io, call, reconcile_stale_create, vm_inspect, read_clock, sleep,
}

module _ (m : Meta) (settings : Settings) (env : Env) (time : KeepsTime env) where
  abbrev now : World → ℕ
  now w = env.clock w.log

  -- The classification takes no time away where it sends the loop on.
  after_classify-ends :
      (s : Settled) (deadline : ℕ) (again : Io (Option (Unit {0}))) (w : World)
      → ((u : World) → now w ≤ now u → now u ≤ deadline → is_some (again u).0 ≡ true)
      → is_some (after_classify m settings env s deadline again w).0 ≡ true
  unfolding call
  after_classify-ends (Settled.adoptable fresh) deadline again w h = refl
  after_classify-ends Settled.settled deadline again w h = refl
  after_classify-ends Settled.transitional deadline again w h =
      let w1 = (call env env.clock read_clock w).1 in
      ground (arith, time.later read_clock w.log, h w1)

  classify_seen-ends :
      (r : Reply Vm) (deadline : ℕ) (again : Io (Option (Unit {0}))) (w : World)
      → ((u : World) → now w ≤ now u → now u ≤ deadline → is_some (again u).0 ≡ true)
      → (let (s, w1) = classify_seen m settings env r w in
          is_some (after_classify m settings env s deadline again w1).0 ≡ true)
  classify_seen-ends (ok v) deadline again w h =
      ground (arith, after_classify-ends Settled.transitional deadline again w h)
  classify_seen-ends not_found deadline again w h = refl
  classify_seen-ends (err e) deadline again w h =
      after_classify-ends Settled.transitional deadline again w h

  after_verb-ends :
      (resolved : Bool) (id : String) (deadline : ℕ) (again : Io (Option (Unit {0}))) (w : World)
      → ((u : World) → now w ≤ now u → now u ≤ deadline → is_some (again u).0 ≡ true)
      → is_some (after_verb m settings env resolved id deadline again w).0 ≡ true
  unfolding classify_settled_create call
  after_verb-ends true id deadline again w h = refl
  after_verb-ends false id deadline again w h =
      let (r, w1) = call env env.vm (vm_inspect id) w in
      classify_seen-ends r deadline again w1
        (λ u a b. h u (ground (arith, time.later (vm_inspect id) w.log)) b)

  after_sleep-ends :
      (slept : Bool) (id : String) (deadline : ℕ) (again : Io (Option (Unit {0}))) (w : World)
      → (slept ≡ true → (u : World) → now w ≤ now u → now u ≤ deadline → is_some (again u).0 ≡ true)
      → is_some (after_sleep m settings env slept id deadline again w).0 ≡ true
  unfolding call
  after_sleep-ends false id deadline again w h = refl
  after_sleep-ends true id deadline again w h =
      let (outcome, w1) = call env env.outcome (reconcile_stale_create id) w in
      after_verb-ends (is_resolved outcome) id deadline again w1
        (λ u a b. h refl u (ground (arith, time.later (reconcile_stale_create id) w.log)) b)

  rounds-end :
      (n deadline delay : ℕ) (id : String) (w : World)
      → recheck_initial_delay ≤ delay
      → suc deadline ≤ now w + suc n * recheck_initial_delay
      → is_some (watch_rounds m settings env (suc n) deadline delay id w).0 ≡ true
  unfolding watch_rounds call
  rounds-end zero deadline delay id w long h =
      let (slept, w1) = call env env.awake (sleep delay) w in
      after_sleep-ends slept id deadline _ w1
        (λ s u a b. absurd (ground (arith, time.naps delay w.log s)))
  rounds-end (suc n) deadline delay id w long h =
      let (slept, w1) = call env env.awake (sleep delay) w in
      after_sleep-ends slept id deadline _ w1 (λ s u a b.
        rounds-end n deadline (min (delay * 2) recheck_max_delay) id u (omega arith)
          (ground (arith, time.naps delay w.log s)))

-- The test of the channel that `settleBusyCreate` makes.
abbrev pub holds_channel : String → ℕ → Tables → Bool
holds_channel name settled t = is_channel settled (lookup name t.busy_creates)

settle-holds_channel :
    (name : String) (settled : ℕ) (t : Tables)
    → holds_channel name settled (settle_busy_create name settled t) ≡ false
unfolding settle_busy_create
settle-holds_channel name settled t = ground (arith, lookup-delete_self name t.busy_creates)

-- Where the clock does not go back and sleeps last as long as asked, the watch of a busy create
-- returns, within as many rounds as sleeps of the shortest delay exceed its budget; and then its
-- channel no longer stands under the name, so that no create waits for it.
pub run_busy_watch-ends :
    (m : Meta) (settings : Settings) (env : Env) (n : ℕ) (id name : String) (settled : ℕ)
    (w : World)
    → KeepsTime env
    → recheck_budget < suc n * recheck_initial_delay
    → (let r = run_busy_watch m settings env (suc n) id name settled w in
        (is_some r.0 ≡ true) × (holds_channel name settled r.1.tables ≡ false))
unfolding run_busy_watch call
run_busy_watch-ends m settings env n id name settled w time h =
    let (start, w1) = call env env.clock read_clock w in
    let w2 =
      (watch_rounds m settings env (suc n) (start + recheck_budget) recheck_initial_delay id
        w1).1 in
    (
      rounds-end m settings env time n (start + recheck_budget) recheck_initial_delay id w1
          (omega arith) (omega arith),
      settle-holds_channel name settled w2.tables,
    )
