-- ===== src/Provider/PostClone/Wait.antt =====
-- The wait for a lease ends (update.go): where sleeps last as long as they are asked to, a number of
-- rounds that covers the budget is enough.
use vk_cocoon.Base.{
  ℕ, zero, suc, ◌+◌, ◌*◌, ◌≤◌, ◌≡◌, refl, Bool, true, false, Option, none, some, String, List, ◌∷◌,
  arith, is_some,
}
use vk_cocoon.Base.Table.{lookup}
use vk_cocoon.Kube.{Pod, VmSpec, Meta}
use vk_cocoon.Vm.{Vm}
use vk_cocoon.Provider.State.{Settings, key_of}
use vk_cocoon.Provider.Resume.{IpWait}
use vk_cocoon.Provider.Runtime.{resolve_vm_ip}
use vk_cocoon.Provider.World.{
  Env, World, Effect, call, tell, read_clock, sleep, guest_ipconfig, lookup_lease,
}
use vk_cocoon.Provider.PostClone.{
  ip_wait_budget, ip_wait_interval, sleep_round, round_without_ip, round_of, wait_rounds,
  wait_for_fresh_ip,
}

-- What Go documents of the clock: it does not go back, and a sleep that is not cancelled takes at
-- least as long as asked.
pub record KeepsTime (env : Env) : Type 0 where
  pub later : (e : Effect) (log : List Effect) → env.clock log ≤ env.clock (e ∷ log)
  pub naps :
      (n : ℕ) (log : List Effect)
      → env.awake (sleep n ∷ log) ≡ true
      → env.clock log + n ≤ env.clock (sleep n ∷ log)

module _ (m : Meta) (settings : Settings) (env : Env) (time : KeepsTime env) where
  abbrev interval : ℕ
  interval = ip_wait_interval settings

  abbrev now : World → ℕ
  now w = env.clock w.log

  abbrev ends : Option Bool × World → Bool
  ends r = is_some r.0

  resolve-later :
      (key : String) (v : Vm) (w : World) → now w ≤ now (resolve_vm_ip m settings env key v w).1
  unfolding resolve_vm_ip call
  resolve-later key v w = ground (arith, time.later (lookup_lease v.mac) w.log)

  -- A round that sleeps: the rest need only end once the interval has passed.
  sleep_round-ends :
      (deadline : ℕ) (again : World → Option Bool × World) (w : World)
      → ((u : World) → now w + interval ≤ now u → suc (now w) ≤ deadline → ends (again u) ≡ true)
      → ends (sleep_round m settings env deadline again w) ≡ true
  unfolding call
  sleep_round-ends deadline again w h =
      let w1 = (call env env.clock read_clock w).1 in
      let w2 = (call env env.awake (sleep interval) w1).1 in
      ground (arith, time.later read_clock w.log, time.naps interval w1.log, h w2)

  -- One round: it ends, given that the rounds which may follow it do.
  without_ip-ends :
      (deadline renew_at : ℕ) (nudged : Bool) (id : String)
      (nudged_again again : World → Option Bool × World) (w : World)
      → ((u : World) → now w + interval ≤ now u → suc (now w) ≤ deadline → ends (again u) ≡ true)
      → ((u : World) → nudged ≡ false → now w ≤ now u → ends (nudged_again u) ≡ true)
      → ends (round_without_ip m settings env deadline renew_at nudged id nudged_again again w)
        ≡ true
  unfolding call
  without_ip-ends deadline renew_at true id nudged_again again w h k =
      sleep_round-ends deadline again w h
  without_ip-ends deadline renew_at false id nudged_again again w h k =
      let w1 = (call env env.clock read_clock w).1 in
      let w2 = (tell env (guest_ipconfig id "renew") w1).1 in
      let past = time.later read_clock w.log in
      ground (
        arith,
        past,
        time.later (guest_ipconfig id "renew") w1.log,
        k w2 refl,
        sleep_round-ends deadline again w1
            (λ u a b. h u (ground (arith, past)) (ground (arith, past))),
      )

  round_of-ends :
      (v : Option Vm) (deadline renew_at : ℕ) (nudged : Bool) (key id : String)
      (nudged_again again : World → Option Bool × World) (w : World)
      → ((u : World) → now w + interval ≤ now u → suc (now w) ≤ deadline → ends (again u) ≡ true)
      → ((u : World) → nudged ≡ false → now w ≤ now u → ends (nudged_again u) ≡ true)
      → ends (round_of m settings env v deadline renew_at nudged key id nudged_again again w) ≡ true
  round_of-ends none deadline renew_at nudged key id nudged_again again w h k = refl
  round_of-ends (some v) deadline renew_at nudged key id nudged_again again w h k =
      let w' = (resolve_vm_ip m settings env key v w).1 in
      ground (
        arith,
        resolve-later key v w,
        without_ip-ends deadline renew_at nudged id nudged_again again w'
            (λ u a b.
              h u (ground (arith, resolve-later key v w)) (ground (arith, resolve-later key v w)))
            (λ u e a. k u e (ground (arith, resolve-later key v w))),
      )

  nudged-ends :
      (n deadline renew_at : ℕ) (key id : String) (w : World)
      → deadline ≤ now w + n * interval
      → ends (wait_rounds m settings env (suc n) deadline renew_at true key id w) ≡ true
  unfolding wait_rounds
  nudged-ends zero deadline renew_at key id w h =
      round_of-ends (lookup key w.tables.vms_by_pod) deadline renew_at true key id
        (wait_rounds m settings env zero deadline renew_at true key id)
        (wait_rounds m settings env zero deadline renew_at true key id) w (λ u a b. ground arith)
        (λ u e a. ground arith)
  nudged-ends (suc n) deadline renew_at key id w h =
      round_of-ends (lookup key w.tables.vms_by_pod) deadline renew_at true key id
        (wait_rounds m settings env (suc n) deadline renew_at true key id)
        (wait_rounds m settings env (suc n) deadline renew_at true key id) w
        (λ u a b. nudged-ends n deadline renew_at key id u (ground arith)) (λ u e a. ground arith)

  pub rounds-end :
      (n deadline renew_at : ℕ) (nudged : Bool) (key id : String) (w : World)
      → deadline ≤ now w + n * interval
      → ends (wait_rounds m settings env (suc (suc n)) deadline renew_at nudged key id w) ≡ true
  unfolding wait_rounds
  rounds-end zero deadline renew_at nudged key id w h =
      round_of-ends (lookup key w.tables.vms_by_pod) deadline renew_at nudged key id
        (wait_rounds m settings env (suc zero) deadline renew_at true key id)
        (wait_rounds m settings env (suc zero) deadline renew_at nudged key id) w
        (λ u a b. ground arith)
        (λ u e a. nudged-ends zero deadline renew_at key id u (ground arith))
  rounds-end (suc n) deadline renew_at nudged key id w h =
      round_of-ends (lookup key w.tables.vms_by_pod) deadline renew_at nudged key id
        (wait_rounds m settings env (suc (suc n)) deadline renew_at true key id)
        (wait_rounds m settings env (suc (suc n)) deadline renew_at nudged key id) w
        (λ u a b. rounds-end n deadline renew_at nudged key id u (ground arith))
        (λ u e a. nudged-ends (suc n) deadline renew_at key id u (ground arith))

-- The wait for a lease ends with a verdict: with the fuel for two rounds more than sleeps which cover
-- the budget, `waitForFreshIP` returns, where the clock does not go back and sleeps last as long as
-- asked.
pub wait_for_fresh_ip-ends :
    (m : Meta) (settings : Settings) (env : Env) (n : ℕ) (pod : Pod) (spec : VmSpec) (id : String)
    (kind : IpWait) (w : World)
    → KeepsTime env
    → ip_wait_budget settings kind ≤ n * ip_wait_interval settings
    → is_some (wait_for_fresh_ip m settings env (suc (suc n)) pod spec id kind w).0 ≡ true
unfolding wait_for_fresh_ip call
wait_for_fresh_ip-ends m settings env n pod spec id kind w time h =
    let w1 = (call env env.clock read_clock w).1 in
    let w2 = (call env env.clock read_clock w1).1 in
    rounds-end m settings env time n _ _ _ (key_of m pod) id w2
      (ground (arith, time.later read_clock w1.log))
