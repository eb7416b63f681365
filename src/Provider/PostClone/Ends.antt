-- ===== src/Provider/PostClone/Ends.antt =====
-- The setup after a clone comes to an end (postclone.go).
use vk_cocoon.Base.{
  ℕ, zero, suc, ◌+◌, ◌*◌, ◌≤◌, ◌≡◌, refl, arith, Bool, true, false, Option, none, some, String,
  List, ◌==◌, is_some,
}
use vk_cocoon.Kube.{Pod, VmSpec, Meta}
use vk_cocoon.Vm.{Vm}
use vk_cocoon.Provider.State.{Settings}
use vk_cocoon.Provider.Lifecycle.{lifecycle_already_failed}
use vk_cocoon.Provider.Resume.{IpWait}
use vk_cocoon.Provider.World.{
  Env, World, Io, ExecEnd, exec_done, exec_canceled, exec_failed, call, guest_exec, read_clock,
  sleep,
}
use vk_cocoon.Provider.PostClone.{ip_wait_budget, ip_wait_interval, mark_ready_after_ip}
use vk_cocoon.Provider.PostClone.Markers.{mark_post_clone_state}
use vk_cocoon.Provider.PostClone.Wait.{KeepsTime, wait_for_fresh_ip-ends}
use vk_cocoon.Provider.PostClone.Sac.{
  SacEnd, skipped, configured, panicked, failed, report_sac, apply_windows_static_ip,
  run_windows_sac,
}
use vk_cocoon.Provider.PostClone.Applies.{AppliesAddresses, apply_windows_static_ip-Applies}
use vk_cocoon.Provider.PostClone.Script.{PostClonePlan, plan_post_clone}
use vk_cocoon.Provider.PostClone.Setup.{
  post_clone_agent_budget, post_clone_retry_interval, AttemptsEnd, exhausted, succeeded, exec_error,
  was_canceled, join_attempt, nap_then, after_exec, run_attempts, ready_unless, ready_unless_failed,
  after_sac, sac_if, run_ready_wait, after_attempts, setup_planned, run_post_clone_setup,
}

module _ (m : Meta) (settings : Settings) (env : Env) (time : KeepsTime env) where
  abbrev now : World → ℕ
  now w = env.clock w.log

  nap_then-ends :
      (deadline : ℕ) (end : AttemptsEnd) (again : Io (Option AttemptsEnd)) (w : World)
      → ((u : World)
          → now w + post_clone_retry_interval ≤ now u
          → suc (now w + post_clone_retry_interval) ≤ deadline
          → is_some (again u).0 ≡ true)
      → is_some (nap_then m settings env deadline end again w).0 ≡ true
  unfolding call
  nap_then-ends deadline end again w h =
      let w1 = (call env env.awake (sleep post_clone_retry_interval) w).1 in
      let w2 = (call env env.clock read_clock w1).1 in
      ground (arith, time.naps post_clone_retry_interval w.log, time.later read_clock w1.log, h w2)

  after_exec-ends :
      (r : ExecEnd) (deadline : ℕ) (errs : String) (canceled : Bool)
      (again : Io (Option AttemptsEnd)) (w : World)
      → ((u : World)
          → now w + post_clone_retry_interval ≤ now u
          → suc (now w + post_clone_retry_interval) ≤ deadline
          → is_some (again u).0 ≡ true)
      → is_some (after_exec m settings env r deadline errs canceled again w).0 ≡ true
  after_exec-ends exec_done deadline errs canceled again w h = refl
  after_exec-ends exec_canceled deadline errs canceled again w h =
      nap_then-ends deadline (exhausted errs canceled) again w h
  after_exec-ends (exec_failed e) deadline errs canceled again w h =
      nap_then-ends deadline (exhausted errs canceled) again w h

  attempts-end :
      (n deadline : ℕ) (id : String) (argv : List String) (attempt : ℕ) (errs : String)
      (canceled : Bool) (w : World)
      → deadline ≤ now w + n * post_clone_retry_interval
      → is_some (run_attempts m settings env (suc n) deadline id argv attempt errs canceled w).0
        ≡ true
  unfolding run_attempts call
  attempts-end zero deadline id argv attempt errs canceled w h =
      let (r, w1) = call env env.exec_end (guest_exec id argv) w in
      after_exec-ends r deadline (join_attempt errs attempt (exec_error r))
        (was_canceled r canceled) _ w1
        (λ u a b. absurd (ground (arith, time.later (guest_exec id argv) w.log)))
  attempts-end (suc n) deadline id argv attempt errs canceled w h =
      let (r, w1) = call env env.exec_end (guest_exec id argv) w in
      after_exec-ends r deadline (join_attempt errs attempt (exec_error r))
        (was_canceled r canceled) _ w1
        (λ u a b.
          attempts-end n deadline id argv (suc attempt) _ _ u
            (ground (arith, time.later (guest_exec id argv) w.log)))

  mark_ready-ends :
      (n : ℕ) (pod : Pod) (spec : VmSpec) (v : Vm) (kind : IpWait) (w : World)
      → ip_wait_budget settings kind ≤ n * ip_wait_interval settings
      → is_some (mark_ready_after_ip m settings env (suc (suc n)) pod spec v kind w).0 ≡ true
  unfolding mark_ready_after_ip call
  mark_ready-ends n pod spec v kind w h =
      ground (arith, wait_for_fresh_ip-ends m settings env n pod spec v.id kind w time h)

  -- The console pass is never out of range.
  report_sac-ends :
      (end : SacEnd) (v : Vm) (before : World) (pod : Pod) (w : World)
      → AppliesAddresses settings env v before (end, w)
      → is_some (report_sac m settings env end pod w).0 ≡ true
  report_sac-ends skipped v before pod w h = refl
  report_sac-ends configured v before pod w h = refl
  report_sac-ends panicked v before pod w h = absurd h
  report_sac-ends (failed e) v before pod w h = refl

  run_windows_sac-ends :
      (pod : Pod) (v : Vm) (w : World) → is_some (run_windows_sac m settings env pod v w).0 ≡ true
  unfolding run_windows_sac
  run_windows_sac-ends pod v w =
      let (end, w1) = apply_windows_static_ip m settings env v w in
      report_sac-ends end v w pod w1 (apply_windows_static_ip-Applies m settings env v w)

  module _ (n : ℕ) (spec : VmSpec) (v : Vm) (kind : IpWait)
      (enough : ip_wait_budget settings kind ≤ n * ip_wait_interval settings) where
    ready_unless-ends :
        (broken : Bool) (pod : Pod) (w : World)
        → is_some (ready_unless m settings env broken (suc (suc n)) pod spec v kind w).0 ≡ true
    ready_unless-ends true pod w = refl
    ready_unless-ends false pod w = mark_ready-ends n pod spec v kind w enough

    ready_unless_failed-ends :
        (pod : Pod) (w : World)
        → is_some (ready_unless_failed m settings env (suc (suc n)) pod spec v kind w).0 ≡ true
    ready_unless_failed-ends pod w =
        ready_unless-ends (lifecycle_already_failed m pod w.tables) pod w

    after_sac-ends :
        (r : Option (Pod × Bool)) (w : World)
        → is_some r ≡ true
        → is_some (after_sac m settings env r (suc (suc n)) spec v kind w).0 ≡ true
    after_sac-ends none w h = h
    after_sac-ends (some (pod, false)) w h = refl
    after_sac-ends (some (pod, true)) w h = ready_unless_failed-ends pod w

    sac_if-ends :
        (windows : Bool) (pod : Pod) (w : World)
        → is_some (sac_if m settings env windows (suc (suc n)) pod spec v kind w).0 ≡ true
    sac_if-ends false pod w = ready_unless_failed-ends pod w
    sac_if-ends true pod w =
        let (r, w1) = run_windows_sac m settings env pod v w in
        after_sac-ends r w1 (run_windows_sac-ends pod v w)

    after_attempts-ends :
        (encode : String → String) (r : Option AttemptsEnd) (plan : PostClonePlan) (pod : Pod)
        (w : World)
        → is_some r ≡ true
        → is_some (after_attempts m settings env encode r plan (suc (suc n)) pod spec v kind w).0
          ≡ true
    unfolding run_ready_wait
    after_attempts-ends encode none plan pod w h = h
    after_attempts-ends encode (some succeeded) plan pod w h =
        sac_if-ends (spec.os == m.os_windows) pod
          (mark_post_clone_state m settings env pod "done" w).1
    after_attempts-ends encode (some (exhausted errs canceled)) plan pod w h = refl

    pub setup_planned-ends :
        (encode : String → String) (k : ℕ) (plan : Option PostClonePlan) (pod : Pod) (w : World)
        → post_clone_agent_budget ≤ k * post_clone_retry_interval
        → is_some
            (setup_planned m settings env encode (suc k) plan (suc (suc n)) pod spec v kind w).0
          ≡ true
    setup_planned-ends encode k none pod w h = mark_ready-ends n pod spec v kind w enough
    setup_planned-ends encode k (some plan) pod w h =
        let w1 = (mark_post_clone_state m settings env pod "running" w).1 in
        let (start, w2) = call env env.clock read_clock w1 in
        let (r, w3) =
          run_attempts m settings env (suc k) (start + post_clone_agent_budget) v.id plan.argv 1 ""
            false w2 in
        after_attempts-ends encode r plan pod w3 (
          attempts-end k (start + post_clone_agent_budget) v.id plan.argv 1 "" false w2
            (unfold call in ground arith))

-- The setup after a clone returns, whatever the guest, its console and the leases answer, where the
-- clock does not go back and sleeps last as long as asked: one attempt more than the sleeps that cover
-- the budget of the attempts is enough, and two rounds more than those that cover the budget of the
-- wait for a lease.
pub run_post_clone_setup-ends :
    (m : Meta) (settings : Settings) (env : Env) (encode : String → String) (k n : ℕ) (pod : Pod)
    (spec : VmSpec) (v : Vm) (source : String) (kind : IpWait) (w : World)
    → KeepsTime env
    → post_clone_agent_budget ≤ k * post_clone_retry_interval
    → ip_wait_budget settings kind ≤ n * ip_wait_interval settings
    → is_some
        (run_post_clone_setup m settings env encode
          (suc k)
          (suc (suc n))
          pod
          spec
          v
          source
          kind
          w).0
      ≡ true
unfolding run_post_clone_setup
run_post_clone_setup-ends m settings env encode k n pod spec v source kind w time a b =
    let (plan, w1) = plan_post_clone m env spec v source w in
    setup_planned-ends m settings env time n spec v kind b encode k plan pod w1 a
