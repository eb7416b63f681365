-- ===== src/Provider/PostClone/Setup.antt =====
-- provider/cocoon/postclone.go: the fixup of a guest after a clone, with its retries, and what follows
-- it: the console pass of a Windows guest and the wait for a lease.
use Prim.Native.String.{◌++◌ as append_text}
use vk_cocoon.Base.{
  ℕ, zero, suc, ◌+◌, ◌*◌, Bool, true, false, ◌&&◌, Option, none, some, String, List, ◌==◌, is_empty,
  ltb, second, if◌then◌else◌,
}
use vk_cocoon.Cli.{decimal}
use vk_cocoon.Kube.{Pod, VmSpec, Meta, LifecycleState}
use vk_cocoon.Vm.{Vm}
use vk_cocoon.Provider.State.{Settings}
use vk_cocoon.Provider.Lifecycle.{lifecycle_already_failed}
use vk_cocoon.Provider.Flush.{mark_lifecycle_state}
use vk_cocoon.Provider.Runtime.{truncate, lifecycle_message_max_bytes}
use vk_cocoon.Provider.Resume.{IpWait}
use vk_cocoon.Provider.PostClone.{mark_ready_after_ip}
use vk_cocoon.Provider.PostClone.Markers.{mark_post_clone_state, set_pod_annotation}
use vk_cocoon.Provider.PostClone.Sac.{run_windows_sac}
use vk_cocoon.Provider.PostClone.Script.{PostClonePlan, plan_post_clone}
use vk_cocoon.Provider.World.{
  Env, Io, ExecEnd, exec_done, exec_canceled, exec_failed, guest_exec, read_clock, sleep, ◌>>=◌,
  ◌>>◌, pure, reads, call,
}

abbrev pub annotation_post_clone_hint : String
annotation_post_clone_hint = "vm.cocoonstack.io/post-clone-hint"

abbrev pub annotation_post_clone_errors : String
annotation_post_clone_errors = "vm.cocoonstack.io/post-clone-errors"

abbrev pub post_clone_agent_budget : ℕ
post_clone_agent_budget = 180 * second

abbrev pub post_clone_retry_interval : ℕ
post_clone_retry_interval = 3 * second

-- How the attempts end. `exhausted` has the joined errors, and whether one of them is Go's
-- `context.Canceled`.
pub data AttemptsEnd : Type 0 where
  succeeded : AttemptsEnd
  exhausted : String → Bool → AttemptsEnd

abbrev pub exec_error : ExecEnd → String
exec_error exec_done = ""
exec_error exec_canceled = "context canceled"
exec_error (exec_failed e) = e

abbrev pub was_canceled : ExecEnd → Bool → Bool
was_canceled exec_canceled before = true
was_canceled exec_done before = before
was_canceled (exec_failed e) before = before

abbrev pub join_attempt : String → ℕ → String → String
join_attempt errs attempt e =
    let line = append_text "attempt " (append_text (decimal attempt) (append_text ": " e)) in
    if is_empty errs then line else append_text errs (append_text "\n" line)

module _ (m : Meta) (settings : Settings) (env : Env) where
  abbrev pub nap_then : ℕ → AttemptsEnd → Io (Option AttemptsEnd) → Io (Option AttemptsEnd)
  nap_then deadline end again = do
    slept ← call env env.awake (sleep post_clone_retry_interval)
    now ← call env env.clock read_clock
    elim (slept && ltb now deadline) [ true ↦ again | false ↦ pure (some end) ]

  abbrev pub after_exec :
      ExecEnd → ℕ → String → Bool → Io (Option AttemptsEnd) → Io (Option AttemptsEnd)
  after_exec exec_done deadline errs canceled again = pure (some succeeded)
  after_exec exec_canceled deadline errs canceled again =
      nap_then deadline (exhausted errs canceled) again
  after_exec (exec_failed e) deadline errs canceled again =
      nap_then deadline (exhausted errs canceled) again

  -- The loop over the attempts, on fuel; `none` when it runs out. The deadline of `loopCtx` is read off
  -- the clock once the sleep is over.
  unfoldable pub run_attempts :
      ℕ → ℕ → String → List String → ℕ → String → Bool → Io (Option AttemptsEnd)
  run_attempts zero deadline id argv attempt errs canceled = pure none
  run_attempts (suc n) deadline id argv attempt errs canceled = do
    r ← call env env.exec_end (guest_exec id argv)
    let errs' = join_attempt errs attempt (exec_error r)
    let canceled' = was_canceled r canceled
    after_exec r deadline errs' canceled'
        (run_attempts n deadline id argv (suc attempt) errs' canceled')

  abbrev pub ready_unless : Bool → ℕ → Pod → VmSpec → Vm → IpWait → Io (Option Pod)
  ready_unless true fuel pod spec v kind = pure (some pod)
  ready_unless false fuel pod spec v kind = mark_ready_after_ip m settings env fuel pod spec v kind

  abbrev pub ready_unless_failed : ℕ → Pod → VmSpec → Vm → IpWait → Io (Option Pod)
  ready_unless_failed fuel pod spec v kind = do
    broken ← reads (lifecycle_already_failed m pod)
    ready_unless broken fuel pod spec v kind

  abbrev pub after_sac : Option (Pod × Bool) → ℕ → VmSpec → Vm → IpWait → Io (Option Pod)
  after_sac none fuel spec v kind = pure none
  after_sac (some (pod, false)) fuel spec v kind = pure (some pod)
  after_sac (some (pod, true)) fuel spec v kind = ready_unless_failed fuel pod spec v kind

  abbrev pub sac_if : Bool → ℕ → Pod → VmSpec → Vm → IpWait → Io (Option Pod)
  sac_if false fuel pod spec v kind = ready_unless_failed fuel pod spec v kind
  sac_if true fuel pod spec v kind = do
    r ← run_windows_sac m settings env pod v
    after_sac r fuel spec v kind

  -- `runReadyWait`, with the fuel of the wait.
  unfoldable pub run_ready_wait : ℕ → Pod → VmSpec → Vm → IpWait → Io (Option Pod)
  run_ready_wait fuel pod spec v kind = sac_if (spec.os == m.os_windows) fuel pod spec v kind

  -- Base64 is an argument.
  module _ (encode : String → String) where
    -- `emitPostCloneHint`; it is only called with an error.
    unfoldable pub emit_post_clone_hint : Pod → PostClonePlan → String → Io Pod
    emit_post_clone_hint pod plan joined = do
      pod1 ← set_pod_annotation m settings env pod annotation_post_clone_hint (encode plan.hint)
      set_pod_annotation m settings env pod1 annotation_post_clone_errors
          (truncate joined lifecycle_message_max_bytes)

    abbrev pub give_up : Bool → PostClonePlan → String → Pod → Io Pod
    give_up true plan joined pod = pure pod
    give_up false plan joined pod = do
      mark_post_clone_state m settings env pod "failed"
      pod1 ← emit_post_clone_hint pod plan joined
      mark_lifecycle_state m settings env pod1 LifecycleState.failed
          (truncate joined lifecycle_message_max_bytes)

    abbrev pub after_attempts :
        Option AttemptsEnd → PostClonePlan → ℕ → Pod → VmSpec → Vm → IpWait → Io (Option Pod)
    after_attempts none plan fuel pod spec v kind = pure none
    after_attempts (some succeeded) plan fuel pod spec v kind = do
      mark_post_clone_state m settings env pod "done"
      run_ready_wait fuel pod spec v kind
    after_attempts (some (exhausted joined canceled)) plan fuel pod spec v kind = do
      pod' ← give_up canceled plan joined pod
      pure (some pod')

    abbrev pub setup_planned :
        ℕ → Option PostClonePlan → ℕ → Pod → VmSpec → Vm → IpWait → Io (Option Pod)
    setup_planned rounds none fuel pod spec v kind =
        mark_ready_after_ip m settings env fuel pod spec v kind
    setup_planned rounds (some plan) fuel pod spec v kind = do
      mark_post_clone_state m settings env pod "running"
      start ← call env env.clock read_clock
      r ← run_attempts rounds (start + post_clone_agent_budget) v.id plan.argv 1 "" false
      after_attempts r plan fuel pod spec v kind

    -- `runPostCloneSetup`, with the fuel of the attempts and that of the wait.
    unfoldable pub run_post_clone_setup :
        ℕ → ℕ → Pod → VmSpec → Vm → String → IpWait → Io (Option Pod)
    run_post_clone_setup rounds fuel pod spec v source kind = do
      plan ← plan_post_clone m env spec v source
      setup_planned rounds plan fuel pod spec v kind
