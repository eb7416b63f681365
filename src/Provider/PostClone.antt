-- ===== src/Provider/PostClone.antt =====
-- provider/cocoon/postclone.go and update.go: the wait for the lease of a VM before its pod is Ready.
-- Markers.antt has the markers of a post-clone setup.
pub mod Markers
pub mod Sac
pub mod Assigned
pub mod Applies
pub mod Script
pub mod Setup
pub mod Ends
pub mod Wait
use Prim.Native.String.{◌++◌ as append_text}
use vk_cocoon.Base.{
  ℕ, zero, suc, ◌+◌, ◌*◌, Bool, true, false, not, ◌&&◌, ◌||◌, Option, none, some, String, ◌==◌,
  is_empty, ltb, or_num, second, minute, millisecond, if◌then◌else◌,
}
use vk_cocoon.Base.Table.{lookup, insert}
use vk_cocoon.Kube.{Pod, VmSpec, Meta, LifecycleState}
use vk_cocoon.Vm.{Vm}
use vk_cocoon.Spec.{text_at, annotation_post_clone_state}
use vk_cocoon.Provider.State.{Tables, Settings, key_of}
use vk_cocoon.Provider.Track.{is_superseded}
use vk_cocoon.Provider.Lifecycle.{Write, apply_lifecycle}
use vk_cocoon.Provider.Flush.{flush_lifecycle, patch_incarnation_annotations}
use vk_cocoon.Provider.Runtime.{resolve_vm_ip, store_pod, truncate, lifecycle_message_max_bytes}
use vk_cocoon.Provider.Ready.{publish_ready_lifecycle}
use vk_cocoon.Provider.Resume.{IpWait}
use vk_cocoon.Provider.World.{
  Env, Io, guest_ipconfig, read_clock, read_context, sleep, ◌>>=◌, ◌>>◌, pure, locked, reads,
  section, call, tell,
}

abbrev pub default_wake_fresh_ip_budget : ℕ
default_wake_fresh_ip_budget = 45 * second

abbrev pub default_wake_fresh_ip_interval : ℕ
default_wake_fresh_ip_interval = 200 * millisecond

abbrev pub default_boot_ip_budget : ℕ
default_boot_ip_budget = 10 * minute

abbrev pub default_wake_renew_nudge_delay : ℕ
default_wake_renew_nudge_delay = 30 * second

abbrev is_boot : IpWait → Bool
is_boot IpWait.boot = true
is_boot _ = false

-- `ipWaitBudget`.
unfoldable pub ip_wait_budget : Settings → IpWait → ℕ
ip_wait_budget settings IpWait.boot = or_num settings.boot_ip_budget default_boot_ip_budget
ip_wait_budget settings _ = or_num settings.wake_fresh_ip_budget default_wake_fresh_ip_budget

unfoldable pub ip_wait_interval : Settings → ℕ
ip_wait_interval settings = or_num settings.wake_fresh_ip_interval default_wake_fresh_ip_interval

abbrev is_awake_vm : String → Option Vm → Bool
is_awake_vm id none = false
is_awake_vm id (some v) = v.id == id

module _ (m : Meta) where
  abbrev hibernates : Option Pod → Bool
  hibernates none = true
  hibernates (some tracked) = m.read_hibernate_state tracked

  abbrev unapplied : Pod → Tables → Write
  unapplied pod t = record {
    tables = t;
    pod = pod;
    status = m.read_lifecycle_status pod;
    applied = false;
  }

  -- `setLifecycleStateForWake`: nothing is written once the pod hibernates or its VM is another. A
  -- status that is not applied is not read.
  unfoldable pub set_lifecycle_state_for_wake :
      Pod → String → LifecycleState → String → Tables → Write
  set_lifecycle_state_for_wake pod id state message t =
      if hibernates (lookup (key_of m pod) t.pods)
      then unapplied pod t
      else if is_awake_vm id (lookup (key_of m pod) t.vms_by_pod)
      then apply_lifecycle m pod state message t
      else unapplied pod t

module _ (m : Meta) (settings : Settings) (env : Env) where
  -- The last part of a round: the verdict at the deadline, or a sleep and another round.
  abbrev pub sleep_round : ℕ → Io (Option Bool) → Io (Option Bool)
  sleep_round deadline again = do
    now ← call env env.clock read_clock
    elim (ltb now deadline) [
      | false ↦ pure (some false)
      | true ↦ do
        slept ← call env env.awake (sleep (ip_wait_interval settings))
        elim slept [ true ↦ again | false ↦ pure (some false) ]
    ]

  -- Whether the one nudge is due.
  abbrev pub nudge_due : Bool → ℕ → Io Bool
  nudge_due true renew_at = pure false
  nudge_due false renew_at = do now ← call env env.clock read_clock; pure (not (ltb now renew_at))

  -- A round that starts with no lease: the nudge goes straight on to the next round.
  abbrev pub round_without_ip :
      ℕ → ℕ → Bool → String → Io (Option Bool) → Io (Option Bool) → Io (Option Bool)
  round_without_ip deadline renew_at nudged id nudged_again again = do
    due ← nudge_due nudged renew_at
    elim due [
      | true ↦ do tell env (guest_ipconfig id "renew"); nudged_again
      | false ↦ sleep_round deadline again
    ]

  abbrev pub round_of :
      Option Vm
      → ℕ
      → ℕ
      → Bool
      → String
      → String
      → Io (Option Bool)
      → Io (Option Bool)
      → Io (Option Bool)
  round_of none deadline renew_at nudged key id nudged_again again = pure (some false)
  round_of (some v) deadline renew_at nudged key id nudged_again again = elim (v.id == id) [
    | false ↦ pure (some false)
    | true ↦ do
      ip ← resolve_vm_ip m settings env key v
      elim (is_empty ip) [
        | false ↦ pure (some true)
        | true ↦ round_without_ip deadline renew_at nudged id nudged_again again
      ]
  ]

  -- The loop of `waitForFreshIP`, on fuel; `none` when it runs out.
  unfoldable pub wait_rounds : ℕ → ℕ → ℕ → Bool → String → String → Io (Option Bool)
  wait_rounds zero deadline renew_at nudged key id = pure none
  wait_rounds (suc n) deadline renew_at nudged key id = do
    v ← reads (λ t. lookup key t.vms_by_pod)
    round_of v deadline renew_at nudged key id (wait_rounds n deadline renew_at true key id)
        (wait_rounds n deadline renew_at nudged key id)

  -- `waitForFreshIP`: whether the lease was seen. Only a restored Windows guest is nudged.
  unfoldable pub wait_for_fresh_ip : ℕ → Pod → VmSpec → String → IpWait → Io (Option Bool)
  wait_for_fresh_ip fuel pod spec id kind = do
    start ← call env env.clock read_clock
    start' ← call env env.clock read_clock
    let deadline = start + ip_wait_budget settings kind
    let renew_at = start' + or_num settings.wake_renew_nudge_delay default_wake_renew_nudge_delay
    wait_rounds fuel deadline renew_at (is_boot kind || not (spec.os == m.os_windows))
        (key_of m pod) id

  abbrev write_for_wake : Pod → String → LifecycleState → String → Tables → Tables × Write
  write_for_wake pod id state message t =
      let w = set_lifecycle_state_for_wake m pod id state message t in (w.tables, w)

  abbrev path_of : IpWait → String
  path_of IpWait.clone = "clone"
  path_of IpWait.wake = "wake"
  path_of IpWait.boot = "boot"

  -- The text of the timeout, but for the budget at its end.
  unfoldable pub ip_timeout : IpWait → Vm → String
  ip_timeout kind v =
      truncate
        (append_text (path_of kind)
          (append_text " " (append_text v.name ": dhcp lease not observed")))
        lifecycle_message_max_bytes

  abbrev pub publish_write : Write → Io Pod
  publish_write w = elim w.applied [
    | true ↦ do publish_ready_lifecycle m settings env w.pod w.status; pure w.pod
    | false ↦ pure w.pod
  ]

  abbrev pub flush_applied : Write → Pod → Io Pod
  flush_applied w pod = elim w.applied [
    | true ↦ do _ ← flush_lifecycle m settings env (key_of m pod) pod.uid w.status; pure w.pod
    | false ↦ pure w.pod
  ]

  abbrev pub finish_wait : Bool → Bool → Pod → Vm → IpWait → Io Pod
  finish_wait false got pod v kind = pure pod
  finish_wait true true pod v kind = do
    w ← section (write_for_wake pod v.id LifecycleState.ready "")
    publish_write w
  finish_wait true false pod v kind = do
    w ← section (write_for_wake pod v.id LifecycleState.failed (ip_timeout kind v))
    flush_applied w pod

  abbrev pub conclude : Option Bool → Pod → Vm → IpWait → Io (Option Pod)
  conclude none pod v kind = pure none
  conclude (some got) pod v kind = do
    live ← call env env.awake read_context
    pod' ← finish_wait live got pod v kind
    pure (some pod')

  -- `markReadyAfterIP`; `none` when the fuel of the wait runs out.
  unfoldable pub mark_ready_after_ip : ℕ → Pod → VmSpec → Vm → IpWait → Io (Option Pod)
  mark_ready_after_ip fuel pod spec v kind = do
    got ← wait_for_fresh_ip fuel pod spec v.id kind
    conclude got pod v kind
