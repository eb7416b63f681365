-- ===== src/Provider/Evict.antt =====
-- provider/cocoon/provider.go: finding the pod of a VM event, and evicting a pod whose VM is gone.
-- Event.antt has the handler of the event.
pub mod Event
pub mod Keep
use vk_cocoon.Base.{
  ℕ, zero, suc, ◌+◌, ◌-◌, ◌*◌, Bool, true, false, not, ◌&&◌, ◌||◌, Option, none, some, String, List,
  [], ◌∷◌, ◌==◌, is_empty, leb, ltb, min, is_some, millisecond, second, minute, if◌then◌else◌,
}
use vk_cocoon.Base.Table.{Table, lookup, insert, delete, contains}
use vk_cocoon.Kube.{Pod, PodStatus, Phase, ContainerStatus, Meta}
use vk_cocoon.Vm.{Vm, Reply, ok, not_found, err, state_running, is_macos_vm}
use vk_cocoon.Provider.State.{Tables, Settings, key_of}
use vk_cocoon.Provider.Track.{
  is_deleting, tracked_pod_matches, untrack_incarnation, claim_deleting_incarnation,
  finish_deleting, update_tracked_vm,
}
use vk_cocoon.Provider.Status.{container_name}
use vk_cocoon.Provider.World.{
  Env, Io, Effect, ApiReply, accepted, absent, conflict, invalid, refused, delete_pod, vm_inspect,
  vm_start, forget_probe, schedule_recheck, sleep, read_clock, ◌>>=◌, ◌>>◌, pure, locked, reads,
  section, call, tell,
}
use vk_cocoon.Provider.Runtime.{remove_vm, release_dhcp_leases, notify_pod}

abbrev pub restart_cooldown : ℕ
restart_cooldown = 30 * second

abbrev pub evict_delete_attempts : ℕ
evict_delete_attempts = 2

abbrev pub evict_delete_base_delay : ℕ
evict_delete_base_delay = 200 * millisecond

abbrev pub inline_inspect_attempts : ℕ
inline_inspect_attempts = 2

-- The delay, its cap and the budget of a deferred recheck.
abbrev pub recheck_initial_delay : ℕ
recheck_initial_delay = 1 * second

abbrev pub recheck_max_delay : ℕ
recheck_max_delay = 30 * second

abbrev pub recheck_budget : ℕ
recheck_budget = 30 * minute

-- How a delete of the pod at the apiserver ended.
pub data DeleteEnd : Type 0 where
  deleted replaced kept : DeleteEnd

abbrev end_of : ApiReply → DeleteEnd
end_of accepted = DeleteEnd.deleted
end_of absent = DeleteEnd.deleted
end_of conflict = DeleteEnd.replaced
end_of invalid = DeleteEnd.kept
end_of (refused e) = DeleteEnd.kept

abbrev is_kept : DeleteEnd → Bool
is_kept DeleteEnd.kept = true
is_kept _ = false

abbrev pub matches : String → String → Vm → Bool
matches id name v = v.id == id || not (is_empty name) && v.name == name

abbrev pub with_pod :
    String → Vm → Option Pod → Option (String × Pod × Vm) → Option (String × Pod × Vm)
with_pod key v none rest = rest
with_pod key v (some pod) rest = some (key, pod, v)

-- `podForVMMatch` over the rows of `vmsByPod`; macOS guests are passed over.
unfoldable pub pod_for_vm_match :
    String → String → Table Pod → Table Vm → Option (String × Pod × Vm)
pod_for_vm_match id name pods [] = none
pod_for_vm_match id name pods ((key, v) ∷ rows) =
    let rest = pod_for_vm_match id name pods rows in
    if is_macos_vm (some v)
    then rest
    else (if matches id name v then with_pod key v (lookup key pods) rest else rest)

abbrev last_or_zero : Option ℕ → ℕ
last_or_zero none = 0
last_or_zero (some t) = t

-- The restart decision at time `now`: whether the cooldown has elapsed, which then starts anew.
-- The zero time stands for a VM that was never restarted.
unfoldable pub take_restart : String → ℕ → Tables → Tables × Bool
take_restart id now t =
    if is_some (lookup id t.last_restart)
      && ltb now (last_or_zero (lookup id t.last_restart) + restart_cooldown)
    then (t, false)
    else (record t { last_restart = insert id now t.last_restart }, true)

-- Whether a hibernate is under way, which is told of the event, and whether a delete is.
unfoldable pub note_event : String → Tables → Tables × (Bool × Bool)
note_event key t =
    if is_some (lookup key t.hibernating)
    then (record t { hibernating = insert key true t.hibernating }, (true, is_deleting key t))
    else (t, (false, is_deleting key t))

-- `scheduleDeferredRecheck`: one recheck for each VM at a time.
unfoldable pub claim_recheck : String → Tables → Tables × Bool
claim_recheck id t =
    if contains id t.pending_recheck
    then (t, false)
    else (record t { pending_recheck = insert id tt t.pending_recheck }, true)

-- The end of the recheck's goroutine.
unfoldable pub end_recheck : String → Tables → Tables
end_recheck id t = record t { pending_recheck = delete id t.pending_recheck }

unfoldable pub failed_status : Pod → Pod
failed_status pod = record pod {
  status = record pod.status {
    phase = Phase.failed;
    container_statuses =
        record {
          name = container_name;
          ready = false;
          is_running = false;
          is_waiting = false;
          is_terminated = true;
        }
        ∷ [];
  };
}

module _ (m : Meta) (settings : Settings) (env : Env) where
  -- `deletePodWithRetry`, with the number of tries left; `backoff` is the number of the try.
  unfoldable pub delete_pod_with_retry : ℕ → ℕ → String → String → Io DeleteEnd
  delete_pod_with_retry zero backoff key uid = pure DeleteEnd.kept
  delete_pod_with_retry (suc n) backoff key uid = do
    r ← call env env.api (delete_pod key uid)
    elim (is_kept (end_of r)) [
      | false ↦ pure (end_of r)
      | true ↦ elim n [
        | zero ↦ pure DeleteEnd.kept
        | suc _ ↦ do
          slept ← call env env.awake (sleep (backoff * evict_delete_base_delay))
          elim slept [
            | true ↦ delete_pod_with_retry n (suc backoff) key uid
            | false ↦ pure DeleteEnd.kept
          ]
      ]
    ]

  abbrev forget_if : Bool → String → Io (Unit {0})
  forget_if true key = tell env (forget_probe key)
  forget_if false key = pure tt

  -- `untrackIncarnation` with the probe that goes with it.
  unfoldable pub untrack_pod : String → String → Io (Unit {0})
  untrack_pod key uid = do
    dropped ← section (untrack_incarnation key uid)
    forget_if (dropped && settings.has_probes) key

  -- `evictPod`.
  unfoldable pub evict_pod : String → Pod → Io (Unit {0})
  evict_pod key pod = do
    r ← delete_pod_with_retry evict_delete_attempts 1 key pod.uid
    elim r [
      | DeleteEnd.kept ↦ pure tt
      | DeleteEnd.replaced ↦ untrack_pod key pod.uid
      | DeleteEnd.deleted ↦ do
        untrack_pod key pod.uid
        notify_pod m settings env (failed_status pod)
    ]

  unfoldable pub schedule_deferred_recheck : String → Io (Unit {0})
  schedule_deferred_recheck id = do
    claimed ← section (claim_recheck id)
    elim claimed [ true ↦ tell env (schedule_recheck id) | false ↦ pure tt ]

  -- `inspectWithRetry`, with the number of tries left.
  unfoldable pub inspect_with_retry : ℕ → String → Io (Reply Vm)
  inspect_with_retry zero id = pure (err "")
  inspect_with_retry (suc n) id = do
    r ← call env env.vm (vm_inspect id)
    elim r [
      | ok v ↦ pure (ok v)
      | not_found ↦ pure not_found
      | err e ↦ elim n [
        | zero ↦ pure (err e)
        | suc _ ↦ do
          slept ← call env env.awake (sleep (200 * millisecond))
          elim slept [ true ↦ inspect_with_retry n id | false ↦ pure (err "context canceled") ]
      ]
    ]

  -- Whether the pod is still tracked, in which case a recheck is scheduled.
  unfoldable pub recheck_if_tracked : String → String → String → Io Bool
  recheck_if_tracked key uid id = do
    tracked ← reads (tracked_pod_matches key uid)
    elim tracked [ true ↦ do schedule_deferred_recheck id; pure true | false ↦ pure false ]

  -- `evictGoneIncarnation`.
  unfoldable pub evict_gone_incarnation : String → Pod → Vm → Io (Unit {0})
  evict_gone_incarnation key pod v = do
    claimed ← section (claim_deleting_incarnation key pod.uid v.id)
    elim claimed [
      | false ↦ pure tt
      | true ↦ do
        release_dhcp_leases m settings env v
        evict_pod key pod
        locked (finish_deleting key)
    ]

  abbrev evict_removed : Option String → Vm → String → Pod → Io Bool
  evict_removed (some e) v key pod = pure false
  evict_removed none v key pod = do evict_pod key pod; recheck_if_tracked key pod.uid v.id

  -- `removeThenEvict`: a VM that cannot be removed keeps its pod.
  unfoldable pub remove_then_evict : Vm → String → Pod → Io Bool
  remove_then_evict v key pod = do
    claimed ← section (claim_deleting_incarnation key pod.uid v.id)
    elim claimed [
      | false ↦ pure false
      | true ↦ do
        e ← remove_vm m settings env v
        again ← evict_removed e v key pod
        locked (finish_deleting key)
        pure again
    ]
