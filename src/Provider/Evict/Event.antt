-- ===== src/Provider/Evict/Event.antt =====
-- provider/cocoon/provider.go: `handleVMGone` and `restartOrRemove`. The handler inspects the VM again
-- before it acts; a VM that is gone has its pod evicted, one that stopped is restarted or removed.
use vk_cocoon.Base.{Bool, true, false, ◌||◌, Option, none, some, String, ◌==◌}
use vk_cocoon.Kube.{Pod, Meta}
use vk_cocoon.Vm.{Vm, Reply, ok, not_found, err, state_running}
use vk_cocoon.Provider.State.{Settings}
use vk_cocoon.Provider.Track.{update_tracked_vm}
use vk_cocoon.Provider.World.{
  Env, Io, vm_inspect, vm_start, read_clock, ◌>>=◌, ◌>>◌, pure, reads, section, call,
}
use vk_cocoon.Provider.Ready.{lift_cleared_hibernate_failure}
use vk_cocoon.Provider.Evict.{
  pod_for_vm_match, take_restart, note_event, inspect_with_retry, inline_inspect_attempts,
  schedule_deferred_recheck, recheck_if_tracked, evict_gone_incarnation, remove_then_evict,
}

module _ (m : Meta) (settings : Settings) (env : Env) where
  abbrev pub take_network : Reply Vm → String → String → Io (Unit {0})
  take_network (ok fresh) key id = do
    _ ← section (
        update_tracked_vm key id
          (λ v. record v { pid = fresh.pid; network_configs = fresh.network_configs }))
    pure tt
  take_network not_found key id = pure tt
  take_network (err e) key id = pure tt

  -- A VM that is not running: restart it, or remove it while the cooldown lasts.
  unfoldable pub restart_or_remove : Vm → String → String → Pod → Io Bool
  restart_or_remove inspected id key pod = do
    now ← call env env.clock read_clock
    elapsed ← section (take_restart id now)
    elim elapsed [
      | false ↦ remove_then_evict m settings env inspected key pod
      | true ↦ do
        started ← call env env.done (vm_start id)
        elim started [
          | not_found ↦ remove_then_evict m settings env inspected key pod
          | err e ↦ remove_then_evict m settings env inspected key pod
          | ok _ ↦ do
            fresh ← call env env.vm (vm_inspect id)
            take_network fresh key id
            lift_cleared_hibernate_failure m settings env pod
            pure false
        ]
    ]

  unfoldable pub act_on_inspect : Reply Vm → String → Pod → Vm → Io Bool
  act_on_inspect not_found key pod tracked = do
    evict_gone_incarnation m settings env key pod tracked
    recheck_if_tracked m settings env key pod.uid tracked.id
  act_on_inspect (err e) key pod tracked = do
    schedule_deferred_recheck m settings env tracked.id
    pure true
  act_on_inspect (ok v) key pod tracked = elim (v.state == state_running) [
    | true ↦ pure false
    | false ↦ restart_or_remove v tracked.id key pod
  ]

  abbrev pub handle_match : Option (String × Pod × Vm) → Io Bool
  handle_match none = pure false
  handle_match (some (key, pod, tracked)) = elim (m.parse_vm_spec pod).managed [
    | false ↦ pure false
    | true ↦ do
      busy ← section (note_event key)
      elim (busy.0 || busy.1) [
        | true ↦ pure false
        | false ↦ do
          r ← inspect_with_retry m settings env inline_inspect_attempts tracked.id
          act_on_inspect r key pod tracked
      ]
  ]

  -- `handleVMGone`: whether a recheck is wanted.
  unfoldable pub handle_vm_gone : Vm → Io Bool
  handle_vm_gone event_vm = do
    found ← reads (λ t. pod_for_vm_match event_vm.id event_vm.name t.pods t.vms_by_pod)
    handle_match found
