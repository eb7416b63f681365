-- ===== src/Provider/Evict/Keep.antt =====
-- What an event leads to only after evidence (provider/cocoon/provider.go): the audit of a history,
-- and the steps of eviction under it. Keep/Event.antt has the handler.
pub mod Event
use vk_cocoon.Base.{
  ℕ, zero, suc, ◌≡◌, refl, ◌∙◌, arith, eq_refl, Bool, true, false, not, ◌&&◌, ◌||◌, Option, none,
  some, String, List, [], ◌∷◌, ◌==◌, ◌*◌, ◌+◌, is_some, if◌then◌else◌,
}
use vk_cocoon.Kube.{Pod, Meta}
use vk_cocoon.Vm.{Vm, Reply, ok, not_found, err, state_running}
use vk_cocoon.Provider.State.{Settings, Tables, key_of}
use vk_cocoon.Provider.Track.{
  claim_deleting_incarnation, finish_deleting, untrack_incarnation, tracked_pod_matches,
}
use vk_cocoon.Provider.World.{
  Env, World, Effect, ApiReply, call, tell, delete_pod, vm_inspect, vm_remove, vm_start, sleep,
  release_lease, notify, forget_probe, schedule_recheck,
}
use vk_cocoon.Provider.Runtime.{
  release_leases, release_dhcp_leases, remove_vm, notify_pod, dhcp_macs,
}
use vk_cocoon.Provider.Quiet.{IgnoresReports, is_report, release_dhcp-quiet}
use vk_cocoon.Provider.Quiet.Status.{notify-quiet}
use vk_cocoon.Provider.Evict.{
  delete_pod_with_retry, evict_delete_attempts, evict_delete_base_delay, untrack_pod, forget_if,
  evict_pod, failed_status, schedule_deferred_recheck, recheck_if_tracked, claim_recheck,
  inspect_with_retry, evict_gone_incarnation, evict_removed, remove_then_evict, end_of,
}

-- What a history says of a pod and its VM: an inspect of the VM answered that it is gone or a removal
-- went through, the VM that an inspect of it answered last as one that does not run, and whether each
-- delete at the apiserver was of this pod and came after the first kind of evidence, and each removal
-- was of that VM.
pub record Audit : Type 0 where
  pub lost : Bool
  pub stopped : Option String
  pub careful : Bool

abbrev pub says_lost : Reply Vm → Bool
says_lost not_found = true
says_lost _ = false

abbrev pub stopped_or : Option String → Reply Vm → Option String
stopped_or old (ok v) = if v.state == state_running then old else some v.id
stopped_or old _ = old

abbrev pub is_stopped : Option String → String → Bool
is_stopped none id = false
is_stopped (some i) id = i == id

-- The VM that an answer shows not to run is the one on record.
abbrev pub shows_stopped : Reply Vm → Option String → Bool
shows_stopped (ok v) stopped = v.state == state_running || is_stopped stopped v.id
shows_stopped _ stopped = true

abbrev pub vm_id_in : Reply Vm → String
vm_id_in (ok v) = v.id
vm_id_in _ = ""

abbrev is_removed : Reply (Unit {0}) → Bool
is_removed (err e) = false
is_removed _ = true

module _ (env : Env) (key uid id : String) where
  unfoldable pub audit : List Effect → Audit
  audit [] = record { lost = false; stopped = none; careful = true }
  audit (vm_inspect i ∷ log) =
      let a = audit log in
      let r = env.vm (vm_inspect i ∷ log) in
      if i == id
      then record a { lost = says_lost r || a.lost; stopped = stopped_or a.stopped r }
      else a
  audit (vm_remove i ∷ log) =
      let a = audit log in
      record a {
        lost = is_removed (env.done (vm_remove i ∷ log)) || a.lost;
        careful = a.careful && is_stopped a.stopped i;
      }
  audit (delete_pod k u ∷ log) =
      let a = audit log in record a { careful = a.careful && k == key && u == uid && a.lost }
  audit (e ∷ log) = audit log

pub audit-ignores : (env : Env) (key uid id : String) → IgnoresReports (audit env key uid id)
unfolding audit is_report
audit-ignores env key uid id e log h = ground arith

module _ (m : Meta) (settings : Settings) (env : Env) (key : String) (pod : Pod) (id : String) where
  abbrev pub seen : World → Audit
  seen w = audit env key pod.uid id w.log

  abbrev nap : ℕ → World → Bool × World
  nap n = call env env.awake (sleep n)

  nap-seen : (n : ℕ) (w : World) → seen (nap n w).1 ≡ seen w
  unfolding call audit
  nap-seen n w = refl

  abbrev send_delete : World → ApiReply × World
  send_delete = call env env.api (delete_pod key pod.uid)

  send_delete-seen :
      (w : World) → (seen w).careful ≡ true → (seen w).lost ≡ true → seen (send_delete w).1 ≡ seen w
  unfolding call audit
  send_delete-seen w c l = ground (arith, eq_refl key, eq_refl pod.uid)

  delete_pod_with_retry-seen :
      (n k : ℕ) (w : World)
      → (seen w).careful ≡ true
      → (seen w).lost ≡ true
      → seen (delete_pod_with_retry m settings env n k key pod.uid w).1 ≡ seen w
  unfolding delete_pod_with_retry
  delete_pod_with_retry-seen zero k w c l = refl
  delete_pod_with_retry-seen (suc zero) k w c l = ground (arith, send_delete-seen w)
  delete_pod_with_retry-seen (suc (suc n)) k w c l =
      let w' = (send_delete w).1 in
      ground (
        arith,
        send_delete-seen w,
        nap-seen (k * evict_delete_base_delay) w',
        delete_pod_with_retry-seen (suc n) (suc k) (nap (k * evict_delete_base_delay) w').1,
      )

  untrack_pod-seen : (w : World) → seen (untrack_pod m settings env key pod.uid w).1 ≡ seen w
  unfolding untrack_pod call audit
  untrack_pod-seen w = ground arith

  evict_pod-seen :
      (w : World)
      → (seen w).careful ≡ true
      → (seen w).lost ≡ true
      → seen (evict_pod m settings env key pod w).1 ≡ seen w
  unfolding evict_pod
  evict_pod-seen w c l =
      let w1 = (delete_pod_with_retry m settings env evict_delete_attempts 1 key pod.uid w).1 in
      let w2 = (untrack_pod m settings env key pod.uid w1).1 in
      ground (
        arith,
        delete_pod_with_retry-seen evict_delete_attempts 1 w,
        untrack_pod-seen w1,
        notify-quiet (audit env key pod.uid id) (audit-ignores env key pod.uid id) m settings env
            (failed_status pod) w2,
      )

  pub schedule-seen :
      (i : String) (w : World) → seen (schedule_deferred_recheck m settings env i w).1 ≡ seen w
  unfolding schedule_deferred_recheck call audit
  schedule-seen i w = ground arith

  pub recheck-seen :
      (i : String) (w : World) → seen (recheck_if_tracked m settings env key pod.uid i w).1 ≡ seen w
  unfolding recheck_if_tracked
  recheck-seen i w = ground (arith, schedule-seen i w)

  pub evict_gone-seen :
      (v : Vm) (w : World)
      → (seen w).careful ≡ true
      → (seen w).lost ≡ true
      → seen (evict_gone_incarnation m settings env key pod v w).1 ≡ seen w
  unfolding evict_gone_incarnation
  evict_gone-seen v w c l =
      let w1 : World = record w {
        tables = (claim_deleting_incarnation key pod.uid v.id w.tables).0;
      } in
      let w2 = (release_dhcp_leases m settings env v w1).1 in
      ground (
        arith,
        release_dhcp-quiet (audit env key pod.uid id) (audit-ignores env key pod.uid id) m settings
            env v w1,
        evict_pod-seen w2,
      )

  -- A removal keeps the history careful when the VM was seen not to run, and is evidence when it
  -- goes through.
  remove_vm-seen :
      (v : Vm) (w : World)
      → (seen w).careful ≡ true
      → is_stopped (seen w).stopped v.id ≡ true
      → let r = remove_vm m settings env v w in
        ((seen r.1).careful ≡ true) × ((is_some r.0 || (seen r.1).lost) ≡ true)
  unfolding remove_vm call audit
  remove_vm-seen v w c s = ground (
    arith,
    release_dhcp-quiet (audit env key pod.uid id) (audit-ignores env key pod.uid id) m settings env
        v (call env env.done (vm_remove v.id) w).1,
  )

  evict_removed-careful :
      (e : Option String) (v : Vm) (w : World)
      → (seen w).careful ≡ true
      → (is_some e || (seen w).lost) ≡ true
      → (seen (evict_removed m settings env e v key pod w).1).careful ≡ true
  evict_removed-careful (some e) v w c l = c
  evict_removed-careful none v w c l =
      let w1 = (evict_pod m settings env key pod w).1 in
      ground (arith, evict_pod-seen w c l, recheck-seen v.id w1)

  pub remove_then_evict-careful :
      (v : Vm) (w : World)
      → (seen w).careful ≡ true
      → is_stopped (seen w).stopped v.id ≡ true
      → (seen (remove_then_evict m settings env v key pod w).1).careful ≡ true
  unfolding remove_then_evict
  remove_then_evict-careful v w c s =
      let w1 : World = record w {
        tables = (claim_deleting_incarnation key pod.uid v.id w.tables).0;
      } in
      let (e, w2) = remove_vm m settings env v w1 in
      ground (arith, remove_vm-seen v w1, evict_removed-careful e v w2)

  -- What the inspections of one event say is in the history.
  pub inspect_with_retry-seen :
      (n : ℕ) (w : World)
      → let r = inspect_with_retry m settings env n id w in
        ((seen r.1).careful ≡ (seen w).careful)
        × ((not (says_lost r.0) || (seen r.1).lost) ≡ true)
        × (shows_stopped r.0 (seen r.1).stopped ≡ true)
  unfolding inspect_with_retry call audit
  inspect_with_retry-seen zero w = ground arith
  inspect_with_retry-seen (suc zero) w =
      ground (arith, eq_refl id, eq_refl (vm_id_in (env.vm (vm_inspect id ∷ w.log))))
  inspect_with_retry-seen (suc (suc n)) w =
      let w1 = (call env env.vm (vm_inspect id) w).1 in
      let w2 = (nap 200_000_000 w1).1 in
      ground (
        arith,
        eq_refl id,
        eq_refl (vm_id_in (env.vm (vm_inspect id ∷ w.log))),
        inspect_with_retry-seen (suc n) w2,
      )
