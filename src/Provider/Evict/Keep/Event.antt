-- ===== src/Provider/Evict/Keep/Event.antt =====
-- `handleVMGone` acts only on evidence (provider/cocoon/provider.go).
use vk_cocoon.Base.{
  ap, ◌≡◌, refl, arith, eq_iff, ◌⊎◌, inl, inr, Bool, true, false, is_empty, not, ◌||◌, Option, none,
  some, String, List, [], ◌∷◌, if◌then◌else◌,
}
use vk_cocoon.Base.Table.{Table, lookup}
use vk_cocoon.Kube.{Pod, Meta}
use vk_cocoon.Vm.{Vm, Reply, ok, not_found, err, is_macos_vm}
use vk_cocoon.Provider.State.{Settings, Tables}
use vk_cocoon.Provider.World.{Env, World, Effect, call, vm_start, vm_inspect, read_clock}
use vk_cocoon.Provider.Ready.{lift_cleared_hibernate_failure}
use vk_cocoon.Provider.Evict.{
  pod_for_vm_match, matches, with_pod, take_restart, note_event, inspect_with_retry,
  inline_inspect_attempts, evict_gone_incarnation,
}
use vk_cocoon.Provider.Evict.Event.{
  restart_or_remove, act_on_inspect, handle_match, handle_vm_gone, take_network,
}
use vk_cocoon.Provider.Evict.Keep.{
  Audit, audit-ignores, audit, says_lost, shows_stopped, is_stopped, schedule-seen, recheck-seen,
  evict_gone-seen, remove_then_evict-careful, inspect_with_retry-seen,
}
use vk_cocoon.Provider.Quiet.{IgnoresReports}
use vk_cocoon.Provider.Quiet.Status.{lift_cleared-quiet}

careful-ignores :
    (env : Env) (key uid id : String) → IgnoresReports (λ log. (audit env key uid id log).careful)
careful-ignores env key uid id e log h =
    ap (λ (a : Audit). a.careful) (audit-ignores env key uid id e log h)

module _ (m : Meta) (settings : Settings) (env : Env) (key : String) (pod : Pod) (id : String) where
  abbrev log_of : World → Audit
  log_of w = audit env key pod.uid id w.log

  abbrev at : World → Bool
  at w = (log_of w).careful

  start-seen : (w : World) → log_of (call env env.done (vm_start id) w).1 ≡ log_of w
  unfolding call audit
  start-seen w = refl

  clock-seen : (w : World) → log_of (call env env.clock read_clock w).1 ≡ log_of w
  unfolding call audit
  clock-seen w = refl

  inspect-calm : (w : World) → at (call env env.vm (vm_inspect id) w).1 ≡ at w
  unfolding call audit
  inspect-calm w = ground arith

  take_network-seen :
      (r : Reply Vm) (w : World) → (take_network m settings env r key id w).1.log ≡ w.log
  take_network-seen (ok v) w = refl
  take_network-seen not_found w = refl
  take_network-seen (err e) w = refl

  -- A VM that started is inspected for its network, and the pod may be lifted.
  after_start-calm :
      (w : World)
      → let (fresh, w1) = call env env.vm (vm_inspect id) w in
        let w2 = (take_network m settings env fresh key id w1).1 in
        at (lift_cleared_hibernate_failure m settings env pod w2).1 ≡ at w
  after_start-calm w =
      let (fresh, w1) = call env env.vm (vm_inspect id) w in
      let w2 = (take_network m settings env fresh key id w1).1 in
      ground (
        arith,
        inspect-calm w,
        take_network-seen fresh w1,
        lift_cleared-quiet (λ log. (audit env key pod.uid id log).careful)
            (careful-ignores env key pod.uid id) (λ i log. unfold audit in ground arith) m settings
            env pod w2,
      )

  restart_or_remove-careful :
      (v : Vm) (w : World)
      → at w ≡ true
      → is_stopped (log_of w).stopped v.id ≡ true
      → at (restart_or_remove m settings env v id key pod w).1 ≡ true
  unfolding restart_or_remove
  restart_or_remove-careful v w c s =
      let (now, w1) = call env env.clock read_clock w in
      let w2 : World = record w1 { tables = (take_restart id now w1.tables).0 } in
      let w3 = (call env env.done (vm_start id) w2).1 in
      ground (
        arith,
        clock-seen w,
        start-seen w2,
        remove_then_evict-careful m settings env key pod id v w2,
        remove_then_evict-careful m settings env key pod id v w3,
        after_start-calm w3,
      )

  act_on_inspect-careful :
      (r : Reply Vm) (v : Vm) (w : World)
      → v.id ≡ id
      → at w ≡ true
      → (not (says_lost r) || (log_of w).lost) ≡ true
      → shows_stopped r (log_of w).stopped ≡ true
      → at (act_on_inspect m settings env r key pod v w).1 ≡ true
  unfolding act_on_inspect
  act_on_inspect-careful not_found v w e c l s =
      let w' = (evict_gone_incarnation m settings env key pod v w).1 in
      ground (
        arith,
        evict_gone-seen m settings env key pod id v w,
        recheck-seen m settings env key pod id v.id w',
      )
  act_on_inspect-careful (err _) v w e c l s =
      ground (arith, schedule-seen m settings env key pod id v.id w)
  act_on_inspect-careful (ok u) v w e c l s = ground (arith, e, restart_or_remove-careful u w)

  pub handle_match-careful :
      (v : Vm) (w : World)
      → v.id ≡ id
      → at w ≡ true
      → at (handle_match m settings env (some (key, pod, v)) w).1 ≡ true
  handle_match-careful v w e c =
      let w1 : World = record w { tables = (note_event key w.tables).0 } in
      let (r, w2) = inspect_with_retry m settings env inline_inspect_attempts id w1 in
      ground (
        arith,
        e,
        inspect_with_retry-seen m settings env key pod id inline_inspect_attempts w1,
        act_on_inspect-careful r v w2 e,
      )

-- The row of `vms_by_pod` is there.
abbrev pub HasRow : String → Vm → Table Vm → Type 0
HasRow key v [] = ⊥
HasRow key v (row ∷ rows) = (row ≡ (key, v)) ⊎ HasRow key v rows

-- The event speaks of the pod: its tracked VM, no macOS guest, has the event's id, or the event's name.
abbrev pub Concerns : Vm → Table Pod → Table Vm → Option (String × Pod × Vm) → Type 0
Concerns event pods rows none = Unit
Concerns event pods rows (some (key, pod, v)) =
    (lookup key pods ≡ some pod)
    × HasRow key v rows
    × (is_macos_vm (some v) ≡ false)
    × ((v.id ≡ event.id) ⊎ ((v.name ≡ event.name) × (is_empty event.name ≡ false)))

later-Concerns :
    (event : Vm) (pods : Table Pod) (row : String × Vm) (rows : Table Vm)
    (found : Option (String × Pod × Vm))
    → Concerns event pods rows found
    → Concerns event pods (row ∷ rows) found
later-Concerns event pods row rows none h = tt
later-Concerns event pods row rows (some (key, pod, v)) (p, r, h, e) = (p, inr r, h, e)

row-Concerns :
    (event v : Vm) (pods : Table Pod) (key : String) (rows : Table Vm)
    (rest : Option (String × Pod × Vm)) (macos hit : Bool) (tracked : Option Pod)
    → is_macos_vm (some v) ≡ macos
    → matches event.id event.name v ≡ hit
    → lookup key pods ≡ tracked
    → Concerns event pods rows rest
    → Concerns event pods
        ((key, v) ∷ rows)
        (if macos then rest else (if hit then with_pod key v tracked rest else rest))
row-Concerns event v pods key rows rest true hit tracked a b c h =
    later-Concerns event pods (key, v) rows rest h
row-Concerns event v pods key rows rest false false tracked a b c h =
    later-Concerns event pods (key, v) rows rest h
row-Concerns event v pods key rows rest false true none a b c h =
    later-Concerns event pods (key, v) rows rest h
row-Concerns event v pods key rows rest false true (some pod) a b c h =
    (c, inl refl, a, ground (arith, eq_iff v.id event.id, eq_iff v.name event.name))

match-Concerns :
    (event : Vm) (pods : Table Pod) (rows : Table Vm)
    → Concerns event pods rows (pod_for_vm_match event.id event.name pods rows)
unfolding pod_for_vm_match
match-Concerns event pods [] = tt
match-Concerns event pods ((key, v) ∷ rows) =
    row-Concerns event v pods key rows (pod_for_vm_match event.id event.name pods rows)
      (is_macos_vm (some v)) (matches event.id event.name v) (lookup key pods) refl refl refl
      (match-Concerns event pods rows)

-- What the run of the handler may have done.
abbrev pub ActsOnEvidence : Env → Option (String × Pod × Vm) → List Effect → Type 0
ActsOnEvidence env none log = log ≡ []
ActsOnEvidence env (some (key, pod, v)) log = (audit env key pod.uid v.id log).careful ≡ true

match-acts :
    (m : Meta) (settings : Settings) (env : Env) (found : Option (String × Pod × Vm)) (t : Tables)
    → ActsOnEvidence env found
        (handle_match m settings env found (record { tables = t; log = [] })).1.log
match-acts m settings env none t = refl
match-acts m settings env (some (key, pod, v)) t =
    handle_match-careful m settings env key pod v.id v (record { tables = t; log = [] }) refl
      (unfold audit in refl)

-- However the calls are answered and whatever other goroutines do, the handler of a VM event finds a
-- pod whose tracked VM has the event's id or name, or makes no call. It deletes no pod at the apiserver
-- but this one, and only after an inspect of that VM in the same run has answered that it is gone or a
-- removal has gone through; and it removes no VM but the one that an inspect of the tracked VM last
-- answered as one that does not run.
pub handle_vm_gone-careful :
    (m : Meta) (settings : Settings) (env : Env) (event_vm : Vm) (t : Tables)
    → let found = pod_for_vm_match event_vm.id event_vm.name t.pods t.vms_by_pod in
      let w : World = record { tables = t; log = [] } in
      Concerns event_vm t.pods t.vms_by_pod found
      × ActsOnEvidence env found (handle_vm_gone m settings env event_vm w).1.log
unfolding handle_vm_gone
handle_vm_gone-careful m settings env event_vm t =
    let found = pod_for_vm_match event_vm.id event_vm.name t.pods t.vms_by_pod in
    (match-Concerns event_vm t.pods t.vms_by_pod, match-acts m settings env found t)
