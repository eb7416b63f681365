-- ===== src/Provider/Hibernate.antt =====
-- provider/cocoon/update.go: hibernate a pod's VM, in the order Save, Push, Remove, with the rollback
-- of each failure. Each stage of the Go function is a function that goes on to the next.
pub mod Audit
use Prim.Native.String.{◌++◌ as append_text}
use vk_cocoon.Base.{
  ℕ, suc, Bool, true, false, not, ◌&&◌, Option, none, some, String, List, [], ◌∷◌, is_empty,
  if◌then◌else◌, is_some,
}
use vk_cocoon.Base.Table.{lookup, insert, delete}
use vk_cocoon.Kube.{Pod, VmSpec, Meta, LifecycleState}
use vk_cocoon.Vm.{Vm, NetworkConfig, Reply, ok, not_found, err, is_static_nic}
use vk_cocoon.Spec.{should_drop_nic_before_hibernate}
use vk_cocoon.Provider.State.{Tables, Settings, key_of}
use vk_cocoon.Provider.Track.{drop_vm, update_tracked_vm}
use vk_cocoon.Provider.World.{
  Env, Io, Effect, ApiReply, net_resize, guest_ipconfig, snapshot_save, snapshot_push,
  delete_manifest, vm_inspect, forget_probe, schedule_recheck, ◌>>=◌, ◌>>◌, pure, locked, reads,
  section, call, tell,
}
use vk_cocoon.Provider.Evict.{schedule_deferred_recheck}
use vk_cocoon.Provider.Flush.{is_accepted, mark_lifecycle_state}
use vk_cocoon.Provider.Runtime.{remove_vm, apply_runtime, clear_runtime_annotations, fail_op}

unfoldable pub start_hibernate : String → Tables → Tables
start_hibernate key t = record t { hibernating = insert key false t.hibernating }

abbrev bool_or_false : Option Bool → Bool
bool_or_false none = false
bool_or_false (some b) = b

-- `finishHibernate`: whether the VM was seen gone meanwhile.
unfoldable pub finish_hibernate : String → Tables → Tables × Bool
finish_hibernate key t =
    (record t { hibernating = delete key t.hibernating }, bool_or_false (lookup key t.hibernating))

abbrev pub hibernate_failure_prefix : String
hibernate_failure_prefix = "hibernate: "

abbrev first_is_static : List NetworkConfig → Bool
first_is_static [] = false
first_is_static (nic ∷ rest) = is_static_nic nic

-- What `refreshRolledBackNIC` makes of the tracked VM: the address is forgotten, and the network of
-- the re-inspected VM is taken over.
unfoldable pub rolled_back_nic : Reply Vm → Vm → Vm
rolled_back_nic (ok fresh) v = record v {
  ip = if first_is_static fresh.network_configs then fresh.ip else "";
  mac = fresh.mac;
  network_configs = fresh.network_configs;
}
rolled_back_nic not_found v = record v { ip = "" }
rolled_back_nic (err e) v = record v { ip = "" }

-- `fmt.Errorf("<what> <name>: %w", err)`.
unfoldable pub about : String → String → String → String
about what name e = append_text what (append_text name (append_text ": " e))

-- The text of the typed not-found error.
abbrev pub missing : String
missing = "vm not found"

abbrev vm_or : Vm → Option Vm → Vm
vm_or v none = v
vm_or v (some w) = w

module _ (m : Meta) (settings : Settings) (env : Env) where
  unfoldable pub fail_hibernate : Pod → String → Io (Option String)
  fail_hibernate pod e = do
    let message = append_text hibernate_failure_prefix e
    _ ← fail_op m settings env pod message
    pure (some message)

  unfoldable pub refresh_rolled_back_nic : Pod → Vm → Io Vm
  refresh_rolled_back_nic pod v = do
    fresh ← call env env.vm (vm_inspect v.id)
    updated ← section (update_tracked_vm (key_of m pod) v.id (rolled_back_nic fresh))
    pure (vm_or v updated)

  abbrev re_add_nic : Bool → Pod → Vm → Io Vm
  re_add_nic false pod v = pure v
  re_add_nic true pod v = do tell env (net_resize v.id 1); refresh_rolled_back_nic pod v

  abbrev renew_lease : Bool → Vm → Io (Unit {0})
  renew_lease false v = pure tt
  renew_lease true v = tell env (guest_ipconfig v.id "renew")

  unfoldable pub rollback_hibernate : Pod → Vm → Bool → Io (Unit {0})
  rollback_hibernate pod v dropped = do
    v' ← re_add_nic dropped pod v
    _ ← apply_runtime m settings env pod v'
    renew_lease dropped v'

  -- `dropNICForHibernate`: a failed release of the lease does not stop it. The result is its error.
  unfoldable pub drop_nic_for_hibernate : Vm → Io (Option String)
  drop_nic_for_hibernate v = do
    tell env (guest_ipconfig v.id "release")
    r ← call env env.done (net_resize v.id 0)
    elim r [
      | ok _ ↦ pure none
      | not_found ↦ do
        tell env (guest_ipconfig v.id "renew")
        pure (some (about "drop NIC pre-hibernate " v.name missing))
      | err e ↦ do
        tell env (guest_ipconfig v.id "renew")
        pure (some (about "drop NIC pre-hibernate " v.name e))
    ]

  abbrev forget_probe_if_any : Bool → String → Io (Unit {0})
  forget_probe_if_any false key = pure tt
  forget_probe_if_any true key = tell env (forget_probe key)

  abbrev clear_again : Bool → Pod → Io Pod
  clear_again true pod = pure pod
  clear_again false pod = do r ← clear_runtime_annotations m settings env pod; pure r.0

  -- After the VM is removed.
  unfoldable pub finish_removed : Pod → Bool → Io (Option String)
  finish_removed pod pre_cleared = do
    pod' ← clear_again pre_cleared pod
    locked (drop_vm (key_of m pod))
    forget_probe_if_any settings.has_probes (key_of m pod)
    _ ← mark_lifecycle_state m settings env pod' LifecycleState.hibernated ""
    pure none

  abbrev withdraw_manifest : Bool → String → Io (Unit {0})
  withdraw_manifest false name = pure tt
  withdraw_manifest true name = tell env (delete_manifest name)

  unfoldable pub roll_back_and_fail : Pod → Vm → Bool → String → Io (Option String)
  roll_back_and_fail pod v dropped e = do rollback_hibernate pod v dropped; fail_hibernate pod e

  unfoldable pub after_removal : Pod × ApiReply → Vm → Bool → Option String → Io (Option String)
  after_removal cleared v dropped none = finish_removed cleared.0 (is_accepted cleared.1)
  after_removal cleared v dropped (some e) = do
    withdraw_manifest settings.has_registry v.name
    roll_back_and_fail cleared.0 v dropped (about "remove vm " v.id e)

  unfoldable pub remove_hibernated : Pod → Vm → Bool → Io (Option String)
  remove_hibernated pod v dropped = do
    cleared ← clear_runtime_annotations m settings env pod
    e ← remove_vm m settings env v
    after_removal cleared v dropped e

  unfoldable pub push_hibernated : String → Pod → Vm → Bool → Io (Option String)
  push_hibernated image pod v dropped = elim settings.has_pusher [
    | false ↦ remove_hibernated pod v dropped
    | true ↦ do
      r ← call env env.done (
          snapshot_push v.name v.name m.hibernate_snapshot_tag image
            (m.read_snapshot_annotations pod))
      elim r [
        | ok _ ↦ remove_hibernated pod v dropped
        | not_found ↦
            roll_back_and_fail pod v dropped (about "push hibernation snapshot " v.name missing)
        | err e ↦ roll_back_and_fail pod v dropped (about "push hibernation snapshot " v.name e)
      ]
  ]

  unfoldable pub save_hibernated : String → Pod → Vm → Bool → Io (Option String)
  save_hibernated image pod v dropped = do
    r ← call env env.done (snapshot_save v.name v.id)
    elim r [
      | ok _ ↦ push_hibernated image pod v dropped
      | not_found ↦ roll_back_and_fail pod v dropped (about "save snapshot " v.name missing)
      | err e ↦ roll_back_and_fail pod v dropped (about "save snapshot " v.name e)
    ]

  unfoldable pub drop_and_save : String → Pod → Vm → Bool → Io (Option String)
  drop_and_save image pod v false = save_hibernated image pod v false
  drop_and_save image pod v true = do
    e ← drop_nic_for_hibernate v
    elim e [ none ↦ save_hibernated image pod v true | some e ↦ fail_hibernate pod e ]

  abbrev recheck_if : Bool → Vm → Io (Unit {0})
  recheck_if false v = pure tt
  recheck_if true v = schedule_deferred_recheck m settings env v.id

  -- `hibernate`: the result is its error.
  unfoldable pub hibernate : Pod → VmSpec → Vm → Io (Option String)
  hibernate pod spec v = do
    locked (start_hibernate (key_of m pod))
    pod' ← mark_lifecycle_state m settings env pod LifecycleState.hibernating ""
    e ← drop_and_save spec.image pod' v (should_drop_nic_before_hibernate m spec)
    gone ← section (finish_hibernate (key_of m pod))
    recheck_if gone v
    pure e
