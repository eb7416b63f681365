-- ===== src/Provider/Hibernate/Audit.antt =====
-- A hibernate removes the VM only after its state is saved and, with a registry, pushed (update.go).
pub mod Stages
use vk_cocoon.Base.{
  ℕ, zero, suc, ◌≡◌, refl, Bool, true, false, not, ◌&&◌, ◌||◌, Option, none, some, String, List, [],
  ◌∷◌, arith, ◌==◌, ◌∙◌,
}
use vk_cocoon.Kube.{Pod, VmSpec, Meta, LifecycleState}
use vk_cocoon.Vm.{Vm, Reply, ok, err}
use vk_cocoon.Provider.State.{Settings, Tables, key_of}
use vk_cocoon.Provider.World.{
  Env, World, Effect, ApiReply, call, tell, snapshot_save, snapshot_push, vm_remove, sleep,
  release_lease, net_resize, delete_manifest, forget_probe,
}
use vk_cocoon.Provider.Track.{track_pod_incarnation, drop_vm}
use vk_cocoon.Provider.Lifecycle.{apply_lifecycle}
use vk_cocoon.Provider.Flush.{
  is_accepted, patch_incarnation_annotations, patch_with_retry, flush_attempts, flush_lifecycle,
  mark_lifecycle_state, lifecycle_patch_attempts, lifecycle_patch_interval,
}
use vk_cocoon.Provider.Quiet.{
  IgnoresReports, is_report, mark-quiet, apply_runtime-quiet, clear-quiet, release_dhcp-quiet,
}
use vk_cocoon.Provider.Runtime.{
  release_leases, release_dhcp_leases, remove_vm, apply_vm_runtime, apply_runtime,
  clear_runtime_annotations, fail_op, dhcp_macs, store_pod, without_runtime,
}
use vk_cocoon.Provider.Hibernate.{
  fail_hibernate, refresh_rolled_back_nic, rollback_hibernate, drop_nic_for_hibernate,
  finish_removed, remove_hibernated, push_hibernated, save_hibernated, drop_and_save, hibernate,
  about, missing, roll_back_and_fail, after_removal, start_hibernate,
}
use vk_cocoon.Spec.{should_drop_nic_before_hibernate}

abbrev is_ok : Reply (Unit {0}) → Bool
is_ok (ok _) = true
is_ok _ = false

-- What a history says of one VM: a save of it succeeded, a push succeeded, and each removal of it
-- came after a save and, where pushes are wanted, a push.
pub record Audit : Type 0 where
  pub saved : Bool
  pub pushed : Bool
  pub careful : Bool

abbrev pub some_text : Option String → String
some_text none = ""
some_text (some e) = e

abbrev pub text_of : Reply (Unit {0}) → String
text_of (err e) = e
text_of _ = ""

module _ (settings : Settings) (env : Env) (id : String) where
  unfoldable pub audit : List Effect → Audit
  audit [] = record { saved = false; pushed = false; careful = true }
  audit (snapshot_save n i ∷ log) =
      let a = audit log in
      record a { saved = (i == id && is_ok (env.done (snapshot_save n i ∷ log))) || a.saved }
  audit (snapshot_push n r g i t ∷ log) =
      let a = audit log in
      record a { pushed = is_ok (env.done (snapshot_push n r g i t ∷ log)) || a.pushed }
  audit (vm_remove i ∷ log) =
      let a = audit log in
      record a {
        careful = a.careful && (not (i == id) || a.saved && (not settings.has_pusher || a.pushed));
      }
  audit (e ∷ log) = audit log

pub audit-ignores :
    (settings : Settings) (env : Env) (id : String) → IgnoresReports (audit settings env id)
unfolding audit is_report
audit-ignores settings env id e log h = ground arith

module _ (m : Meta) (settings : Settings) (env : Env) (id : String) where
  abbrev pub seen : World → Audit
  seen w = audit settings env id w.log

  pub fail_hibernate-seen :
      (pod : Pod) (e : String) (w : World) → seen (fail_hibernate m settings env pod e w).1 ≡ seen w
  unfolding fail_hibernate fail_op
  fail_hibernate-seen pod e w =
      mark-quiet (audit settings env id) (audit-ignores settings env id) m settings env pod
        LifecycleState.failed _ w

  refresh_nic-seen :
      (pod : Pod) (v : Vm) (w : World)
      → seen (refresh_rolled_back_nic m settings env pod v w).1 ≡ seen w
  unfolding refresh_rolled_back_nic call audit
  refresh_nic-seen pod v w = refl

  pub rollback-seen :
      (pod : Pod) (v : Vm) (dropped : Bool) (w : World)
      → seen (rollback_hibernate m settings env pod v dropped w).1 ≡ seen w
  unfolding rollback_hibernate call audit
  rollback-seen pod v false w =
      apply_runtime-quiet (audit settings env id) (audit-ignores settings env id) m settings env pod
        v w
  rollback-seen pod v true w =
      let w' = (tell env (net_resize v.id 1) w).1 in
      let (v', w'') = refresh_rolled_back_nic m settings env pod v w' in
      apply_runtime-quiet (audit settings env id) (audit-ignores settings env id) m settings env pod
        v' w''
      ∙ refresh_nic-seen pod v w'

  pub drop_nic-seen :
      (v : Vm) (w : World) → seen (drop_nic_for_hibernate m settings env v w).1 ≡ seen w
  unfolding drop_nic_for_hibernate call audit
  drop_nic-seen v w = ground arith

  pub finish_removed-seen :
      (pod : Pod) (pre_cleared : Bool) (w : World)
      → seen (finish_removed m settings env pod pre_cleared w).1 ≡ seen w
  unfolding finish_removed call audit
  finish_removed-seen pod true w =
      let dropped = drop_vm (key_of m pod) w.tables in
      let w1 : World = record w { tables = dropped } in
      let w2 = (tell env (forget_probe (key_of m pod)) w1).1 in
      ground (
        arith,
        mark-quiet (audit settings env id) (audit-ignores settings env id) m settings env pod
            LifecycleState.hibernated "" w1,
        mark-quiet (audit settings env id) (audit-ignores settings env id) m settings env pod
            LifecycleState.hibernated "" w2,
      )
  finish_removed-seen pod false w =
      let (r, w') = clear_runtime_annotations m settings env pod w in
      let dropped = drop_vm (key_of m pod) w'.tables in
      let w1 : World = record w' { tables = dropped } in
      let w2 = (tell env (forget_probe (key_of m pod)) w1).1 in
      ground (
        arith,
        clear-quiet (audit settings env id) (audit-ignores settings env id) m settings env pod w,
        mark-quiet (audit settings env id) (audit-ignores settings env id) m settings env r.0
            LifecycleState.hibernated "" w1,
        mark-quiet (audit settings env id) (audit-ignores settings env id) m settings env r.0
            LifecycleState.hibernated "" w2,
      )
