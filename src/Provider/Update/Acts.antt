-- ===== src/Provider/Update/Acts.antt =====
-- Which of a history's calls remove a VM and which boot one; a hibernate boots none (update.go).
use vk_cocoon.Base.{
  ◌≡◌, refl, Bool, true, false, Option, none, some, String, List, [], ◌∷◌, arith, ◌∙◌,
}
use vk_cocoon.Kube.{Pod, VmSpec, Meta, LifecycleState}
use vk_cocoon.Vm.{Vm}
use vk_cocoon.Spec.{should_drop_nic_before_hibernate}
use vk_cocoon.Provider.State.{Settings, key_of}
use vk_cocoon.Provider.World.{
  Env, World, Effect, ApiReply, call, tell, vm_remove, vm_clone, vm_run, vm_start, snapshot_save,
  snapshot_push, vm_inspect, forget_probe, net_resize, delete_manifest,
}
use vk_cocoon.Provider.Track.{drop_vm}
use vk_cocoon.Provider.Evict.{schedule_deferred_recheck}
use vk_cocoon.Provider.Flush.{mark_lifecycle_state}
use vk_cocoon.Provider.Runtime.{remove_vm, clear_runtime_annotations, fail_op}
use vk_cocoon.Provider.Hibernate.{
  fail_hibernate, refresh_rolled_back_nic, rollback_hibernate, drop_nic_for_hibernate,
  finish_removed, remove_hibernated, push_hibernated, save_hibernated, drop_and_save, hibernate,
  about, missing, roll_back_and_fail, after_removal, start_hibernate,
}
use vk_cocoon.Provider.Flush.{is_accepted}
use vk_cocoon.Provider.Hibernate.Audit.{some_text, text_of}
use vk_cocoon.Provider.Quiet.{
  IgnoresReports, is_report, mark-quiet, apply_runtime-quiet, clear-quiet, release_dhcp-quiet,
}

unfoldable pub removes : List Effect → Bool
removes [] = false
removes (vm_remove i ∷ log) = true
removes (e ∷ log) = removes log

unfoldable pub boots : List Effect → Bool
boots [] = false
boots (vm_clone o ∷ log) = true
boots (vm_run o ∷ log) = true
boots (vm_start i ∷ log) = true
boots (e ∷ log) = boots log

pub removes-ignores : IgnoresReports removes
unfolding removes is_report
removes-ignores e log h = ground arith

pub boots-ignores : IgnoresReports boots
unfolding boots is_report
boots-ignores e log h = ground arith

pub removes-inspects :
    (id : String) (log : List Effect) → removes (vm_inspect id ∷ log) ≡ removes log
unfolding removes
removes-inspects id log = refl

pub boots-inspects : (id : String) (log : List Effect) → boots (vm_inspect id ∷ log) ≡ boots log
unfolding boots
boots-inspects id log = refl

module _ (m : Meta) (settings : Settings) (env : Env) where
  abbrev at : World → Bool
  at w = boots w.log

  fail-boots :
      (pod : Pod) (e : String) (w : World) → at (fail_hibernate m settings env pod e w).1 ≡ at w
  unfolding fail_hibernate fail_op
  fail-boots pod e w = mark-quiet boots boots-ignores m settings env pod LifecycleState.failed _ w

  nic-boots :
      (pod : Pod) (v : Vm) (w : World)
      → at (refresh_rolled_back_nic m settings env pod v w).1 ≡ at w
  unfolding refresh_rolled_back_nic call boots
  nic-boots pod v w = refl

  rollback-boots :
      (pod : Pod) (v : Vm) (dropped : Bool) (w : World)
      → at (rollback_hibernate m settings env pod v dropped w).1 ≡ at w
  unfolding rollback_hibernate call boots
  rollback-boots pod v false w = apply_runtime-quiet boots boots-ignores m settings env pod v w
  rollback-boots pod v true w =
      let w' = (tell env (net_resize v.id 1) w).1 in
      let (v', w'') = refresh_rolled_back_nic m settings env pod v w' in
      apply_runtime-quiet boots boots-ignores m settings env pod v' w'' ∙ nic-boots pod v w'

  drop_nic-boots : (v : Vm) (w : World) → at (drop_nic_for_hibernate m settings env v w).1 ≡ at w
  unfolding drop_nic_for_hibernate call boots
  drop_nic-boots v w = ground arith

  give_up-boots :
      (pod : Pod) (v : Vm) (dropped : Bool) (e : String) (w : World)
      → at (roll_back_and_fail m settings env pod v dropped e w).1 ≡ at w
  unfolding roll_back_and_fail
  give_up-boots pod v dropped e w =
      fail-boots pod e (rollback_hibernate m settings env pod v dropped w).1
      ∙ rollback-boots pod v dropped w

  finish_removed-boots :
      (pod : Pod) (pre_cleared : Bool) (w : World)
      → at (finish_removed m settings env pod pre_cleared w).1 ≡ at w
  unfolding finish_removed call boots
  finish_removed-boots pod pre_cleared w =
      let (r, w') = clear_runtime_annotations m settings env pod w in
      let gone = λ (u : World). record u { tables = drop_vm (key_of m pod) u.tables } in
      let forget = λ (u : World). (tell env (forget_probe (key_of m pod)) u).1 in
      let marked = mark-quiet boots boots-ignores m settings env in
      ground (
        arith,
        clear-quiet boots boots-ignores m settings env pod w,
        marked pod LifecycleState.hibernated "" (gone w),
        marked pod LifecycleState.hibernated "" (forget (gone w)),
        marked r.0 LifecycleState.hibernated "" (gone w'),
        marked r.0 LifecycleState.hibernated "" (forget (gone w')),
      )

  after_removal-boots :
      (r : Pod × ApiReply) (v : Vm) (dropped : Bool) (e : Option String) (w : World)
      → at (after_removal m settings env r v dropped e w).1 ≡ at w
  unfolding after_removal call boots
  after_removal-boots r v dropped none w =
      ground (arith, finish_removed-boots r.0 (is_accepted r.1) w)
  after_removal-boots r v dropped (some e) w =
      let reason = about "remove vm " v.id e in
      ground (
        arith,
        give_up-boots r.0 v dropped reason w,
        give_up-boots r.0 v dropped reason (tell env (delete_manifest v.name) w).1,
      )

  remove_vm-boots : (v : Vm) (w : World) → at (remove_vm m settings env v w).1 ≡ at w
  unfolding remove_vm call boots
  remove_vm-boots v w =
      let w' = (call env env.done (vm_remove v.id) w).1 in
      ground (arith, release_dhcp-quiet boots boots-ignores m settings env v w')

  remove-boots :
      (pod : Pod) (v : Vm) (dropped : Bool) (w : World)
      → at (remove_hibernated m settings env pod v dropped w).1 ≡ at w
  unfolding remove_hibernated
  remove-boots pod v dropped w =
      let (r, w1) = clear_runtime_annotations m settings env pod w in
      let (e, w2) = remove_vm m settings env v w1 in
      after_removal-boots r v dropped e w2
      ∙ remove_vm-boots v w1
      ∙ clear-quiet boots boots-ignores m settings env pod w

  push-boots :
      (image : String) (pod : Pod) (v : Vm) (dropped : Bool) (w : World)
      → at (push_hibernated m settings env image pod v dropped w).1 ≡ at w
  unfolding push_hibernated call boots
  push-boots image pod v dropped w =
      let e =
        snapshot_push v.name v.name m.hibernate_snapshot_tag image
          (m.read_snapshot_annotations pod) in
      let (r, w') = call env env.done e w in
      let what = about "push hibernation snapshot " v.name in
      ground (
        arith,
        remove-boots pod v dropped w,
        remove-boots pod v dropped w',
        give_up-boots pod v dropped (what missing) w',
        give_up-boots pod v dropped (what (text_of r)) w',
      )

  save-boots :
      (image : String) (pod : Pod) (v : Vm) (dropped : Bool) (w : World)
      → at (save_hibernated m settings env image pod v dropped w).1 ≡ at w
  unfolding save_hibernated call boots
  save-boots image pod v dropped w =
      let (r, w') = call env env.done (snapshot_save v.name v.id) w in
      let what = about "save snapshot " v.name in
      ground (
        arith,
        push-boots image pod v dropped w',
        give_up-boots pod v dropped (what missing) w',
        give_up-boots pod v dropped (what (text_of r)) w',
      )

  drop_and_save-boots :
      (image : String) (pod : Pod) (v : Vm) (drop : Bool) (w : World)
      → at (drop_and_save m settings env image pod v drop w).1 ≡ at w
  unfolding drop_and_save
  drop_and_save-boots image pod v false w = save-boots image pod v false w
  drop_and_save-boots image pod v true w =
      let (e, w') = drop_nic_for_hibernate m settings env v w in
      ground
        (arith, drop_nic-boots v w, save-boots image pod v true w', fail-boots pod (some_text e) w')

  pub hibernate-boots :
      (pod : Pod) (spec : VmSpec) (v : Vm) (w : World)
      → at (hibernate m settings env pod spec v w).1 ≡ at w
  unfolding hibernate schedule_deferred_recheck call boots
  hibernate-boots pod spec v w =
      let w1 : World = record w { tables = start_hibernate (key_of m pod) w.tables } in
      let (pod', w2) = mark_lifecycle_state m settings env pod LifecycleState.hibernating "" w1 in
      let drop = should_drop_nic_before_hibernate m spec in
      ground (
        arith,
        mark-quiet boots boots-ignores m settings env pod LifecycleState.hibernating "" w1,
        drop_and_save-boots spec.image pod' v drop w2,
      )
