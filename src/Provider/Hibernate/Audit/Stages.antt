-- ===== src/Provider/Hibernate/Audit/Stages.antt =====
-- The stages of a hibernate under the audit (update.go).
use vk_cocoon.Base.{
  ◌≡◌, refl, Bool, true, false, not, ◌&&◌, ◌||◌, Option, none, some, String, [], arith, ◌==◌, ◌∙◌,
}
use vk_cocoon.Kube.{Pod, VmSpec, Meta, LifecycleState}
use vk_cocoon.Vm.{Vm}
use vk_cocoon.Provider.State.{Settings, Tables, key_of}
use vk_cocoon.Provider.World.{
  Env, World, ApiReply, call, tell, snapshot_save, snapshot_push, vm_remove, delete_manifest,
}
use vk_cocoon.Provider.Flush.{is_accepted, mark_lifecycle_state}
use vk_cocoon.Provider.Runtime.{remove_vm, clear_runtime_annotations}
use vk_cocoon.Provider.Evict.{schedule_deferred_recheck}
use vk_cocoon.Provider.Hibernate.{
  rollback_hibernate, drop_nic_for_hibernate, remove_hibernated, push_hibernated, save_hibernated,
  drop_and_save, hibernate, about, missing, roll_back_and_fail, after_removal, start_hibernate,
}
use vk_cocoon.Spec.{should_drop_nic_before_hibernate}
use vk_cocoon.Provider.Quiet.{mark-quiet, clear-quiet, release_dhcp-quiet}
use vk_cocoon.Provider.Hibernate.Audit.{
  audit-ignores, audit, Audit, seen, fail_hibernate-seen, rollback-seen, drop_nic-seen,
  finish_removed-seen, some_text, text_of,
}

module _ (m : Meta) (settings : Settings) (env : Env) (id : String) where
  -- The history allows a removal of `v`.
  abbrev allows : Vm → Audit → Bool
  allows v a = not (v.id == id) || a.saved && (not settings.has_pusher || a.pushed)

  abbrev after_remove : Vm → Audit → Audit
  after_remove v a = record a { careful = a.careful && allows v a }

  remove_vm-seen :
      (v : Vm) (w : World)
      → seen m settings env id (remove_vm m settings env v w).1
        ≡ after_remove v (seen m settings env id w)
  unfolding remove_vm call audit
  remove_vm-seen v w =
      let w' = (call env env.done (vm_remove v.id) w).1 in
      ground (
        arith,
        release_dhcp-quiet (audit settings env id) (audit-ignores settings env id) m settings env v
            w',
      )

  fail-seen :
      (pod : Pod) (v : Vm) (dropped : Bool) (e : String) (w : World)
      → seen m settings env id (roll_back_and_fail m settings env pod v dropped e w).1
        ≡ seen m settings env id w
  unfolding roll_back_and_fail
  fail-seen pod v dropped e w =
      fail_hibernate-seen m settings env id pod e
        (rollback_hibernate m settings env pod v dropped w).1
      ∙ rollback-seen m settings env id pod v dropped w

  after_removal-seen :
      (r : Pod × ApiReply) (v : Vm) (dropped : Bool) (e : Option String) (w : World)
      → seen m settings env id (after_removal m settings env r v dropped e w).1
        ≡ seen m settings env id w
  unfolding after_removal call audit
  after_removal-seen r v dropped none w =
      finish_removed-seen m settings env id r.0 (is_accepted r.1) w
  after_removal-seen r v dropped (some e) w =
      let reason = about "remove vm " v.id e in
      ground (
        arith,
        fail-seen r.0 v dropped reason w,
        fail-seen r.0 v dropped reason (tell env (delete_manifest v.name) w).1,
      )

  remove_hibernated-careful :
      (pod : Pod) (v : Vm) (dropped : Bool) (w : World)
      → (seen m settings env id w).careful ≡ true
      → allows v (seen m settings env id w) ≡ true
      → (seen m settings env id (remove_hibernated m settings env pod v dropped w).1).careful ≡ true
  unfolding remove_hibernated
  remove_hibernated-careful pod v dropped w c a =
      let (r, w1) = clear_runtime_annotations m settings env pod w in
      let (e, w2) = remove_vm m settings env v w1 in
      ground (
        arith,
        clear-quiet (audit settings env id) (audit-ignores settings env id) m settings env pod w,
        remove_vm-seen v w1,
        after_removal-seen r v dropped e w2,
      )

  -- The VM's state is saved.
  abbrev has_saved : Vm → Audit → Bool
  has_saved v a = not (v.id == id) || a.saved

  push_hibernated-careful :
      (image : String) (pod : Pod) (v : Vm) (dropped : Bool) (w : World)
      → (seen m settings env id w).careful ≡ true
      → has_saved v (seen m settings env id w) ≡ true
      → (seen m settings env id (push_hibernated m settings env image pod v dropped w).1).careful
        ≡ true
  unfolding push_hibernated call audit
  push_hibernated-careful image pod v dropped w c a =
      let (r, w') =
        call env env.done
          (snapshot_push v.name v.name m.hibernate_snapshot_tag image
            (m.read_snapshot_annotations pod))
          w in
      ground (
        arith,
        remove_hibernated-careful pod v dropped w,
        remove_hibernated-careful pod v dropped w',
        fail-seen pod v dropped (about "push hibernation snapshot " v.name missing) w',
        fail-seen pod v dropped (about "push hibernation snapshot " v.name (text_of r)) w',
      )

  save_hibernated-careful :
      (image : String) (pod : Pod) (v : Vm) (dropped : Bool) (w : World)
      → (seen m settings env id w).careful ≡ true
      → (seen m settings env id (save_hibernated m settings env image pod v dropped w).1).careful
        ≡ true
  unfolding save_hibernated call audit
  save_hibernated-careful image pod v dropped w c =
      let (r, w') = call env env.done (snapshot_save v.name v.id) w in
      ground (
        arith,
        push_hibernated-careful image pod v dropped w',
        fail-seen pod v dropped (about "save snapshot " v.name missing) w',
        fail-seen pod v dropped (about "save snapshot " v.name (text_of r)) w',
      )

  drop_and_save-careful :
      (image : String) (pod : Pod) (v : Vm) (drop : Bool) (w : World)
      → (seen m settings env id w).careful ≡ true
      → (seen m settings env id (drop_and_save m settings env image pod v drop w).1).careful ≡ true
  unfolding drop_and_save
  drop_and_save-careful image pod v false w c = save_hibernated-careful image pod v false w c
  drop_and_save-careful image pod v true w c =
      let (e, w') = drop_nic_for_hibernate m settings env v w in
      ground (
        arith,
        drop_nic-seen m settings env id v w,
        save_hibernated-careful image pod v true w',
        fail_hibernate-seen m settings env id pod (some_text e) w',
      )

  hibernate-careful_from :
      (pod : Pod) (spec : VmSpec) (v : Vm) (w : World)
      → (seen m settings env id w).careful ≡ true
      → (seen m settings env id (hibernate m settings env pod spec v w).1).careful ≡ true
  unfolding hibernate schedule_deferred_recheck call audit
  hibernate-careful_from pod spec v w c =
      let w1 : World = record w { tables = start_hibernate (key_of m pod) w.tables } in
      let (pod', w2) = mark_lifecycle_state m settings env pod LifecycleState.hibernating "" w1 in
      let drop = should_drop_nic_before_hibernate m spec in
      ground (
        arith,
        mark-quiet (audit settings env id) (audit-ignores settings env id) m settings env pod
            LifecycleState.hibernating "" w1,
        drop_and_save-careful spec.image pod' v drop w2,
      )

-- However the calls are answered and whatever other goroutines do, a hibernate sends the removal of
-- its VM only after a save of that VM has succeeded in the same run and, where a registry pusher is
-- configured, a push has too.
pub hibernate-careful :
    (m : Meta) (settings : Settings) (env : Env) (pod : Pod) (spec : VmSpec) (v : Vm) (t : Tables)
    → let w : World = record { tables = t; log = [] } in
      (audit settings env v.id (hibernate m settings env pod spec v w).1.log).careful ≡ true
hibernate-careful m settings env pod spec v t =
    hibernate-careful_from m settings env v.id pod spec v (record { tables = t; log = [] })
      (unfold audit in refl)
