-- ===== src/Provider/Resume/Owed.antt =====
-- Which interrupted step a pod owes, stated by rules (resume.go, owedOpFor).
use vk_cocoon.Base.{◌≡◌, ◌↔◌, true, false, some, arith, is_empty}
use vk_cocoon.Kube.{Pod, VmSpec, Meta}
use vk_cocoon.Vm.{Vm, is_macos_vm}
use vk_cocoon.Spec.{
  lifecycle_creating, pending_snapshot_ref, should_drop_nic_before_hibernate, post_clone_needed,
}
use vk_cocoon.Provider.Resume.{
  ResumeOp, PostCloneMark, post_clone_mark, owed_op_for, running, done, absent,
}

module _ (m : Meta) (pod : Pod) (v : Vm) where
  abbrev spec : VmSpec
  spec = m.parse_vm_spec pod

  -- A live pod whose managed guest is still being brought up, with the marker `mark`.
  pub record BringUp (mark : PostCloneMark) : Type 0 where
    pub managed : spec.managed ≡ true
    pub awake : m.read_hibernate_state pod ≡ false
    pub unsettled : lifecycle_creating m pod ≡ true
    pub marked : post_clone_mark pod ≡ mark

  pub data Rule : ResumeOp → Type 0 where
    unmanaged : spec.managed ≡ false → lifecycle_creating m pod ≡ true → Rule ResumeOp.ready_wait
    hibernating : spec.managed ≡ true → m.read_hibernate_state pod ≡ true → Rule ResumeOp.hibernate
    snapshotting :
        spec.managed ≡ true
        → m.read_hibernate_state pod ≡ false
        → lifecycle_creating m pod ≡ false
        → is_empty (pending_snapshot_ref m pod) ≡ false
        → Rule ResumeOp.snapshot
    set_up : BringUp running → Rule ResumeOp.post_clone
    set_up_done : BringUp done → Rule ResumeOp.ready_wait
    nic_dropped :
        BringUp absent → should_drop_nic_before_hibernate m spec ≡ true → Rule ResumeOp.classify_nic
    not_set_up :
        BringUp absent
        → should_drop_nic_before_hibernate m spec ≡ false
        → post_clone_needed m spec v ≡ true
        → Rule ResumeOp.post_clone
    no_set_up :
        BringUp absent
        → should_drop_nic_before_hibernate m spec ≡ false
        → post_clone_needed m spec v ≡ false
        → Rule ResumeOp.ready_wait

  -- The pod owes `op`: it is live, its guest is no macOS guest, and a rule gives `op`.
  pub record Owes (op : ResumeOp) : Type 0 where
    pub live : pod.is_terminating ≡ false
    pub cloud : is_macos_vm (some v) ≡ false
    pub rule : Rule op

  sound : (op : ResumeOp) → owed_op_for m pod (some v) ≡ some op → Owes op
  unfolding owed_op_for
  sound op h = grind (
    arith, unmanaged, hibernating, snapshotting, set_up, set_up_done, nic_dropped, not_set_up,
    no_set_up,
  )

  complete :
      (op : ResumeOp)
      → pod.is_terminating ≡ false
      → is_macos_vm (some v) ≡ false
      → Rule op
      → owed_op_for m pod (some v) ≡ some op
  unfolding owed_op_for
  complete op live cloud (unmanaged a b) = ground arith
  complete op live cloud (hibernating a b) = ground arith
  complete op live cloud (snapshotting a b c d) = ground arith
  complete op live cloud (set_up b) = ground arith
  complete op live cloud (set_up_done b) = ground arith
  complete op live cloud (nic_dropped b d) = ground arith
  complete op live cloud (not_set_up b d n) = ground arith
  complete op live cloud (no_set_up b d n) = ground arith

  -- A pod with a VM is owed exactly the step that the rules give; with no rule it is owed none.
  pub owed_op_for-Owes : (op : ResumeOp) → (owed_op_for m pod (some v) ≡ some op) ↔ Owes op
  owed_op_for-Owes op = (sound op, λ o. complete op o.live o.cloud o.rule)
