-- ===== src/Provider/Resume.antt =====
-- provider/cocoon/resume.go: the work that a restart of the provider interrupted.
pub mod Owed
use vk_cocoon.Base.{
  Bool, true, false, not, ◌&&◌, Option, none, some, String, List, [], ◌∷◌, ◌==◌, is_empty, is_some,
  if◌then◌else◌,
}
use vk_cocoon.Base.Table.{Table, lookup, insert, delete, contains}
use vk_cocoon.Kube.{Pod, VmSpec, Meta}
use vk_cocoon.Vm.{Vm, is_macos_vm}
use vk_cocoon.Spec.{
  text_at, annotation_post_clone_state, lifecycle_creating, pending_snapshot_ref,
  should_drop_nic_before_hibernate, post_clone_needed, is_cloned_boot,
}
use vk_cocoon.Provider.State.{Tables}

pub data ResumeOp : Type 0 where
  hibernate post_clone ready_wait classify_nic snapshot : ResumeOp

pub data IpWait : Type 0 where
  clone wake boot : IpWait

-- The marker that a post-clone setup leaves in the pod's annotations.
pub data PostCloneMark : Type 0 where
  failed running done absent : PostCloneMark

unfoldable pub post_clone_mark : Pod → PostCloneMark
unfolding text_at
post_clone_mark pod =
    let state = text_at annotation_post_clone_state pod.annotations in
    if state == "failed"
    then failed
    else (if state == "running" then running else (if state == "done" then done else absent))

module _ (m : Meta) where
  -- The marker-less case: evidence decides for a guest whose NIC is dropped on hibernate.
  abbrev unmarked_op : VmSpec → Vm → ResumeOp
  unmarked_op spec v =
      if should_drop_nic_before_hibernate m spec
      then classify_nic
      else (if post_clone_needed m spec v then post_clone else ready_wait)

  abbrev marked_op : PostCloneMark → VmSpec → Vm → Option ResumeOp
  marked_op failed spec v = none
  marked_op running spec v = some post_clone
  marked_op done spec v = some ready_wait
  marked_op absent spec v = some (unmarked_op spec v)

  abbrev managed_op : Pod → VmSpec → Vm → Option ResumeOp
  managed_op pod spec v =
      if m.read_hibernate_state pod
      then some hibernate
      else if lifecycle_creating m pod
      then marked_op (post_clone_mark pod) spec v
      else (if is_empty (pending_snapshot_ref m pod) then none else some snapshot)

  abbrev live_op : Pod → Vm → Option ResumeOp
  live_op pod v =
      let spec = m.parse_vm_spec pod in
      if spec.managed
      then managed_op pod spec v
      else (if lifecycle_creating m pod then some ready_wait else none)

  unfoldable pub owed_op_for : Pod → Option Vm → Option ResumeOp
  owed_op_for pod none = none
  owed_op_for pod (some v) =
      if pod.is_terminating then none else (if is_macos_vm (some v) then none else live_op pod v)

  abbrev cons_owed : String → Option ResumeOp → List (String × ResumeOp) → List (String × ResumeOp)
  cons_owed key none work = work
  cons_owed key (some op) work = (key, op) ∷ work

  -- The rows that `dispatchOwedWork` collects.
  unfoldable pub owed_work : Table Pod → Table Vm → List (String × ResumeOp)
  owed_work [] vms = []
  owed_work ((key, pod) ∷ pods) vms =
      cons_owed key (owed_op_for pod (lookup key vms)) (owed_work pods vms)

unfoldable pub claim_resume : String → Tables → Tables × Bool
claim_resume key t =
    if contains key t.resumed_ops
    then (t, false)
    else (record t { resumed_ops = insert key tt t.resumed_ops }, true)

unfoldable pub release_resume : String → Tables → Tables
release_resume key t = record t { resumed_ops = delete key t.resumed_ops }

-- `backoffIfResuming`: `true` stands for the error.
unfoldable pub is_resuming : String → Tables → Bool
is_resuming key t = contains key t.resumed_ops

-- What the resumed goroutine runs.
pub data ResumeTask : Type 0 where
  run_hibernate run_snapshot run_post_clone mark_ready run_classify : ResumeTask
  run_ready_wait : IpWait → ResumeTask

module _ (m : Meta) where
  abbrev task_for : ResumeOp → Pod → ResumeTask
  task_for hibernate pod = run_hibernate
  task_for snapshot pod = run_snapshot
  task_for post_clone pod = run_post_clone
  task_for classify_nic pod = run_classify
  task_for ready_wait pod =
      let spec = m.parse_vm_spec pod in
      if spec.managed
      then run_ready_wait (if is_cloned_boot m pod spec then clone else boot)
      else mark_ready

  -- `dispatchResume`: nothing runs unless the claim is taken, which the goroutine releases.
  unfoldable pub dispatch_resume : String → Pod → ResumeOp → Tables → Tables × Option ResumeTask
  unfolding claim_resume
  dispatch_resume key pod op t =
      let (t', free) = claim_resume key t in (t', if free then some (task_for op pod) else none)
