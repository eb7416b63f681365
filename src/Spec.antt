-- ===== src/Spec.antt =====
-- What the provider reads off a pod and its VM spec (provider/cocoon: resume.go, create.go, update.go,
-- postclone.go, macos.go).
use vk_cocoon.Base.{
  Bool, true, false, not, ◌&&◌, ◌||◌, Option, none, some, String, ◌==◌, is_empty, if◌then◌else◌,
}
use vk_cocoon.Base.Seq.{exists}
use vk_cocoon.Base.Table.{Table, lookup}
use vk_cocoon.Base.Text.{codes, trim_space, lower_all, same_codes, equal_fold}
use vk_cocoon.Kube.{Pod, VmSpec, Meta, LifecycleState, creating, unset}
use vk_cocoon.Vm.{Vm, is_static_nic, backend_firecracker}

abbrev text_or_empty : Option String → String
text_or_empty none = ""
text_or_empty (some s) = s

-- A read of a Go map of texts: "" for a missing key.
unfoldable pub text_at : String → Table String → String
text_at k m = text_or_empty (lookup k m)

abbrev pub annotation_post_clone_state : String
annotation_post_clone_state = "vm.cocoonstack.io/post-clone-state"

abbrev pub is_unsettled : LifecycleState → Bool
is_unsettled creating = true
is_unsettled unset = true
is_unsettled _ = false

module _ (m : Meta) where
  -- `lifecycleCreating`.
  unfoldable pub lifecycle_creating : Pod → Bool
  lifecycle_creating pod = is_unsettled (m.read_lifecycle_state pod)

  unfoldable pub pending_snapshot_ref : Pod → String
  unfolding text_at
  pending_snapshot_ref pod =
      let ref = text_at m.annotation_snapshot_request pod.annotations in
      if is_empty ref || m.snapshot_status_ref pod == ref then "" else ref

  unfoldable pub should_drop_nic_before_hibernate : VmSpec → Bool
  should_drop_nic_before_hibernate spec =
      spec.backend == m.backend_cloud_hypervisor && spec.os == m.os_windows

  unfoldable pub post_clone_needed : VmSpec → Vm → Bool
  post_clone_needed spec v =
      spec.os == m.os_windows
      || spec.backend == backend_firecracker
      || exists is_static_nic v.network_configs

  unfoldable pub is_macos_spec : VmSpec → Bool
  is_macos_spec spec = spec.managed && equal_fold (codes (trim_space spec.os)) (codes m.os_macos)

  unfoldable pub has_explicit_clone_source : Pod → VmSpec → Bool
  unfolding text_at
  has_explicit_clone_source pod spec =
      not (is_empty (trim_space (text_at m.annotation_clone_from_dir pod.annotations)))
      || not (is_empty spec.fork_from)

  unfoldable pub is_cloned_boot : Pod → VmSpec → Bool
  unfolding has_explicit_clone_source
  is_cloned_boot pod spec =
      spec.managed
      && (has_explicit_clone_source pod spec
          || not (same_codes (lower_all (codes spec.mode)) (codes m.agent_mode_run)))
