-- ===== src/Kube.antt =====
-- The objects that the provider shares with Kubernetes and with the cocoon-common packages, with the
-- fields that the source reads. A Go pointer is a value that carries the number of its object, so
-- that a test of two pointers (provider/cocoon/lifecycle.go, provider.go) is a test of numbers.
use vk_cocoon.Resources.{Resources}
use vk_cocoon.Base.{Option, ℕ, ◌≡◌, Bool, true, false, String, List}
use vk_cocoon.Base.Table.{Table}

-- The lifecycle states that the source names; any other text is `other`, and "" is `unset`.
pub data LifecycleState : Type 0 where
  unset creating ready hibernating hibernated failed other : LifecycleState

abbrev pub is_failed : LifecycleState → Bool
is_failed LifecycleState.failed = true
is_failed _ = false

abbrev pub is_ready : LifecycleState → Bool
is_ready LifecycleState.ready = true
is_ready _ = false

pub record LifecycleStatus : Type 0 where
  pub state : LifecycleState
  pub observed_generation : ℕ
  pub message : String

pub data Phase : Type 0 where
  pending running succeeded failed unknown : Phase

pub data ConditionStatus : Type 0 where
  holds fails : ConditionStatus

pub data ConditionType : Type 0 where
  pod_ready initialized other_condition : ConditionType

pub record Condition : Type 0 where
  pub kind : ConditionType
  pub status : ConditionStatus
  pub message : String

-- `corev1.ContainerStatus`: whether each of the three states is set.
pub record ContainerStatus : Type 0 where
  pub name : String
  pub ready : Bool
  pub is_running : Bool
  pub is_waiting : Bool
  pub is_terminated : Bool

pub record PodStatus : Type 0 where
  pub phase : Phase
  pub pod_ip : String
  pub started : Bool
  pub conditions : List Condition
  pub container_statuses : List ContainerStatus

pub record Pod : Type 0 where
  pub object : ℕ
  pub namespace : String
  pub name : String
  pub uid : String
  pub annotations : Table String
  pub node_selector : Table String
  pub is_terminating : Bool  -- DeletionTimestamp is set
  pub status : PodStatus
  pub resources : Option Resources  -- of the first container

-- `meta.VMSpec`, as far as the source reads it.
pub record VmSpec : Type 0 where
  pub vm_name : String
  pub managed : Bool
  pub mode : String
  pub os : String
  pub backend : String
  pub image : String
  pub network : String
  pub storage : String
  pub fork_from : String
  pub force_pull : Bool
  pub no_direct_io : Bool

-- The functions and constants of cocoon-common's `meta` and `apis/v1` packages that the source uses.
pub record Meta : Type 0 where
  pub pod_key : String → String → String
  pub parse_vm_spec : Pod → VmSpec
  pub runtime_vm_id : Pod → String
  pub runtime_ip : Pod → String
  pub read_lifecycle_state : Pod → LifecycleState
  pub read_lifecycle_status : Pod → LifecycleStatus
  pub read_generation : Pod → ℕ
  pub apply_status : LifecycleStatus → Pod → Pod
  pub status_snapshot : LifecycleStatus → String
  pub status_annotations : LifecycleStatus → Table (Option String)
  pub apply_runtime : String → String → ℕ → Pod → Pod  -- VM id, address, VNC port
  pub runtime_vnc_port : Pod → ℕ
  pub read_hibernate_state : Pod → Bool
  pub read_restore_from_hibernate : Pod → Bool
  pub mark_restore_from_hibernate : Pod → Pod
  pub read_keep_snapshot_on_delete : Pod → Bool
  pub mark_keep_snapshot_on_delete : Pod → Pod
  pub should_snapshot_vm : VmSpec → Pod → Bool
  -- `ReadSnapshotAnnotations`, empty on an error.
  pub read_snapshot_annotations : Pod → Table String
  pub snapshot_status_ref : Pod → String
  -- `SnapshotStatus.Annotations`: the reference, whether it was pushed, and the message.
  pub snapshot_annotations : String → Bool → String → Table (Option String)
  pub annotation_snapshot_request : String
  pub annotation_clone_from_dir : String
  pub annotation_vm_id : String
  pub annotation_ip : String
  pub annotation_probe_port : String
  pub annotation_vnc_port : String
  pub label_snapshot_compatibility_class : String
  pub hibernate_snapshot_tag : String
  pub default_snapshot_tag : String
  pub hibernate_import_suffix : String
  pub os_windows : String
  pub os_macos : String
  pub backend_cloud_hypervisor : String
  pub agent_mode_run : String
  pub parse_ref : String → String × String  -- `ociutil.ParseRef`: repository and tag
  pub parse_quantity : String → Option ℕ  -- `resource.ParseQuantity`, in milli-units
  pub sha256_hex : String → String
  pub clean_path : String → String  -- Go's `filepath.Clean`

-- What the lifecycle theorems use of `meta`: writing a status to a pod keeps the pod's identity and
-- its generation, and a status is read back as it was written; so does the keep-snapshot mark.
pub record StatusLaws (m : Meta) : Type 0 where
  pub apply_uid : (s : LifecycleStatus) (p : Pod) → (m.apply_status s p).uid ≡ p.uid
  pub apply_namespace :
      (s : LifecycleStatus) (p : Pod) → (m.apply_status s p).namespace ≡ p.namespace
  pub apply_name : (s : LifecycleStatus) (p : Pod) → (m.apply_status s p).name ≡ p.name
  pub apply_generation :
      (s : LifecycleStatus) (p : Pod) → m.read_generation (m.apply_status s p) ≡ m.read_generation p
  pub apply_state :
      (s : LifecycleStatus) (p : Pod) → m.read_lifecycle_state (m.apply_status s p) ≡ s.state
  pub mark_uid : (p : Pod) → (m.mark_keep_snapshot_on_delete p).uid ≡ p.uid
