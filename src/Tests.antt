-- ===== src/Tests.antt =====
-- Sample pods, VMs, settings and answers on which the theorems are run. `sample_meta` writes a state
-- as the first annotation of the pod, and takes the number of node-selector rows for the generation.
pub mod Network
pub mod Restart
pub mod Macos
pub mod Lifecycle
pub mod Handlers
pub mod Parts
pub mod Startup
pub mod Pods
pub mod Keys
pub mod Clone
pub mod Commands
use Prim.Native.String.{◌++◌ as append_text}
use vk_cocoon.Base.{
  ℕ, zero, suc, ◌≡◌, refl, Bool, true, false, Option, none, some, String, List, [], ◌∷◌, ◌==◌,
  if◌then◌else◌,
}
use vk_cocoon.Base.Table.{Table}
use vk_cocoon.Kube.{
  LifecycleState, LifecycleStatus, Phase, PodStatus, Pod, VmSpec, Meta, StatusLaws,
}
use vk_cocoon.Vm.{Vm, Reply, ok, not_found, err, Snapshot, StaleCreateOutcome, RestoreMode}
use vk_cocoon.Provider.State.{Tables, Settings, OrphanPolicy, new_tables, LifecycleEntry}
use vk_cocoon.Provider.World.{Env, Effect, ApiReply, Manifest, World, exec_done}

abbrev rows : Table String → ℕ
rows [] = 0
rows (r ∷ rest) = suc (rows rest)

abbrev state_text : LifecycleState → String
state_text LifecycleState.unset = ""
state_text LifecycleState.creating = "Creating"
state_text LifecycleState.ready = "Ready"
state_text LifecycleState.hibernating = "Hibernating"
state_text LifecycleState.hibernated = "Hibernated"
state_text LifecycleState.failed = "Failed"
state_text LifecycleState.other = "Other"

abbrev read_state : String → LifecycleState
read_state s =
    if s == ""
    then LifecycleState.unset
    else if s == "Creating"
    then LifecycleState.creating
    else if s == "Ready"
    then LifecycleState.ready
    else if s == "Hibernating"
    then LifecycleState.hibernating
    else if s == "Hibernated"
    then LifecycleState.hibernated
    else if s == "Failed"
    then LifecycleState.failed
    else LifecycleState.other

abbrev first_state : Table String → LifecycleState
first_state [] = LifecycleState.unset
first_state ((k, v) ∷ rest) = read_state v

abbrev write_state : LifecycleState → Pod → Pod
write_state s p = record p { annotations = ("state", state_text s) ∷ p.annotations }

abbrev pub sample_spec : VmSpec
sample_spec = record {
  vm_name = "vk-a";
  managed = true;
  mode = "clone";
  os = "linux";
  backend = "cloud-hypervisor";
  image = "img";
  network = "";
  storage = "";
  fork_from = "";
  force_pull = false;
  no_direct_io = false;
}

abbrev pub sample_meta : Meta
sample_meta = record {
  pod_key = λ ns name. append_text ns (append_text "/" name);
  parse_vm_spec = λ p. sample_spec;
  runtime_vm_id = λ p. "";
  runtime_ip = λ p. "";
  read_lifecycle_state = λ p. first_state p.annotations;
  read_lifecycle_status =
      λ p. record { state = first_state p.annotations; observed_generation = 0; message = "" };
  read_generation = λ p. rows p.node_selector;
  apply_status = λ s p. write_state s.state p;
  status_snapshot = λ s. state_text s.state;
  status_annotations = λ s. ("state", some (state_text s.state)) ∷ [];
  parse_quantity = λ s. none;
  apply_runtime = λ id ip port p. p;
  runtime_vnc_port = λ p. 0;
  read_hibernate_state = λ p. false;
  read_restore_from_hibernate = λ p. false;
  mark_restore_from_hibernate = λ p. p;
  read_keep_snapshot_on_delete = λ p. false;
  mark_keep_snapshot_on_delete = λ p. p;
  should_snapshot_vm = λ spec p. true;
  read_snapshot_annotations = λ p. p.annotations;
  snapshot_status_ref = λ p. "";
  snapshot_annotations = λ ref pushed message. ("snapshot", some ref) ∷ [];
  annotation_snapshot_request = "snapshot-request";
  annotation_clone_from_dir = "clone-from-dir";
  annotation_vm_id = "vm-id";
  annotation_ip = "ip";
  annotation_probe_port = "probe-port";
  annotation_vnc_port = "vnc-port";
  label_snapshot_compatibility_class = "class";
  hibernate_snapshot_tag = "hibernate";
  default_snapshot_tag = "latest";
  hibernate_import_suffix = "-import";
  os_windows = "windows";
  os_macos = "macos";
  backend_cloud_hypervisor = "cloud-hypervisor";
  agent_mode_run = "run";
  parse_ref = λ ref. (ref, "latest");
  sha256_hex = λ text. "0123456789abcdef";
  clean_path = λ path. path;
}

read_state-state_text : (s : LifecycleState) → read_state (state_text s) ≡ s
read_state-state_text LifecycleState.unset = refl
read_state-state_text LifecycleState.creating = refl
read_state-state_text LifecycleState.ready = refl
read_state-state_text LifecycleState.hibernating = refl
read_state-state_text LifecycleState.hibernated = refl
read_state-state_text LifecycleState.failed = refl
read_state-state_text LifecycleState.other = refl

pub sample_laws : StatusLaws sample_meta
sample_laws = record {
  apply_uid = λ s p. refl;
  apply_namespace = λ s p. refl;
  apply_name = λ s p. refl;
  apply_generation = λ s p. refl;
  apply_state = λ s p. read_state-state_text s.state;
  mark_uid = λ p. refl;
}

abbrev pub sample_settings : Settings
sample_settings = record {
  node_name = "node-1";
  snapshot_compatibility_class = "gold";
  orphan_policy = OrphanPolicy.alert;
  restore_mode = RestoreMode.copy;
  has_clientset = true;
  has_puller = true;
  has_pusher = true;
  has_registry = true;
  puller_has_registry = true;
  peer_port = "";
  has_peer_restorer = false;
  has_lease_parser = true;
  has_lease_releaser = true;
  has_probes = true;
  wake_fresh_ip_budget = 0;
  wake_fresh_ip_interval = 0;
  wake_renew_nudge_delay = 0;
  boot_ip_budget = 0;
  macos_vnc_password = "";
  has_guest_sac = true;
}

-- A pod "default/<name>" of incarnation `uid` at generation `g`.
abbrev selector : ℕ → Table String
selector zero = []
selector (suc n) = ("class", "gold") ∷ selector n

abbrev pub pod_of : String → String → ℕ → Pod
pod_of name uid g = record {
  object = 7;
  namespace = "default";
  name = name;
  uid = uid;
  annotations = [];
  node_selector = selector g;
  is_terminating = false;
  status = record {
    phase = Phase.pending;
    pod_ip = "";
    started = false;
    conditions = [];
    container_statuses = [];
  };
  resources = none;
}

abbrev pub vm_of : String → String → String → Vm
vm_of id name state = record {
  object = 9;
  id = id;
  name = name;
  hypervisor = "cloud-hypervisor";
  state = state;
  ip = "10.0.0.2";
  mac = "aa:bb";
  pid = 42;
  disk_path = "";
  network_configs = [];
}

abbrev pub entry_of : String → LifecycleState → ℕ → LifecycleEntry
entry_of uid state g = record {
  uid = uid;
  status = record { state = state; observed_generation = g; message = "" };
  flushed = "";
}

-- One tracked pod "default/a" of incarnation "u1", its VM and its intent.
abbrev pub tables_with : Pod → Vm → LifecycleEntry → Tables
tables_with pod v e = record new_tables {
  pods = ("default/a", pod) ∷ [];
  vms_by_pod = ("default/a", v) ∷ [];
  vms_by_name = (v.name, v) ∷ [];
  lifecycle_intent = ("default/a", e) ∷ [];
}

abbrev pub world_of : Tables → World
world_of t = record { tables = t; log = [] }

-- No other goroutine runs; the apiserver answers `api`, an inspect `seen`, every other call `reply`.
abbrev pub env_of : ApiReply → Reply Vm → Reply (Unit {0}) → Env
env_of api seen reply = record {
  others = λ log t. t;
  clock = λ log. 100_000_000_000;
  awake = λ log. true;
  api = λ log. api;
  done = λ log. reply;
  vm = λ log. seen;
  snapshot = λ log. not_found;
  snapshots = λ log. ok [];
  peer = λ log. not_found;
  node_ip = λ log. not_found;
  image_kind = λ log. none;
  manifest = λ log. not_found;
  config_id = λ log. not_found;
  outcome = λ log. ok StaleCreateOutcome.collected;
  lease_ip = λ log. ok "10.0.0.3";
  macos_record = λ log. none;
  macos_alive = λ log. false;
  net_rows = λ log. ok ((7, "10.0.0.5") ∷ []);
  exec_end = λ log. exec_done;
  has_overlay = λ log. false;
  macos_missing = λ log. false;
  node_pods = λ log. ok [];
  local_vms = λ log. ok [];
  reachable = λ log. true;
  probe_seen = λ log. false;
  probe = λ log. (true, "");
}
