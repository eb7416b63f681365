-- ===== src/Provider/State.antt =====
-- provider/cocoon/provider.go: the tables of `Provider` that `p.mu` guards, and its fixed settings.
-- A set of keys (`map[string]struct{}`) is a table of units.
use vk_cocoon.Base.{ℕ, String, Bool, []}
use vk_cocoon.Base.Table.{Table}
use vk_cocoon.Kube.{LifecycleStatus, Pod, Meta}
use vk_cocoon.Vm.{Vm, RestoreMode}

pub data OrphanPolicy : Type 0 where
  alert destroy keep : OrphanPolicy

pub data DeleteClaim : Type 0 where
  claimed in_flight superseded : DeleteClaim

-- `flushed` is the snapshot last written to the apiserver, "" if none.
pub record LifecycleEntry : Type 0 where
  pub uid : String
  pub status : LifecycleStatus
  pub flushed : String

pub record OpRetry : Type 0 where
  pub delay : ℕ
  pub due : ℕ

pub record Tables : Type 0 where
  pub pods : Table Pod
  pub vms_by_pod : Table Vm
  pub vms_by_name : Table Vm
  pub macos_vnc : Table ℕ
  pub last_restart : Table ℕ
  pub pending_recheck : Table (Unit {0})
  pub resumed_ops : Table (Unit {0})
  pub busy_creates : Table ℕ
  pub macos_leftover : Table String
  pub lifecycle_intent : Table LifecycleEntry
  pub deleting : Table (Unit {0})
  pub hibernating : Table Bool
  pub op_retries : Table OpRetry
  pub pod_locks : Table ℕ
  pub next_object : ℕ

-- The number that the next allocated object gets starts at 1: no object has the number 0.
unfoldable pub new_tables : Tables
new_tables = record {
  pods = [];
  vms_by_pod = [];
  vms_by_name = [];
  macos_vnc = [];
  last_restart = [];
  pending_recheck = [];
  resumed_ops = [];
  busy_creates = [];
  macos_leftover = [];
  lifecycle_intent = [];
  deleting = [];
  hibernating = [];
  op_retries = [];
  pod_locks = [];
  next_object = 1;
}

-- The settings that do not change after start; a nil client or helper is a `false` flag.
pub record Settings : Type 0 where
  pub node_name : String
  pub snapshot_compatibility_class : String
  pub orphan_policy : OrphanPolicy
  pub restore_mode : RestoreMode
  pub has_clientset : Bool
  pub has_puller : Bool
  pub has_pusher : Bool
  pub has_registry : Bool
  pub puller_has_registry : Bool
  pub peer_port : String
  pub has_peer_restorer : Bool
  pub has_lease_parser : Bool
  pub has_lease_releaser : Bool
  pub has_probes : Bool
  pub wake_fresh_ip_budget : ℕ  -- zero: the default of update.go
  pub wake_fresh_ip_interval : ℕ
  pub wake_renew_nudge_delay : ℕ
  pub boot_ip_budget : ℕ
  pub macos_vnc_password : String
  pub has_guest_sac : Bool  -- `GuestSAC` is not nil

abbrev pub key_of : Meta → Pod → String
key_of m pod = m.pod_key pod.namespace pod.name
