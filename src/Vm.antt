-- ===== src/Vm.antt =====
-- vm/runtime.go: the runtime view of a cocoon VM, and what a call of the cocoon CLI answers.
use vk_cocoon.Resources.{CpuPolicy}
use Prim.Native.String.{◌++◌ as append_text}
use vk_cocoon.Base.{
  ℕ, not, Bool, false, Option, none, some, String, List, [], ◌∷◌, ◌==◌, is_empty, if◌then◌else◌,
}

-- `Network` is nil for a DHCP network.
pub record NetworkInfo : Type 0 where
  pub ip : String
  pub gateway : String
  pub prefix : ℕ

pub record NetworkConfig : Type 0 where
  pub tap : String
  pub mac : String
  pub network : Option NetworkInfo

-- `object` is the number of the Go object behind the pointer.
pub record Vm : Type 0 where
  pub object : ℕ
  pub id : String
  pub name : String
  pub hypervisor : String
  pub state : String
  pub ip : String
  pub mac : String
  pub pid : ℕ
  pub disk_path : String
  pub network_configs : List NetworkConfig

pub record Snapshot : Type 0 where
  pub id : String
  pub name : String
  pub image : String
  pub image_digest : String
  pub hypervisor : String
  pub description : String

abbrev pub state_running : String
state_running = "running"

abbrev pub state_creating : String
state_creating = "creating"

abbrev pub state_created : String
state_created = "created"

pub data StaleCreateOutcome : Type 0 where
  collected busy not_creating not_found : StaleCreateOutcome

pub data RestoreMode : Type 0 where
  copy on_demand mmap : RestoreMode

-- `CloneOptions`; no `nics` is a nil pointer.
pub record CloneOptions : Type 0 where
  pub from : String
  pub to : String
  pub network : String
  pub backend : String
  pub no_direct_io : Bool
  pub pull : Bool
  pub restore_mode : RestoreMode
  pub cpu_policy : CpuPolicy
  pub from_dir : String
  pub nics : Option ℕ

-- `RunOptions`; a memory of zero is an empty argument.
pub record RunOptions : Type 0 where
  pub image : String
  pub name : String
  pub cpu : ℕ
  pub memory : ℕ
  pub network : String
  pub storage : String
  pub os : String
  pub backend : String
  pub no_direct_io : Bool
  pub cpu_policy : CpuPolicy

-- The answer of a fallible call: a value, the typed not-found error, or any other error.
pub data Reply {ℓ} (A : Type ℓ) : Type ℓ where
  ok : A → Reply A
  not_found : Reply A
  err : String → Reply A

abbrev pub macos_hypervisor : String
macos_hypervisor = "qemu"

abbrev pub backend_firecracker : String
backend_firecracker = "firecracker"

unfoldable pub is_macos_vm : Option Vm → Bool
is_macos_vm none = false
is_macos_vm (some v) = v.hypervisor == macos_hypervisor

abbrev pub has_ip : Option NetworkInfo → Bool
has_ip none = false
has_ip (some info) = not (is_empty info.ip)

unfoldable pub is_static_nic : NetworkConfig → Bool
is_static_nic nc = has_ip nc.network

-- provider/cocoon/macos.go: `macosVMRecord`, what `vm inspect` of a macOS guest says. `vnc` is the
-- number of the display; `none` is -1, which is off.
pub record MacosVmRecord : Type 0 where
  pub name : String
  pub pid : ℕ
  pub mac : String
  pub tap : String
  pub disk : String
  pub vnc : Option ℕ

abbrev tap_nic : String → String → List NetworkConfig → List NetworkConfig
tap_nic tap mac nics =
    if is_empty tap then nics else (record { tap = tap; mac = mac; network = none }) ∷ []

unfoldable pub apply_macos_record : Option MacosVmRecord → Vm → Vm
apply_macos_record none v = v
apply_macos_record (some rec) v = record v {
  pid = rec.pid;
  mac = rec.mac;
  disk_path = rec.disk;
  network_configs = tap_nic rec.tap rec.mac v.network_configs;
}

unfoldable pub macos_vm_id : String → String
macos_vm_id name = append_text "qemu-" name

-- A macOS guest about which no more than its name is known.
unfoldable pub macos_vm_named : ℕ → String → Vm
unfolding macos_vm_id
macos_vm_named object name = record {
  object = object;
  id = macos_vm_id name;
  name = name;
  hypervisor = macos_hypervisor;
  state = state_running;
  ip = "";
  mac = "";
  pid = 0;
  disk_path = "";
  network_configs = [];
}
