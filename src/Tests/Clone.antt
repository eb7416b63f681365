-- ===== src/Tests/Clone.antt =====
-- The theorems on the setup after a clone, and on the watch of a busy create, at sample values.
use vk_cocoon.Base.{Option, false, ◌≡◌, refl, true, none, some, [], ◌∷◌, arith, is_some}
use vk_cocoon.Cli.{decimal}
use vk_cocoon.Vm.{Vm, NetworkConfig, is_static_nic}
use vk_cocoon.Provider.State.{new_tables}
use vk_cocoon.Provider.World.{Env, World, exec_failed}
use vk_cocoon.Provider.Resume.{IpWait}
use vk_cocoon.Provider.PostClone.{ip_wait_budget, ip_wait_interval}
use vk_cocoon.Provider.PostClone.Wait.{KeepsTime}
use vk_cocoon.Provider.PostClone.Sac.{apply_windows_static_ip}
use vk_cocoon.Provider.PostClone.Applies.{AppliesAddresses, apply_windows_static_ip-Applies}
use vk_cocoon.Provider.PostClone.Script.{build_networkd_file_cmd, concat, without_colons}
use vk_cocoon.Provider.PostClone.Setup.{run_post_clone_setup}
use vk_cocoon.Provider.PostClone.Ends.{run_post_clone_setup-ends}
use vk_cocoon.Provider.Stale.Watch.{run_busy_watch}
use vk_cocoon.Provider.Stale.Watched.{holds_channel, run_busy_watch-ends}
use vk_cocoon.Tests.{sample_meta, sample_settings, sample_spec, pod_of, vm_of}
use vk_cocoon.Tests.Pods.{slept, timed}

abbrev static_nic : NetworkConfig
static_nic = record {
  tap = "tap0";
  mac = "aa:bb:cc";
  network = some (record { ip = "10.0.0.5"; gateway = "10.0.0.1"; prefix = 24 });
}

abbrev static_vm : Vm
static_vm = record (vm_of "vm-1" "vk-a" "running") {
  network_configs = static_nic ∷ record static_nic { network = none } ∷ [];
}

abbrev start : World
start = record { tables = new_tables; log = [] }

networkd_file :
    build_networkd_file_cmd static_nic
    ≡ "printf '[Match]\\nMACAddress=aa:bb:cc\\n\\n[Network]\\nAddress=10.0.0.5/24\\nGateway=10.0.0.1\\n' > /etc/systemd/network/10-aabbcc.network"
unfolding build_networkd_file_cmd concat is_static_nic decimal without_colons
networkd_file = refl

-- The console lists two interfaces, the first with the address.
abbrev answering : Env
answering = record timed {
  net_rows = λ log. vk_cocoon.Vm.ok ((7, "10.0.0.5") ∷ (8, "0.0.0.0") ∷ []);
  done = λ log. vk_cocoon.Vm.ok tt;
  exec_end = λ log. exec_failed "no agent";
}

apply_windows_static_ip-Applies_example :
    AppliesAddresses sample_settings answering static_vm start
      (apply_windows_static_ip sample_meta sample_settings answering static_vm start)
apply_windows_static_ip-Applies_example =
    apply_windows_static_ip-Applies sample_meta sample_settings answering static_vm start

answering-KeepsTime : KeepsTime answering
unfolding slept
answering-KeepsTime = record { later = λ e log. ground arith; naps = λ n log h. ground arith }

-- The guest's agent never answers: 61 attempts, then the pod is marked failed.
run_post_clone_setup-ends_example :
    is_some
      (run_post_clone_setup sample_meta sample_settings answering
        (λ text. text)
        61
        227
        (pod_of "a" "u1" 2)
        sample_spec
        static_vm
        ""
        IpWait.wake
        start).0
    ≡ true
run_post_clone_setup-ends_example =
    run_post_clone_setup-ends sample_meta sample_settings answering (λ text. text) 60 225
      (pod_of "a" "u1" 2) sample_spec static_vm "" IpWait.wake start answering-KeepsTime
      (ground arith) (unfold ip_wait_budget ip_wait_interval in ground arith)

abbrev watched : Option (Unit {0}) × World
watched = run_busy_watch sample_meta sample_settings answering 1801 "vm-1" "vk-a" 3 start

-- 1800 sleeps of a second are the budget of the watch.
run_busy_watch-ends_example :
    (is_some watched.0 ≡ true) × (holds_channel "vk-a" 3 watched.1.tables ≡ false)
run_busy_watch-ends_example =
    run_busy_watch-ends sample_meta sample_settings answering 1800 "vm-1" "vk-a" 3 start
      answering-KeepsTime (omega arith)
