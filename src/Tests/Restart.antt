-- ===== src/Tests/Restart.antt =====
-- The theorem on the startup at sample values.
use vk_cocoon.Base.{◌≡◌, refl, [], ◌∷◌, inl}
use vk_cocoon.Base.Text.{equal_fold, trim_space}
use vk_cocoon.Kube.{Meta}
use vk_cocoon.Vm.{ok, not_found}
use vk_cocoon.Spec.{is_macos_spec}
use vk_cocoon.Provider.State.{Settings, OrphanPolicy, new_tables}
use vk_cocoon.Provider.World.{Env, accepted}
use vk_cocoon.Provider.Startup.{reconcile_pods}
use vk_cocoon.Provider.Startup.Untouched.{removed}
use vk_cocoon.Provider.Startup.Spares.{reconcile_pods-spares}
use vk_cocoon.Tests.{sample_meta, sample_settings, pod_of, vm_of, env_of}

abbrev vm_gone : Env
vm_gone = env_of accepted not_found (ok tt)

-- Every orphan is destroyed, and a pod of the node names the VM "vm-1".
abbrev destroying : Settings
destroying = record sample_settings { orphan_policy = OrphanPolicy.destroy }

abbrev naming_meta : Meta
naming_meta = record sample_meta { runtime_vm_id = λ pod. "vm-1" }

reconcile_pods-spares_example :
    removed "vm-1"
      (reconcile_pods naming_meta destroying vm_gone
        (pod_of "a" "u1" 1 ∷ [])
        (vm_of "vm-1" "vk-a" "running" ∷ vm_of "vm-2" "vk-b" "running" ∷ [])
        (record { tables = new_tables; log = [] })).1.log
    ≡ removed "vm-1" []
reconcile_pods-spares_example =
    reconcile_pods-spares naming_meta destroying vm_gone "vm-1" (pod_of "a" "u1" 1 ∷ [])
      (vm_of "vm-1" "vk-a" "running" ∷ vm_of "vm-2" "vk-b" "running" ∷ [])
      (record { tables = new_tables; log = [] }) refl
      (inl (unfold is_macos_spec equal_fold trim_space in refl, refl))
