-- ===== src/Tests/Macos.antt =====
-- The theorems on macOS guests at sample values.
use vk_cocoon.Base.{◌≡◌, refl, true, none, some, [], ◌∷◌}
use vk_cocoon.Base.Table.{lookup}
use vk_cocoon.Vm.{ok}
use vk_cocoon.Provider.State.{Tables, Settings, new_tables}
use vk_cocoon.Provider.World.{Env, accepted}
use vk_cocoon.Provider.Macos.Vnc.{claim_macos_vnc_port, free_port, first_free, port_taken}
use vk_cocoon.Provider.Macos.Unique.{Claims, claim_macos_vnc_port-Claims}
use vk_cocoon.Provider.Macos.Launch.{redacted_args, validate_macos_vnc_password}
use vk_cocoon.Provider.Macos.Create.{create_macos_pod}
use vk_cocoon.Provider.Macos.Careful.{careful, create_macos_pod-careful}
use vk_cocoon.Tests.{sample_meta, sample_settings, pod_of, vm_of, env_of}

abbrev vnc_settings : Settings
vnc_settings = record sample_settings { macos_vnc_password = "secret" }

-- Two guests hold the first two ports.
abbrev crowded : Tables
crowded = record new_tables { macos_vnc = ("default/a", 5900) ∷ ("default/b", 5901) ∷ [] }

claim_macos_vnc_port-Claims_example :
    Claims vnc_settings "default/c" crowded
      (claim_macos_vnc_port vnc_settings "default/c" 5900 crowded)
claim_macos_vnc_port-Claims_example =
    claim_macos_vnc_port-Claims vnc_settings "default/c" 5900 crowded (unfold lookup in refl)

third_port : (claim_macos_vnc_port vnc_settings "default/c" 5900 crowded).1 ≡ 5902
unfolding claim_macos_vnc_port free_port first_free port_taken lookup
third_port = refl

password_hidden :
    redacted_args ("vm" ∷ "start" ∷ "--vnc-password" ∷ "secret" ∷ "vk-a" ∷ [])
    ≡ "vm" ∷ "start" ∷ "--vnc-password" ∷ "<redacted>" ∷ "vk-a" ∷ []
unfolding redacted_args
password_hidden = refl

password_refused : validate_macos_vnc_password "two words" ≡ validate_macos_vnc_password "a b"
unfolding validate_macos_vnc_password
password_refused = refl

-- A guest whose process is dead.
abbrev dead_guest : Env
dead_guest = record (env_of accepted (ok (vm_of "vm-1" "vk-a" "running")) (ok tt)) {
  macos_record = λ log.
      some (record { name = "vk-a"; pid = 7; mac = "aa:01"; tap = ""; disk = ""; vnc = none });
}

create_macos_pod-careful_example :
    careful dead_guest
      (create_macos_pod sample_meta vnc_settings dead_guest
        (pod_of "a" "u1" 1)
        (sample_meta.parse_vm_spec (pod_of "a" "u1" 1))
        (record { tables = crowded; log = [] })).1.log
    ≡ true
create_macos_pod-careful_example =
    create_macos_pod-careful sample_meta vnc_settings dead_guest (pod_of "a" "u1" 1)
      (sample_meta.parse_vm_spec (pod_of "a" "u1" 1)) crowded
