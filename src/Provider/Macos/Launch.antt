-- ===== src/Provider/Macos/Launch.antt =====
-- provider/cocoon/macos.go: what the provider asks of the cocoon-macos CLI.
use Prim.Native.String.{len}
use vk_cocoon.Base.{
  ℕ, zero, suc, ◌+◌, ◌-◌, ◌/◌, ◌%◌, ◌^◌, Bool, true, false, not, ◌&&◌, ◌||◌, Option, none, some,
  String, List, [], ◌∷◌, ◌++◌, ◌==◌, leb, ltb, nat_eq, is_empty, if◌then◌else◌,
}
use vk_cocoon.Base.Seq.{exists}
use vk_cocoon.Base.Text.{codes}
use vk_cocoon.Resources.{Resources, select_quantity, vm_resource_overrides}
use vk_cocoon.Kube.{Pod, VmSpec, Meta}
use vk_cocoon.Vm.{Reply, ok, not_found, err, MacosVmRecord}
use vk_cocoon.Cli.{decimal, normalize_size_arg}
use vk_cocoon.Provider.State.{Settings}
use vk_cocoon.Provider.Macos.Vnc.{macos_vnc_port_base}
use vk_cocoon.Provider.World.{
  Env, Io, process_alive, macos_start, macos_image_inspect, macos_image_pull, ◌>>=◌, pure, call,
}

-- Go's `unicode.IsControl` and `unicode.IsSpace`.
abbrev is_control : ℕ → Bool
is_control c = ltb c 32 || leb 127 c && leb c 159

abbrev is_wide_space : ℕ → Bool
is_wide_space c =
    nat_eq c 5760
    || leb 8192 c && leb c 8202
    || nat_eq c 8232
    || nat_eq c 8233
    || nat_eq c 8239
    || nat_eq c 8287
    || nat_eq c 12288

abbrev is_white : ℕ → Bool
is_white c = leb 9 c && leb c 13 || nat_eq c 32 || nat_eq c 133 || nat_eq c 160 || is_wide_space c

abbrev refused_in_password : ℕ → Bool
refused_in_password c = is_control c || is_white c || nat_eq c 34

abbrev pub max_vnc_password_bytes : ℕ
max_vnc_password_bytes = 8

-- `ValidateMacosVNCPassword`: `false` is its error.
unfoldable pub validate_macos_vnc_password : String → Bool
unfolding exists
validate_macos_vnc_password pw =
    is_empty pw
    || leb (len pw) max_vnc_password_bytes && not (exists refused_in_password (codes pw))

-- `appendMacosVNCArgs`; `none` is its error.
unfoldable pub append_macos_vnc_args : Settings → List String → ℕ → Option (List String)
append_macos_vnc_args settings args port =
    if nat_eq port 0 || is_empty settings.macos_vnc_password
    then some args
    else if validate_macos_vnc_password settings.macos_vnc_password
    then some (
        args
        ++ ("--vnc"
            ∷ decimal (port - macos_vnc_port_base)
            ∷ "--vnc-password"
            ∷ settings.macos_vnc_password
            ∷ []))
    else none

abbrev or_default : ℕ → ℕ
or_default zero = 4
or_default (suc n) = suc n

-- `macosCPUs`: an even number.
unfoldable pub macos_cpus : Pod → ℕ
macos_cpus pod = let cpus = or_default (vm_resource_overrides pod.resources).0 in cpus + cpus % 2

-- `macosMemMB`; a quantity is a milli-value, which Go rounds up to whole bytes.
abbrev or_default_memory : ℕ → ℕ
or_default_memory zero = 8192
or_default_memory (suc n) = suc n

unfoldable pub macos_mem_mb : Option Resources → ℕ
macos_mem_mb none = 8192
macos_mem_mb (some r) =
    or_default_memory ((select_quantity r.requests r.limits "memory" + 999) / 1000 / 2 ^ 20)

abbrev storage_args : String → List String
storage_args storage = if is_empty storage then [] else "--storage" ∷ storage ∷ []

-- The arguments of `vm run`; `none` where the VNC password is refused.
unfoldable pub macos_run_args : Meta → Settings → Pod → VmSpec → ℕ → Option (List String)
macos_run_args m settings pod spec port =
    elim (append_macos_vnc_args settings
      ("vm"
        ∷ "run"
        ∷ "--name"
        ∷ spec.vm_name
        ∷ "--cpus"
        ∷ decimal (macos_cpus pod)
        ∷ "--memory"
        ∷ decimal (macos_mem_mb pod.resources)
        ∷ [])
      port) [
        | none ↦ none
        | some args ↦ some (
            args
            ++ (storage_args (normalize_size_arg m.parse_quantity spec.storage)
                ++ ("--exit-on-reboot" ∷ "--random-smbios" ∷ "--net" ∷ "cni" ∷ spec.image ∷ [])))
      ]

-- `formatMacosArgsForLog`, before the words are joined: the word after `--vnc-password` is hidden, and
-- a hidden word hides nothing.
abbrev pub redact_from : Bool → List String → List String
redact_from hide [] = []
redact_from hide (arg ∷ rest) =
    let shown = if hide then "<redacted>" else arg in
    shown ∷ redact_from (shown == "--vnc-password") rest

unfoldable pub redacted_args : List String → List String
redacted_args args = redact_from false args

module _ (settings : Settings) (env : Env) where
  -- `macosProcessAlive`: there is no process 0.
  unfoldable pub macos_process_alive : ℕ → Io Bool
  macos_process_alive zero = pure false
  macos_process_alive (suc pid) = call env env.macos_alive (process_alive (suc pid))

  abbrev pub record_alive : Option MacosVmRecord → Io Bool
  record_alive none = pure false
  record_alive (some rec) = macos_process_alive rec.pid

  -- `startMacosVM`: the display is asserted anew.
  abbrev pub start_with : Option (List String) → String → Io (Reply (Unit {0}))
  start_with none name = pure (err "COCOON_MACOS_VNC_PASSWORD")
  start_with (some args) name = call env env.done (macos_start name args)

  unfoldable pub start_macos_vm : String → ℕ → Io (Reply (Unit {0}))
  start_macos_vm name port =
      start_with (append_macos_vnc_args settings ("vm" ∷ "start" ∷ []) port) name

  abbrev is_present : Reply (Unit {0}) → Bool
  is_present (ok _) = true
  is_present _ = false

  unfoldable pub macos_image_present : String → Io Bool
  macos_image_present image = do
    r ← call env env.done (macos_image_inspect image)
    pure (is_present r)

  abbrev pub after_pull : Reply (Unit {0}) → String → Io (Option String)
  after_pull not_found image = pure (some "pull failed")
  after_pull (err e) image = pure (some e)
  after_pull (ok _) image = do
    present ← macos_image_present image
    pure (if present then none else some "absent after pull")

  -- `ensureMacosImage`; the result is the error, if any.
  unfoldable pub ensure_macos_image : String → Io (Option String)
  ensure_macos_image image = do
    present ← macos_image_present image
    elim present [
      | true ↦ pure none
      | false ↦ do r ← call env env.done (macos_image_pull image); after_pull r image
    ]
