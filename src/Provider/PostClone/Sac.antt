-- ===== src/Provider/PostClone/Sac.antt =====
-- provider/cocoon/postclone.go: the static addresses of a Windows guest, set over its serial console.
use Prim.Native.String.{◌++◌ as append_text}
use vk_cocoon.Base.{
  ℕ, zero, suc, ◌*◌, Bool, true, false, ◌&&◌, Option, none, some, String, List, [], ◌∷◌, leb,
  second,
}
use vk_cocoon.Base.Seq.{length, exists}
use vk_cocoon.Resources.{prefix_to_subnet}
use vk_cocoon.Cli.{decimal}
use vk_cocoon.Guest.{NetRow, parse_net_entries, net_has_ip}
use vk_cocoon.Kube.{Pod, Meta, LifecycleState}
use vk_cocoon.Vm.{Vm, NetworkConfig, NetworkInfo, Reply, ok, not_found, err, is_static_nic}
use vk_cocoon.Provider.State.{Settings}
use vk_cocoon.Provider.Flush.{mark_lifecycle_state}
use vk_cocoon.Provider.Runtime.{truncate, lifecycle_message_max_bytes}
use vk_cocoon.Provider.PostClone.Markers.{mark_post_clone_state}
use vk_cocoon.Provider.World.{Env, Io, sac_dial, sac_run, sleep, ◌>>=◌, ◌>>◌, pure, call}

abbrev pub sac_enum_retries : ℕ
sac_enum_retries = 60

abbrev pub sac_ip_set_retries : ℕ
sac_ip_set_retries = 10

abbrev pub sac_retry_interval : ℕ
sac_retry_interval = 2 * second

-- How `applyWindowsStaticIP` ends: it did not run, it ran to its end or to an error, or an index was
-- out of range.
pub data SacEnd : Type 0 where
  skipped configured panicked : SacEnd
  failed : String → SacEnd

abbrev pub listing : List String
listing = "i" ∷ []

abbrev pub dotted : ℕ × ℕ × ℕ × ℕ → String
dotted (a, b, c, d) = append_text (decimal a) (
    append_text "." (
      append_text (decimal b)
        (append_text "." (append_text (decimal c) (append_text "." (decimal d))))))

-- The command that sets an address.
unfoldable pub set_command : ℕ → NetworkInfo → List String
set_command num info =
    "i" ∷ decimal num ∷ info.ip ∷ dotted (prefix_to_subnet info.prefix) ∷ info.gateway ∷ []

abbrev pub found_of : Reply (List NetRow) → List ℕ → List ℕ
found_of (ok rows) found = parse_net_entries rows
found_of not_found found = found
found_of (err e) found = found

abbrev pub lists : Reply (List NetRow) → ℕ → Bool
lists (ok rows) want = leb want (length (parse_net_entries rows))
lists not_found want = false
lists (err e) want = false

abbrev pub shows : Reply (List NetRow) → ℕ → String → Bool
shows (ok rows) num ip = net_has_ip rows num ip
shows not_found num ip = false
shows (err e) num ip = false

abbrev pub is_ok : Reply (Unit {0}) → Bool
is_ok (ok _) = true
is_ok not_found = false
is_ok (err e) = false

module _ (settings : Settings) where
  -- `sacStaticIPNeeded`.
  unfoldable pub sac_static_ip_needed : Vm → Bool
  sac_static_ip_needed v = settings.has_guest_sac && exists is_static_nic v.network_configs

module _ (m : Meta) (settings : Settings) (env : Env) (id : String) where
  -- The loop of `sacEnumerateNICs`, with the number of tries left and the numbers found so far.
  unfoldable pub sac_enumerate_nics : ℕ → ℕ → List ℕ → Io (Reply (List ℕ))
  sac_enumerate_nics zero want found = pure (ok found)
  sac_enumerate_nics (suc n) want found = do
    r ← call env env.net_rows (sac_run id listing)
    elim (lists r want) [
      | true ↦ pure (ok (found_of r found))
      | false ↦ elim n [
        | zero ↦ pure (err "sac enum exhausted")
        | suc _ ↦ do
          slept ← call env env.awake (sleep sac_retry_interval)
          elim slept [
            | true ↦ sac_enumerate_nics n want (found_of r found)
            | false ↦ pure (err "context canceled")
          ]
      ]
    ]

  -- The loop of `sacSetNICIP`, with the number of tries left; `none` is success.
  unfoldable pub sac_set_nic_ip : ℕ → ℕ → NetworkInfo → Io (Option String)
  sac_set_nic_ip zero num info = pure none
  sac_set_nic_ip (suc n) num info = do
    given ← call env env.done (sac_run id (set_command num info))
    elim (is_ok given) [
      | false ↦ pure (some "sac set ip")
      | true ↦ do
        r ← call env env.net_rows (sac_run id listing)
        elim (shows r num info.ip) [
          | true ↦ pure none
          | false ↦ elim n [
            | zero ↦ pure (some "sac verify exhausted")
            | suc _ ↦ do
              slept ← call env env.awake (sleep sac_retry_interval)
              elim slept [
                | true ↦ sac_set_nic_ip n num info
                | false ↦ pure (some "context canceled")
              ]
          ]
        ]
    ]

  abbrev pub set_info : ℕ → Option NetworkInfo → Io (Option String)
  set_info num none = pure none
  set_info num (some info) = sac_set_nic_ip sac_ip_set_retries num info

  abbrev pub after_set : Option String → Io SacEnd → Io SacEnd
  after_set none rest = rest
  after_set (some e) rest = pure (failed e)

  abbrev pub set_if_static : Bool → ℕ → NetworkConfig → Io SacEnd → Io SacEnd
  set_if_static false num nc rest = rest
  set_if_static true num nc rest = do e ← set_info num nc.network; after_set e rest

  -- The loop over the NICs; the numbers are read at the NIC's place.
  unfoldable pub set_nics : List ℕ → List NetworkConfig → Io SacEnd
  set_nics nums [] = pure configured
  set_nics [] (nc ∷ rest) = elim (is_static_nic nc) [
    | true ↦ pure panicked
    | false ↦ set_nics [] rest
  ]
  set_nics (num ∷ nums) (nc ∷ rest) = set_if_static (is_static_nic nc) num nc (set_nics nums rest)

  abbrev pub set_listed : Reply (List ℕ) → List NetworkConfig → Io SacEnd
  set_listed (ok nums) configs = set_nics nums configs
  set_listed not_found configs = pure (failed "sac enum")
  set_listed (err e) configs = pure (failed e)

  abbrev pub set_dialed : Bool → List NetworkConfig → Io SacEnd
  set_dialed false configs = pure (failed "sac dial")
  set_dialed true configs = do
    nums ← sac_enumerate_nics sac_enum_retries (length configs) []
    set_listed nums configs

module _ (m : Meta) (settings : Settings) (env : Env) where
  abbrev pub apply_if_needed : Bool → Vm → Io SacEnd
  apply_if_needed false v = pure skipped
  apply_if_needed true v = do
    dialed ← call env env.done (sac_dial v.id)
    set_dialed m settings env v.id (is_ok dialed) v.network_configs

  -- `applyWindowsStaticIP`.
  unfoldable pub apply_windows_static_ip : Vm → Io SacEnd
  apply_windows_static_ip v = apply_if_needed (sac_static_ip_needed settings v) v

  abbrev pub report_sac : SacEnd → Pod → Io (Option (Pod × Bool))
  report_sac skipped pod = pure (some (pod, true))
  report_sac configured pod = pure (some (pod, true))
  report_sac panicked pod = pure none
  report_sac (failed e) pod = do
    mark_post_clone_state m settings env pod "failed"
    pod' ←
        mark_lifecycle_state m settings env pod LifecycleState.failed
          (truncate e lifecycle_message_max_bytes)
    pure (some (pod', false))

  -- `runWindowsSAC`, with the pod as it stands; `none` when an index was out of range.
  unfoldable pub run_windows_sac : Pod → Vm → Io (Option (Pod × Bool))
  run_windows_sac pod v = do r ← apply_windows_static_ip v; report_sac r pod
