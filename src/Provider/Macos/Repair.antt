-- ===== src/Provider/Macos/Repair.antt =====
-- provider/cocoon/macos.go and provider.go: the readiness probes of guests. That of a macOS guest
-- repairs what it finds broken.
use Prim.Native.String.{◌++◌ as append_text}
use vk_cocoon.Base.{
  ℕ, zero, suc, ◌+◌, ◌*◌, Bool, true, false, Option, none, some, String, leb, is_empty, second,
  if◌then◌else◌,
}
use vk_cocoon.Base.Table.{lookup}
use vk_cocoon.Kube.{Pod, Meta}
use vk_cocoon.Vm.{Vm, Reply, ok, not_found, err, MacosVmRecord, apply_macos_record}
use vk_cocoon.Spec.{text_at}
use vk_cocoon.Provider.State.{Tables, Settings}
use vk_cocoon.Provider.Track.{tracked_pod_matches, update_tracked_vm}
use vk_cocoon.Provider.Runtime.{resolve_vm_ip}
use vk_cocoon.Provider.Endpoint.{copied, reconcile_runtime_endpoints}
use vk_cocoon.Provider.Macos.Vnc.{adopt_macos_vnc_port, macos_vnc_port_for}
use vk_cocoon.Provider.Macos.Launch.{macos_process_alive, record_alive, start_macos_vm}
use vk_cocoon.Provider.World.{
  Env, Io, macos_inspect, dial_tcp, read_banner, ping, read_clock, ◌>>=◌, ◌>>◌, pure, reads,
  section, call,
}

abbrev pub Ready : Type 0
Ready = Bool × String

abbrev pub macos_inspect_retry_every : ℕ
macos_inspect_retry_every = 10 * second

-- What one agent's probe keeps between its runs; `none` is Go's zero time.
pub record ProbeTimes : Type 0 where
  pub last_inspect : Option ℕ
  pub last_restart : Option ℕ

abbrev is_due : Option ℕ → ℕ → Bool
is_due none now = true
is_due (some last) now = leb (last + macos_inspect_retry_every) now

abbrev annotated_port : Meta → Option Pod → String
annotated_port m none = ""
annotated_port m (some pod) = text_at m.annotation_probe_port pod.annotations

module _ (m : Meta) (settings : Settings) (env : Env) where
  -- `probePort`.
  unfoldable pub probe_port : String → Tables → String
  probe_port key t = annotated_port m (lookup key t.pods)

  abbrev said : String → String → Bool → Ready
  said good bad true = (true, good)
  said good bad false = (false, bad)

  -- `probeTCP`.
  unfoldable pub probe_tcp : String → String → Io Ready
  probe_tcp ip port = do
    r ← call env env.reachable (dial_tcp ip port)
    pure (said "tcp ok" "tcp probe" r)

  -- `macosSSHReady`: a connection alone is not enough, the guest must send its banner.
  unfoldable pub macos_ssh_ready : String → Io Ready
  macos_ssh_ready ip = do
    r ← call env env.reachable (dial_tcp ip "22")
    elim r [
      | false ↦ pure (false, "ssh probe")
      | true ↦ do
        b ← call env env.reachable (read_banner ip "22")
        pure (said "ssh ok" "no ssh banner" b)
    ]

  abbrev ping_guest : String → Io Ready
  ping_guest ip = do r ← call env env.reachable (ping ip); pure (said "ping ok" "ping failed" r)

  abbrev ping_or_dial : String → String → Io Ready
  ping_or_dial ip port = if is_empty port then ping_guest ip else probe_tcp ip port

  abbrev probe_cloud : Option Vm → String → Io Ready
  probe_cloud none key = pure (false, "vm gone")
  probe_cloud (some v) key = do
    ip ← resolve_vm_ip m settings env key v
    port ← reads (probe_port key)
    (if is_empty ip then pure (false, "waiting for dhcp lease") else ping_or_dial ip port)

  -- The function that `buildProbe` returns.
  unfoldable pub probe_guest : String → Io Ready
  probe_guest key = do v ← reads (λ t. lookup key t.vms_by_pod); probe_cloud v key

  abbrev pub apply_record : Option MacosVmRecord → Vm → Vm
  apply_record rec = apply_macos_record rec

  abbrev publish_endpoints : Option Pod → String → Io (Unit {0})
  publish_endpoints none ip = pure tt
  publish_endpoints (some pod) ip = do
    _ ← reconcile_runtime_endpoints m settings env pod ip
    pure tt

  abbrev publish_recovered : Option Vm → String → MacosVmRecord → Io (Unit {0})
  publish_recovered none key rec = pure tt
  publish_recovered (some v) key rec = do
    _ ← section (adopt_macos_vnc_port key rec.vnc)
    pod ← reads (λ t. copied (lookup key t.pods))
    publish_endpoints pod v.ip

  -- `updateRecoveredMacosVM`: nothing unless the incarnation and the VM are still those of the probe.
  unfoldable pub update_recovered_macos_vm :
      String → String → String → MacosVmRecord → Io (Unit {0})
  update_recovered_macos_vm key uid id rec = do
    owned ← reads (tracked_pod_matches key uid)
    elim owned [
      | false ↦ pure tt
      | true ↦ do
        v ← section (update_tracked_vm key id (apply_record (some rec)))
        publish_recovered v key rec
    ]

  abbrev update_if_seen : Option MacosVmRecord → String → String → String → Io (Unit {0})
  update_if_seen none key uid id = pure tt
  update_if_seen (some rec) key uid id = update_recovered_macos_vm key uid id rec

  abbrev after_start : Reply (Unit {0}) → String → String → Vm → Io String
  after_start not_found key uid v = pure "qemu restart: not found"
  after_start (err e) key uid v = pure (append_text "qemu restart: " e)
  after_start (ok _) key uid v = do
    rec ← call env env.macos_record (macos_inspect v.name)
    update_if_seen rec key uid v.id
    pure "qemu restarted"

  abbrev recover_seen : Option MacosVmRecord → Bool → String → String → Vm → Io String
  recover_seen rec true key uid v = do update_if_seen rec key uid v.id; pure "adopted running qemu"
  recover_seen rec false key uid v = do
    port ← reads (macos_vnc_port_for key)
    r ← start_macos_vm settings env v.name port
    after_start r key uid v

  -- `recoverMacosVM`.
  unfoldable pub recover_macos_vm : String → String → Vm → Io String
  recover_macos_vm key uid v = do
    rec ← call env env.macos_record (macos_inspect v.name)
    alive ← record_alive settings env rec
    recover_seen rec alive key uid v

  abbrev dial_macos : String → String → Io Ready
  dial_macos ip port = if is_empty port then macos_ssh_ready ip else probe_tcp ip port

  abbrev probe_address : String → String → Io Ready
  probe_address ip key = do
    port ← reads (probe_port key)
    (if is_empty ip then pure (false, "waiting for guest dhcp lease") else dial_macos ip port)

  abbrev probe_running : String → Vm → ProbeTimes → Io (Ready × ProbeTimes)
  probe_running key v times = do
    ip ← resolve_vm_ip m settings env key v
    r ← probe_address ip key
    pure (r, times)

  abbrev recover_if_due : String → String → Vm → ProbeTimes → ℕ → Io (Ready × ProbeTimes)
  recover_if_due key uid v times now = elim (is_due times.last_restart now) [
    | false ↦ pure ((false, "qemu process dead"), times)
    | true ↦ do
      text ← recover_macos_vm key uid v
      pure ((false, text), record times { last_restart = some now })
  ]

  abbrev alive_unless_known : ℕ → Io Bool
  alive_unless_known zero = pure true
  alive_unless_known (suc pid) = macos_process_alive settings env (suc pid)

  -- The guest's record is known from here on.
  unfoldable pub probe_recorded : String → String → Vm → ProbeTimes → Io (Ready × ProbeTimes)
  probe_recorded key uid v times = do
    alive ← alive_unless_known v.pid
    elim alive [
      | true ↦ probe_running key v times
      | false ↦ do now ← call env env.clock read_clock; recover_if_due key uid v times now
    ]

  abbrev recorded_or_wait : Option Vm → String → String → ProbeTimes → Io (Ready × ProbeTimes)
  recorded_or_wait none key uid times = pure ((false, "waiting for vm record"), times)
  recorded_or_wait (some v) key uid times =
      if is_empty v.mac
      then pure ((false, "waiting for vm record"), times)
      else probe_recorded key uid v times

  abbrev refill : Option MacosVmRecord → String → Vm → Io (Option Vm)
  refill none key v = pure (some v)
  refill (some rec) key v =
      if is_empty rec.mac
      then pure (some v)
      else section (update_tracked_vm key v.id (apply_record (some rec)))

  abbrev refill_if_due : String → String → Vm → ProbeTimes → ℕ → Io (Ready × ProbeTimes)
  refill_if_due key uid v times now = elim (is_due times.last_inspect now) [
    | false ↦ recorded_or_wait (some v) key uid times
    | true ↦ do
      rec ← call env env.macos_record (macos_inspect v.name)
      filled ← refill rec key v
      recorded_or_wait filled key uid (record times { last_inspect = some now })
  ]

  abbrev probe_bound : Option Vm → String → String → ProbeTimes → Io (Ready × ProbeTimes)
  probe_bound none key uid times = pure ((false, "vm gone"), times)
  probe_bound (some v) key uid times = elim (is_empty v.mac) [
    | false ↦ probe_recorded key uid v times
    | true ↦ do now ← call env env.clock read_clock; refill_if_due key uid v times now
  ]

  -- One run of the function that `buildMacosProbe` returns.
  unfoldable pub probe_macos_guest : String → String → ProbeTimes → Io (Ready × ProbeTimes)
  probe_macos_guest key uid times = do
    owned ← reads (tracked_pod_matches key uid)
    elim owned [
      | false ↦ pure ((false, "pod incarnation replaced"), times)
      | true ↦ do v ← reads (λ t. lookup key t.vms_by_pod); probe_bound v key uid times
    ]
