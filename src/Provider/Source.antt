-- ===== src/Provider/Source.antt =====
-- provider/cocoon/update.go: where a wake gets its snapshot from, in the order of a verified local
-- snapshot, a peer's files and a pull from the registry.
use Prim.Native.String.{◌++◌ as append_text}
use vk_cocoon.Base.{
  Bool, true, false, not, ◌||◌, Option, none, some, String, ◌==◌, is_empty, nat_eq, if◌then◌else◌,
}
use vk_cocoon.Base.Seq.{exists}
use vk_cocoon.Base.Text.{codes}
use vk_cocoon.Kube.{VmSpec, Meta}
use vk_cocoon.Vm.{Reply, ok, not_found, err, Snapshot}
use vk_cocoon.Spec.{is_macos_spec}
use vk_cocoon.Provider.State.{Settings}
use vk_cocoon.Provider.World.{
  Env, Io, Manifest, snapshot_inspect, snapshot_pull, get_manifest, fetch_config, get_node,
  peer_restore, ◌>>=◌, ◌>>◌, pure, call,
}
use vk_cocoon.Provider.Delete.{remove_local_snapshots}

-- What the registry says of a local snapshot: it is the one the hibernate tag names, it is not (with
-- the manifest and the SnapshotID read so far), or nothing can be said.
pub data Verdict : Type 0 where
  current : Verdict
  stale : Option Manifest → Option String → Verdict
  unverified : String → Verdict

pub data Release : Type 0 where
  keep : Release
  import staged : String → Release

-- `wakeSource`: a named snapshot, or a directory that a peer's files were staged in.
pub record WakeSource : Type 0 where
  pub local_name : String
  pub dir : String
  pub origin : String
  pub snapshot : Option Snapshot
  pub release : Release

-- `net.JoinHostPort`: a host with a colon is put in brackets.
unfoldable pub join_host_port : String → String → String
join_host_port host port =
    if exists (nat_eq 58) (codes host)
    then append_text "[" (append_text host (append_text "]:" port))
    else append_text host (append_text ":" port)

abbrev pub has_image : Option Snapshot → Bool
has_image none = false
has_image (some s) = not (is_empty s.image)

abbrev pub after : String → String → String → String
after what name e = append_text what (append_text name (append_text ": " e))

module _ (m : Meta) (settings : Settings) (env : Env) where
  abbrev compare_config : Reply String → Manifest → Snapshot → Verdict
  compare_config (ok id) man local = if id == local.id then current else stale (some man) (some id)
  compare_config not_found man local = unverified "fetch snapshot config: not found"
  compare_config (err e) man local = unverified (append_text "fetch snapshot config: " e)

  abbrev verify_against : Reply Manifest → String → Snapshot → Io Verdict
  verify_against (err e) name local = pure (unverified e)
  verify_against not_found name local = pure (stale none none)
  verify_against (ok man) name local = do
    r ← call env env.config_id (fetch_config name)
    pure (compare_config r man local)

  -- `verifyLocalSnapshot`, with `fetchHibernateManifest`: without a registry nothing is ever pushed.
  unfoldable pub verify_local_snapshot : String → Snapshot → Io Verdict
  verify_local_snapshot name local = elim settings.has_registry [
    | false ↦ pure current
    | true ↦ do r ← call env env.manifest (get_manifest name); verify_against r name local
  ]

  -- `peerBaseURL`: `env.node_ip` answers with the InternalIP of the node.
  unfoldable pub peer_base_url : String → Io (Reply String)
  peer_base_url node = elim (is_empty settings.peer_port) [
    | true ↦ pure (err "peer port not configured")
    | false ↦ do
      r ← call env env.node_ip (get_node node)
      elim r [
        | ok host ↦ pure (ok (append_text "http://" (join_host_port host settings.peer_port)))
        | not_found ↦ pure not_found
        | err e ↦ pure (err e)
      ]
  ]

  abbrev pub staged_source : Reply (String × Snapshot) → String → Option WakeSource
  staged_source (ok (dir, snapshot)) node = some (record {
    local_name = "";
    dir = dir;
    origin = append_text "peer " node;
    snapshot = some snapshot;
    release = staged dir;
  })
  staged_source _ node = none

  abbrev pub restore_from : Reply String → String → String → String → Io (Option WakeSource)
  restore_from (ok url) name node id = do
    r ← call env env.peer (peer_restore url name id)
    pure (staged_source r node)
  restore_from _ name node id = pure none

  abbrev pub config_or_fetch : Option String → String → Io (Reply String)
  config_or_fetch (some id) name = pure (ok id)
  config_or_fetch none name = call env env.config_id (fetch_config name)

  abbrev pub restore_with : Reply String → String → String → Io (Option WakeSource)
  restore_with (ok id) name node = do url ← peer_base_url node; restore_from url name node id
  restore_with _ name node = pure none

  abbrev pub peer_of : Reply Manifest → String → Option String → Io (Option WakeSource)
  peer_of (ok man) name cfg = elim (is_empty man.from_node || man.from_node == settings.node_name) [
    | true ↦ pure none
    | false ↦ do r ← config_or_fetch cfg name; restore_with r name man.from_node
  ]
  peer_of _ name cfg = pure none

  abbrev pub manifest_or_fetch : Option Manifest → String → Io (Reply Manifest)
  manifest_or_fetch (some man) name = pure (ok man)
  manifest_or_fetch none name = call env env.manifest (get_manifest name)

  -- `tryPeerRestore`: `none` falls back to the registry.
  unfoldable pub try_peer_restore :
      String → Option Manifest → Option String → Io (Option WakeSource)
  try_peer_restore name man cfg = elim settings.has_peer_restorer [
    | false ↦ pure none
    | true ↦ do r ← manifest_or_fetch man name; peer_of r name cfg
  ]

  abbrev pub import_name : String → String
  import_name name = append_text name m.hibernate_import_suffix

  abbrev pub imported_source : Reply Snapshot → String → Reply WakeSource
  imported_source (ok snapshot) name = ok (record {
    local_name = name;
    dir = "";
    origin = "";
    snapshot = some snapshot;
    release = import name;
  })
  imported_source not_found name = err (after "inspect imported snapshot " name "not found")
  imported_source (err e) name = err (after "inspect imported snapshot " name e)

  abbrev pub after_pull : Reply (Unit {0}) → String → Io (Reply WakeSource)
  after_pull (ok _) name = do
    r ← call env env.snapshot (snapshot_inspect (import_name name))
    pure (imported_source r (import_name name))
  after_pull not_found name = pure (err (after "pull hibernation snapshot " name "not found"))
  after_pull (err e) name = pure (err (after "pull hibernation snapshot " name e))

  unfoldable pub pull_import : String → Io (Reply WakeSource)
  pull_import name = elim settings.has_puller [
    | false ↦ pure (err (after "wake " name "no local snapshot and no puller configured"))
    | true ↦ do
      r ← call env env.done (snapshot_pull name m.hibernate_snapshot_tag (import_name name))
      after_pull r name
  ]

  abbrev pub source_or_pull : Option WakeSource → String → Io (Reply WakeSource)
  source_or_pull (some s) name = pure (ok s)
  source_or_pull none name = pull_import name

  unfoldable pub source_elsewhere : String → Option Manifest → Option String → Io (Reply WakeSource)
  source_elsewhere name man cfg = do r ← try_peer_restore name man cfg; source_or_pull r name

  abbrev local_source : String → Snapshot → WakeSource
  local_source name local = record {
    local_name = name;
    dir = "";
    origin = "";
    snapshot = some local;
    release = keep;
  }

  -- No tag in the registry means that no peer can have it either.
  abbrev pub on_verdict : Verdict → String → Snapshot → Io (Reply WakeSource)
  on_verdict current name local = pure (ok (local_source name local))
  on_verdict (unverified e) name local = pure (err (after "verify local snapshot " name e))
  on_verdict (stale none cfg) name local = do
    remove_local_snapshots m settings env name
    pull_import name
  on_verdict (stale (some man) cfg) name local = do
    remove_local_snapshots m settings env name
    source_elsewhere name (some man) cfg

  abbrev pub on_local : Reply Snapshot → String → Io (Reply WakeSource)
  on_local (ok local) name = do v ← verify_local_snapshot name local; on_verdict v name local
  on_local not_found name = source_elsewhere name none none
  on_local (err e) name = pure (err (after "inspect local snapshot " name e))

  -- `resolveWakeSource`.
  unfoldable pub resolve_wake_source : String → Io (Reply WakeSource)
  resolve_wake_source name = do
    local ← call env env.snapshot (snapshot_inspect name)
    on_local local name

  abbrev tagged : Reply Manifest → Reply Bool
  tagged (ok man) = ok true
  tagged not_found = ok false
  tagged (err e) = err e

  abbrev source_without_local : Reply Snapshot → String → Io (Reply Bool)
  source_without_local (ok local) name = pure (ok true)
  source_without_local (err e) name = pure (err (after "inspect local snapshot " name e))
  source_without_local not_found name = elim settings.has_puller [
    | false ↦ pure (ok false)
    | true ↦ elim settings.has_registry [
      | false ↦ pure (ok true)
      | true ↦ do r ← call env env.manifest (get_manifest name); pure (tagged r)
    ]
  ]

  -- `hasWakeSource`.
  unfoldable pub has_wake_source : VmSpec → Io (Reply Bool)
  has_wake_source spec = elim (is_macos_spec m spec) [
    | true ↦ pure (ok false)
    | false ↦ do
      r ← call env env.snapshot (snapshot_inspect spec.vm_name)
      source_without_local r spec.vm_name
  ]
