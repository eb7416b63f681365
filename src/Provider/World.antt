-- ===== src/Provider/World.antt =====
-- The world that a handler runs in: the tables, and the calls made of other components, newest first.
-- An `Env` answers each call from the history that ends with it, so that two equal calls may be
-- answered differently, and says what the other goroutines do to the tables while the call runs.
-- The Kubernetes client, the cocoon CLI, the registry and the clock are such answers. Metrics, logs
-- and events are left out.
use vk_cocoon.Base.{Option, ℕ, Bool, String, List, ◌∷◌}
use vk_cocoon.Base.Table.{Table}
use vk_cocoon.Kube.{Pod}
use vk_cocoon.Vm.{CloneOptions, RunOptions, Vm, Snapshot, Reply, StaleCreateOutcome, MacosVmRecord}
use vk_cocoon.Provider.State.{Tables}

pub data Effect : Type 0 where
  -- The key and uid of a pod, and the annotations that it is given; `none` removes one.
  patch_annotations : String → String → Table (Option String) → Effect
  patch_status : String → Effect
  delete_pod : String → String → Effect  -- key, uid
  notify : Pod → Effect
  forget_probe start_probe : String → Effect
  vm_inspect vm_start vm_remove : String → Effect
  net_resize : String → ℕ → Effect
  guest_ipconfig : String → String → Effect  -- VM id, verb
  snapshot_save : String → String → Effect  -- name, VM id
  -- The local name, repository and tag, the base image and the annotations of the manifest.
  snapshot_push : String → String → String → String → Table String → Effect
  snapshot_pull : String → String → String → Effect  -- repository, tag, local name
  snapshot_inspect snapshot_remove : String → Effect
  get_manifest fetch_config delete_manifest : String → Effect
  peer_restore : String → String → String → Effect  -- base URL, VM name, SnapshotID of the config
  release_import release_staged : String → Effect  -- a clone source that served its clone
  image_inspect : String → Effect
  snapshot_list list_node_pods list_vms : Effect
  get_image_manifest : String → String → Effect  -- repository, tag
  ensure_image ensure_cloud_image : String → Bool → Effect  -- image, force
  get_node : String → Effect
  vm_exec : String → Effect
  vm_clone : CloneOptions → Effect
  vm_run : RunOptions → Effect
  reconcile_stale_create : String → Effect
  release_lease : String → Effect
  lookup_lease read_probe : String → Effect
  schedule_recheck : String → Effect
  background : String → Effect  -- a goroutine started for the pod key
  sleep : ℕ → Effect
  macos_inspect macos_remove : String → Effect  -- the guest's name
  macos_start : String → List String → Effect  -- the guest's name, the display arguments
  macos_run : String → List String → Effect  -- the guest's name, the arguments
  macos_image_inspect macos_image_pull : String → Effect
  process_alive : ℕ → Effect
  dial_tcp read_banner : String → String → Effect  -- address, port
  ping : String → Effect
  stat_overlay : String → Effect  -- the overlay of a VM on disk
  sac_dial : String → Effect  -- VM id
  sac_run : String → List String → Effect  -- VM id, the command
  guest_exec : String → List String → Effect  -- VM id, the arguments
  read_context : Effect  -- Go's `ctx.Err()`
  await_create : String → Effect  -- a wait for a busy create of the name to settle
  read_clock : Effect

pub data ApiReply : Type 0 where
  accepted absent conflict invalid : ApiReply
  refused : String → ApiReply

pub data ImageKind : Type 0 where
  cloud_image snapshot_image other_image : ImageKind

-- A hibernate manifest: the image recorded at push time and the node that pushed it.
pub record Manifest : Type 0 where
  pub base_image : String
  pub from_node : String

-- How a run of a command in a guest ends, where its context may be cancelled.
pub data ExecEnd : Type 0 where
  exec_done exec_canceled : ExecEnd
  exec_failed : String → ExecEnd

pub record Env : Type 0 where
  pub others : List Effect → Tables → Tables
  pub clock : List Effect → ℕ
  pub awake : List Effect → Bool  -- a sleep ran to its end, or the context is not cancelled
  pub api : List Effect → ApiReply
  pub done : List Effect → Reply (Unit {0})
  pub vm : List Effect → Reply Vm
  pub snapshot : List Effect → Reply Snapshot
  pub snapshots : List Effect → Reply (List Snapshot)
  pub peer : List Effect → Reply (String × Snapshot)  -- the staged directory
  pub node_ip : List Effect → Reply String
  pub image_kind : List Effect → Option ImageKind  -- none: no manifest, or none of a known kind
  pub manifest : List Effect → Reply Manifest
  pub config_id : List Effect → Reply String  -- the SnapshotID of a config blob
  pub outcome : List Effect → Reply StaleCreateOutcome
  pub lease_ip : List Effect → Reply String
  pub macos_record : List Effect → Option MacosVmRecord  -- `none`: no guest, or an unreadable answer
  pub macos_alive : List Effect → Bool  -- a process lives
  pub net_rows : List Effect → Reply (List (ℕ × String))  -- the lines of a console's answer that `netLineRe` matches
  pub has_overlay : List Effect → Bool
  pub exec_end : List Effect → ExecEnd
  pub macos_missing : List Effect → Bool  -- a `vm inspect` that says that no such guest exists
  pub node_pods : List Effect → Reply (List Pod)
  pub local_vms : List Effect → Reply (List Vm)
  pub reachable : List Effect → Bool  -- the guest answers a ping, a connection or with its banner
  pub probe_seen : List Effect → Bool  -- an agent has recorded a result for the key
  pub probe : List Effect → Bool × String  -- the last probe result of a key

pub record World : Type 0 where
  pub tables : Tables
  pub log : List Effect

abbrev pub Io {ℓ} : Type ℓ → Type ℓ
Io A = World → A × World

infixl 5 ◌>>=◌ ◌>>◌
abbrev pub ◌>>=◌ {ℓ κ} : {A : Type ℓ} {B : Type κ} → Io A → (A → Io B) → Io B
◌>>=◌ run f w = let (a, w') = run w in f a w'

abbrev pub ◌>>◌ {ℓ} : {B : Type ℓ} → Io (Unit {0}) → Io B → Io B
◌>>◌ run next w = let (_, w') = run w in next w'

abbrev pub pure {ℓ} : {A : Type ℓ} → A → Io A
pure a w = (a, w)

-- A section under `p.mu` that only writes, and one that only reads.
abbrev pub locked : (Tables → Tables) → Io (Unit {0})
locked f w = (tt, record w { tables = f w.tables })

abbrev pub reads {ℓ} : {A : Type ℓ} → (Tables → A) → Io A
reads f w = (f w.tables, w)

-- A section that writes and returns a value.
abbrev pub section {ℓ} : {A : Type ℓ} → (Tables → Tables × A) → Io A
section f w = let (t, a) = f w.tables in (a, record w { tables = t })

-- A call: it is logged, the other goroutines run, and the answer is read off the new history.
unfoldable pub call {ℓ} : {A : Type ℓ} → Env → (List Effect → A) → Effect → Io A
call env answer e w =
    let log = e ∷ w.log in (answer log, record { tables = env.others log w.tables; log = log })

-- A call whose answer the source does not use.
abbrev pub tell : Env → Effect → Io (Unit {0})
tell env = call env (λ _. tt)
