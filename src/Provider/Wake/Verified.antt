-- ===== src/Provider/Wake/Verified.antt =====
-- What a wake clones from (update.go): the history of a wake read as the evidence for its source.
pub mod Sources
use Prim.Native.String.{◌++◌ as append_text}
use vk_cocoon.Base.{
  ◌≡◌, refl, Bool, true, false, not, ◌&&◌, ◌||◌, Option, none, some, String, List, [], ◌∷◌, arith,
  ◌==◌, ◌∙◌, is_empty, eq_refl, if◌then◌else◌,
}
use vk_cocoon.Kube.{Pod, VmSpec, Meta, LifecycleState}
use vk_cocoon.Resources.{CpuPolicy, pod_cpu_policy}
use vk_cocoon.Vm.{Vm, Reply, ok, not_found, err, Snapshot, CloneOptions}
use vk_cocoon.Provider.State.{Settings, Tables}
use vk_cocoon.Provider.World.{
  Env, World, Effect, Manifest, call, tell, snapshot_inspect, snapshot_pull, snapshot_remove,
  get_manifest, fetch_config, get_node, peer_restore, vm_clone, vm_run, image_inspect,
  release_import,
}
use vk_cocoon.Provider.Flush.{mark_lifecycle_state}
use vk_cocoon.Provider.Runtime.{apply_runtime, clear_runtime_annotations, fail_op}
use vk_cocoon.Provider.Delete.{remove_local_snapshots}
use vk_cocoon.Provider.Quiet.{
  IgnoresReports, is_report, mark-quiet, clear-quiet, fail_op-quiet, apply_runtime-quiet,
}
use vk_cocoon.Provider.Image.{
  clone_options_for, ensure_snapshot_base_image, ensure_run_image, resolve_run_image,
}
use vk_cocoon.Provider.Source.{
  Verdict, current, stale, unverified, WakeSource, import_name, staged_source, restore_from,
  imported_source, restore_with, peer_of, manifest_or_fetch, config_or_fetch, after_pull,
  source_or_pull, on_verdict, on_local, verify_local_snapshot, peer_base_url, try_peer_restore,
  pull_import, source_elsewhere, resolve_wake_source, Release, join_host_port,
}
use vk_cocoon.Provider.Wake.{
  clone_source, bind_woken, clone_woken, start_woken, fail_wake, hibernate_clone_options,
  clone_from_hibernate, start_probe_if_enabled, dispatch_hibernate_restore, wake,
}

-- What a history says of the sources of one VM: the SnapshotID of the local snapshot last inspected
-- and not removed since, the one that the registry last named for the VM, the node that the VM's
-- manifest last named and that node's address, whether a pull of the VM's hibernate snapshot into its
-- import has succeeded, the directory that the VM's files of that node, with the SnapshotID of the
-- registry, were last staged in, whether a lookup has said that no hibernate snapshot exists (in the
-- registry, or locally without one), and whether each boot so far was careful: a clone of an allowed
-- source or, where `lax`, any boot once no snapshot exists.
pub record Trail : Type 0 where
  pub local : Option String
  pub named : Option String
  pub node : Option String
  pub host : Option String
  pub pulled : Bool
  pub staged : Option String
  pub absent : Bool
  pub careful : Bool

abbrev pub same_text : Option String → Option String → Bool
same_text (some a) (some b) = a == b
same_text _ _ = false

abbrev pub id_or : Option String → Reply Snapshot → Option String
id_or old (ok s) = some s.id
id_or old _ = old

abbrev text_or : Option String → Reply String → Option String
text_or old (ok s) = some s
text_or old _ = old

abbrev dir_or : Option String → Reply (String × Snapshot) → Option String
dir_or old (ok (dir, s)) = some dir
dir_or old _ = old

abbrev node_or : Option String → Reply Manifest → Option String
node_or old (ok man) = some man.from_node
node_or old _ = old

abbrev url_of : Option String → String → Option String
url_of none port = none
url_of (some host) port = some (append_text "http://" (join_host_port host port))

-- The node and the address in an answer, to compare with themselves.
abbrev pub from_of : Reply Manifest → String
from_of (ok man) = man.from_node
from_of _ = ""

abbrev pub text_in : Reply String → String
text_in (ok s) = s
text_in _ = ""

abbrev url_in : Reply String → String → String
url_in (ok host) port = append_text "http://" (join_host_port host port)
url_in _ port = ""

abbrev pub is_ok : Reply (Unit {0}) → Bool
is_ok (ok _) = true
is_ok _ = false

abbrev pub is_missing {ℓ} : {A : Type ℓ} → Reply A → Bool
is_missing not_found = true
is_missing _ = false

module _ (m : Meta) (settings : Settings) (env : Env) (name : String) where
  -- A clone may start from the local snapshot that the registry names (any, without a registry), from
  -- a pulled import, or from the files that a peer sent.
  unfoldable pub allows : Trail → String → String → Bool
  allows a from dir =
      from == name && (not settings.has_registry || same_text a.named a.local)
      || from == import_name m settings env name && a.pulled
      || is_empty from && same_text a.staged (some dir)

  -- A source that the history allows.
  abbrev pub sound : Trail → Reply WakeSource → Bool
  sound a (ok s) = allows a s.local_name s.dir
  sound a _ = true

  abbrev pub sound_option : Trail → Option WakeSource → Bool
  sound_option a (some s) = allows a s.local_name s.dir
  sound_option a none = true

  -- Without a registry, or with the id that the registry names.
  abbrev is_current : Trail → Bool
  is_current a = not settings.has_registry || same_text a.named a.local

  abbrev pub current_if : Verdict → Trail → Bool
  current_if current a = is_current a
  current_if _ a = true

module _ (m : Meta) (settings : Settings) (env : Env) (name : String) (lax : Bool) where
  unfoldable pub trail : List Effect → Trail
  trail [] = record {
    local = none;
    named = none;
    node = none;
    host = none;
    pulled = false;
    staged = none;
    absent = false;
    careful = true;
  }
  trail (snapshot_inspect n ∷ log) =
      let a = trail log in
      if n == name
      then record a {
        local = id_or a.local (env.snapshot (snapshot_inspect n ∷ log));
        absent =
            not settings.has_registry && is_missing (env.snapshot (snapshot_inspect n ∷ log))
            || a.absent;
      }
      else a
  trail (get_manifest n ∷ log) =
      let a = trail log in
      record a {
        absent =
            settings.has_registry && n == name && is_missing (env.manifest (get_manifest n ∷ log))
            || a.absent;
        node = if n == name then node_or a.node (env.manifest (get_manifest n ∷ log)) else a.node;
      }
  trail (get_node n ∷ log) =
      let a = trail log in
      if same_text a.node (some n)
      then record a { host = text_or a.host (env.node_ip (get_node n ∷ log)) }
      else a
  trail (snapshot_remove n ∷ log) =
      let a = trail log in if n == name then record a { local = none } else a
  trail (fetch_config n ∷ log) =
      let a = trail log in
      if n == name
      then record a { named = text_or a.named (env.config_id (fetch_config n ∷ log)) }
      else a
  trail (snapshot_pull r t n ∷ log) =
      let a = trail log in
      record a {
        pulled =
            r == name
              && t == m.hibernate_snapshot_tag
              && n == import_name m settings env name
              && is_ok (env.done (snapshot_pull r t n ∷ log))
            || a.pulled;
      }
  trail (peer_restore u n id ∷ log) =
      let a = trail log in
      if n == name
        && same_text (url_of a.host settings.peer_port) (some u)
        && same_text a.named (some id)
      then record a { staged = dir_or a.staged (env.peer (peer_restore u n id ∷ log)) }
      else a
  trail (vm_clone o ∷ log) =
      let a = trail log in
      record a {
        careful = a.careful && (allows m settings env name a o.from o.from_dir || lax && a.absent);
      }
  trail (vm_run o ∷ log) = let a = trail log in record a { careful = a.careful && lax && a.absent }
  trail (e ∷ log) = trail log

pub trail-ignores :
    (m : Meta) (settings : Settings) (env : Env) (name : String) (lax : Bool)
    → IgnoresReports (trail m settings env name lax)
unfolding trail is_report
trail-ignores m settings env name lax e log h = ground arith

module _ (m : Meta) (settings : Settings) (env : Env) (name : String) (lax : Bool) where
  abbrev pub seen : World → Trail
  seen w = trail m settings env name lax w.log

  pub run_image-seen :
      (image : String) (force : Bool) (w : World)
      → seen (ensure_run_image m settings env image force w).1 ≡ seen w
  unfolding ensure_run_image resolve_run_image call trail
  run_image-seen image force w = ground arith

  pub base_image-seen :
      (s : Option Snapshot) (w : World)
      → seen (ensure_snapshot_base_image m settings env s w).1 ≡ seen w
  unfolding ensure_snapshot_base_image call trail
  base_image-seen none w = refl
  base_image-seen (some s) w =
      let w' = (call env env.done (image_inspect s.image_digest) w).1 in
      ground (arith, run_image-seen s.image false w, run_image-seen s.image false w')

  pub remove_local-careful :
      (n : String) (w : World)
      → let w' = (remove_local_snapshots m settings env n w).1 in
        ((seen w').careful ≡ (seen w).careful)
        × ((seen w').node ≡ (seen w).node)
        × ((seen w').named ≡ (seen w).named)
  unfolding remove_local_snapshots call trail
  remove_local-careful n w = ground arith

  -- The manifest at hand is the one that the registry last gave for the VM.
  abbrev pub knows : Option Manifest → World → Bool
  knows none w = true
  knows (some man) w = same_text (seen w).node (some man.from_node)

  abbrev pub knows_reply : Reply Manifest → World → Bool
  knows_reply (ok man) w = same_text (seen w).node (some man.from_node)
  knows_reply _ w = true

  -- So is the SnapshotID at hand.
  abbrev pub knows_config : Option String → World → Bool
  knows_config none w = true
  knows_config (some id) w = same_text (seen w).named (some id)

  abbrev pub knows_id : Reply String → World → Bool
  knows_id (ok id) w = same_text (seen w).named (some id)
  knows_id _ w = true

  abbrev pub knows_stale : Verdict → World → Bool
  knows_stale (stale man cfg) w = knows man w && knows_config cfg w
  knows_stale _ w = true

  pub verify-current :
      (s : Snapshot) (w : World)
      → (seen w).careful ≡ true
      → (seen w).local ≡ some s.id
      → let (v, w') = verify_local_snapshot m settings env name s w in
        (seen w').careful && current_if m settings env name v (seen w') && knows_stale v w' ≡ true
  unfolding verify_local_snapshot call trail
  verify-current s w c l = ground (
    arith,
    eq_refl name,
    eq_refl s.id,
    eq_refl (from_of (env.manifest (get_manifest name ∷ w.log))),
    eq_refl (text_in (env.config_id (fetch_config name ∷ get_manifest name ∷ w.log))),
  )

  abbrev pub reaches : Reply String → World → Bool
  reaches (ok url) w = same_text (url_of (seen w).host settings.peer_port) (some url)
  reaches _ w = true

  pub base_url-seen :
      (node : String) (w : World)
      → same_text (seen w).node (some node) ≡ true
      → let (url, w') = peer_base_url m settings env node w in
        ((seen w').careful ≡ (seen w).careful)
        × ((seen w').named ≡ (seen w).named)
        × (reaches url w' ≡ true)
  unfolding peer_base_url call trail
  base_url-seen node w h =
      ground (arith, eq_refl (url_in (env.node_ip (get_node node ∷ w.log)) settings.peer_port))

  staged_sound :
      (r : Reply (String × Snapshot)) (a : Trail) (node : String)
      → sound_option m settings env name
          (record a { staged = dir_or a.staged r })
          (staged_source m settings env r node)
        ≡ true
  unfolding allows
  staged_sound (ok (dir, s)) a node = ground (arith, eq_refl dir)
  staged_sound not_found a node = refl
  staged_sound (err e) a node = refl

  pub restore_from_sound :
      (url : Reply String) (node id : String) (w : World)
      → (seen w).careful ≡ true
      → reaches url w ≡ true
      → same_text (seen w).named (some id) ≡ true
      → let (s, w') = restore_from m settings env url name node id w in
        (seen w').careful && sound_option m settings env name (seen w') s ≡ true
  unfolding call trail
  restore_from_sound (ok url) node id w c h k = ground (
    arith,
    staged_sound (env.peer (peer_restore url name id ∷ w.log)) (seen w) node,
    eq_refl name,
  )
  restore_from_sound not_found node id w c h k = ground arith
  restore_from_sound (err e) node id w c h k = ground arith
