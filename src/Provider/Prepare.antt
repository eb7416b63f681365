-- ===== src/Provider/Prepare.antt =====
-- provider/cocoon/create.go: the snapshots that a create clones from, and the checks on them.
use Prim.Native.String.{◌++◌ as append_text, len, slice}
use text.Mathlib.Text.{starts_with}
use vk_cocoon.Base.{
  ℕ, ◌-◌, Bool, true, false, not, ◌&&◌, ◌||◌, Option, none, some, String, ◌==◌, is_empty, leb,
  if◌then◌else◌,
}
use vk_cocoon.Base.Table.{lookup}
use vk_cocoon.Base.Text.{codes, trim_space, lower_all, same_codes}
use vk_cocoon.Kube.{Pod, VmSpec, Meta}
use vk_cocoon.Vm.{Vm, Reply, ok, not_found, err, Snapshot}
use vk_cocoon.Spec.{text_at}
use vk_cocoon.Provider.State.{Settings}
use vk_cocoon.Provider.World.{
  Env, Io, snapshot_inspect, snapshot_save, snapshot_pull, vm_inspect, ◌>>=◌, pure, reads, call,
}
use vk_cocoon.Provider.Delete.{fork_snapshot_name}
use vk_cocoon.Provider.Source.{after}

-- `assertSnapshotBackend`: `true` stands for the error.
unfoldable pub is_foreign : Option Snapshot → String → Bool
is_foreign none target = false
is_foreign (some s) target =
    not (is_empty s.hypervisor || is_empty target) && not (s.hypervisor == target)

abbrev pub max_snapshot_name_length : ℕ
max_snapshot_name_length = 63

module _ (m : Meta) where
  abbrev pub with_tag : String → String → String
  with_tag repo tag =
      if is_empty tag || tag == m.default_snapshot_tag
      then repo
      else append_text repo (append_text ":" tag)

  -- A name cut to the limit, with the start of its own hash as the suffix.
  abbrev pub shorten : String → String
  shorten name =
      let suffix = append_text "-" (slice (m.sha256_hex name) 0 12) in
      if leb (len name) max_snapshot_name_length
      then name
      else append_text (slice name 0 (max_snapshot_name_length - len suffix)) suffix

  -- `localSnapshotName`.
  unfoldable pub local_snapshot_name : String → String → String
  local_snapshot_name repo tag = shorten (with_tag repo tag)

  -- `parseCloneFromDirAnnotation`.
  unfoldable pub parse_clone_from_dir : Pod → Reply String
  parse_clone_from_dir pod =
      let raw = trim_space (text_at m.annotation_clone_from_dir pod.annotations) in
      if is_empty raw
      then ok ""
      else if not (starts_with raw "/")
      then err (append_text "must be an absolute path, got " raw)
      else if m.clean_path raw == raw
      then ok raw
      else err (append_text "must be a canonical path, got " raw)

  unfoldable pub is_run_mode : VmSpec → Bool
  is_run_mode spec = same_codes (lower_all (codes spec.mode)) (codes m.agent_mode_run)

-- The VM and the image of the snapshot that it came from.
abbrev pub Booted : Type 0
Booted = Reply (Vm × String)

-- The caller's error text around that of a call.
abbrev pub explain {ℓ} : {A : Type ℓ} → String → String → Reply A → Reply A
explain what name (ok a) = ok a
explain what name not_found = err (after what name "not found")
explain what name (err e) = err (after what name e)

abbrev pub booted : String → Reply Vm → Booted
booted image (ok v) = ok (v, image)
booted image not_found = not_found
booted image (err e) = err e

abbrev pub cloning : VmSpec → String → String
cloning spec how = append_text "clone vm " (append_text spec.vm_name how)

abbrev pub image_of : Option Snapshot → String
image_of none = ""
image_of (some s) = s.image

module _ (m : Meta) (settings : Settings) (env : Env) where
  abbrev pub present : Reply Snapshot → Reply (Option Snapshot)
  present (ok s) = ok (some s)
  present not_found = not_found
  present (err e) = err e

  abbrev pub after_pull : Reply (Unit {0}) → String → Io (Reply (Option Snapshot))
  after_pull (ok _) name = do
    r ← call env env.snapshot (snapshot_inspect name)
    pure (explain "inspect imported snapshot " name (present r))
  after_pull not_found name = pure not_found
  after_pull (err e) name = pure (err e)

  abbrev pub pull_unless : Reply Snapshot → String → String → String → Io (Reply (Option Snapshot))
  pull_unless (ok s) repo tag name = pure (ok (some s))
  pull_unless _ repo tag name = do
    r ← call env env.done (snapshot_pull repo tag name)
    after_pull r name

  abbrev pub fly_unless : Reply Snapshot → String → String → String → Io (Reply (Option Snapshot))
  fly_unless (ok s) repo tag name = pure (ok (some s))
  fly_unless _ repo tag name = elim settings.has_puller [
    | false ↦ pure (ok none)
    | true ↦ do
      again ← call env env.snapshot (snapshot_inspect name)
      pull_unless again repo tag name
  ]

  -- `ensureSnapshot`: the local snapshot is looked for again inside the flight.
  unfoldable pub ensure_snapshot : String → String → String → Io (Reply (Option Snapshot))
  ensure_snapshot repo tag name = elim (is_empty repo) [
    | true ↦ pure (ok none)
    | false ↦ do r ← call env env.snapshot (snapshot_inspect name); fly_unless r repo tag name
  ]

  abbrev pub save_fork : Reply Vm → String → String → Io (Reply String)
  save_fork (ok v) source name = do
    r ← call env env.done (snapshot_save name v.id)
    elim r [
      | ok _ ↦ pure (ok name)
      | not_found ↦ pure (err (after "snapshot fork source vm " source "not found"))
      | err e ↦ pure (err (after "snapshot fork source vm " source e))
    ]
  save_fork not_found source name = pure (err (after "inspect fork source vm " source "not found"))
  save_fork (err e) source name = pure (err (after "inspect fork source vm " source e))

  abbrev pub indexed_or_inspected : Option Vm → String → Io (Reply Vm)
  indexed_or_inspected (some v) source = pure (ok v)
  indexed_or_inspected none source = call env env.vm (vm_inspect source)

  abbrev pub fork_unless : Reply Snapshot → String → String → Io (Reply String)
  fork_unless (ok s) source name = pure (ok name)
  fork_unless _ source name = do
    indexed ← reads (λ t. lookup source t.vms_by_name)
    v ← indexed_or_inspected indexed source
    save_fork v source name

  -- `ensureForkSnapshot`: the name of the snapshot.
  unfoldable pub ensure_fork_snapshot : String → Io (Reply String)
  ensure_fork_snapshot source = do
    let name = fork_snapshot_name source
    r ← call env env.snapshot (snapshot_inspect name)
    fork_unless r source name
