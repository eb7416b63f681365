-- ===== src/Provider/Reclaim.antt =====
-- provider/cocoon/gc.go: which local snapshots are dropped because no pod of the node needs them.
pub mod Unused
use Prim.Native.String.{◌++◌ as append_text, len, slice}
use text.Mathlib.Text.{starts_with, find?}
use vk_cocoon.Base.{
  ℕ, ◌-◌, Bool, true, false, not, ◌&&◌, ◌||◌, Option, none, some, String, List, [], ◌∷◌, ◌==◌, leb,
  is_some, if◌then◌else◌,
}
use vk_cocoon.Base.Seq.{exists}
use vk_cocoon.Base.Table.{Table}
use vk_cocoon.Kube.{Pod, Meta}
use vk_cocoon.Vm.{Reply, ok, not_found, err, Snapshot}
use vk_cocoon.Provider.State.{Settings}
use vk_cocoon.Provider.Delete.{remove_local_snapshots}
use vk_cocoon.Provider.Source.{Verdict, current, stale, unverified, verify_local_snapshot}
use vk_cocoon.Provider.Prepare.{local_snapshot_name}
use vk_cocoon.Provider.World.{
  Env, Io, snapshot_list, snapshot_remove, ◌>>=◌, ◌>>◌, pure, reads, call, tell,
}

-- `cloneSourceDescription` (create.go) marks a snapshot that was pulled to clone from.
abbrev pub clone_source_description : String
clone_source_description = "vk-cocoon clone source"

-- `strings.CutSuffix`.
unfoldable pub cut_suffix : String → String → String × Bool
cut_suffix s suffix =
    let rest = len s - len suffix in
    if leb (len suffix) (len s) && slice s rest (len s) == suffix
    then (slice s 0 rest, true)
    else (s, false)

-- `strings.Contains`.
abbrev includes : String → String → Bool
includes s part = is_some (find? s part)

module _ (m : Meta) where
  -- `snapshotNamesInUse`: the VM of each pod, and the snapshot that its image names.
  unfoldable pub snapshot_names_in_use : Table Pod → List String
  snapshot_names_in_use [] = []
  snapshot_names_in_use ((key, pod) ∷ pods) =
      let spec = m.parse_vm_spec pod in
      let (repo, tag) = m.parse_ref spec.image in
      spec.vm_name ∷ local_snapshot_name m repo tag ∷ snapshot_names_in_use pods

  -- The VM name that a snapshot's name stands for.
  unfoldable pub vm_name_of : Snapshot → String
  vm_name_of s = (cut_suffix s.name m.hibernate_import_suffix).0

  abbrev is_import : Snapshot → Bool
  is_import s = (cut_suffix s.name m.hibernate_import_suffix).1

  abbrev is_pulled : Snapshot → Bool
  is_pulled s = s.description == clone_source_description

  abbrev is_used : List String → String → Bool
  is_used names name = exists (λ n. n == name) names

  -- No pod uses it, and it is one that the provider made.
  unfoldable pub is_unused : List String → Snapshot → Bool
  is_unused names s =
      not (is_used names (vm_name_of s)) && (is_pulled s || starts_with (vm_name_of s) "vk-")

  -- A copy that can be pulled again.
  unfoldable pub is_copy : Snapshot → Bool
  is_copy s = is_import s || is_pulled s || includes (vm_name_of s) ":"

module _ (m : Meta) (settings : Settings) (env : Env) where
  abbrev pub drop_stale : Verdict → Snapshot → Io (Unit {0})
  drop_stale (stale man id) s = remove_local_snapshots m settings env (vm_name_of m s)
  drop_stale current s = pure tt
  drop_stale (unverified e) s = pure tt

  unfoldable pub reclaim_one : List String → Snapshot → Io (Unit {0})
  reclaim_one names s = elim (is_unused m names s) [
    | false ↦ pure tt
    | true ↦ elim (is_copy m s) [
      | true ↦ tell env (snapshot_remove s.name)
      | false ↦ do v ← verify_local_snapshot m settings env (vm_name_of m s) s; drop_stale v s
    ]
  ]

  unfoldable pub reclaim_each : List String → List Snapshot → Io (Unit {0})
  reclaim_each names [] = pure tt
  reclaim_each names (s ∷ rest) = do reclaim_one names s; reclaim_each names rest

  abbrev pub reclaim_listed : Reply (List Snapshot) → Io (Unit {0})
  reclaim_listed (ok listed) = do
    names ← reads (λ t. snapshot_names_in_use m t.pods)
    reclaim_each names listed
  reclaim_listed not_found = pure tt
  reclaim_listed (err e) = pure tt

  -- `reclaimLocalSnapshots`.
  unfoldable pub reclaim_local_snapshots : Io (Unit {0})
  reclaim_local_snapshots = do r ← call env env.snapshots snapshot_list; reclaim_listed r
