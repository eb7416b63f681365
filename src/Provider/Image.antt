-- ===== src/Provider/Image.antt =====
-- provider/cocoon/create.go: the images and the options of a boot. A flight of `singleflight` is run
-- by the caller that asks for it; one that joins another's flight gets that flight's answer.
use text.Mathlib.Text.{starts_with}
use vk_cocoon.Base.{
  Bool, true, false, not, ◌||◌, Option, none, some, String, ◌==◌, is_empty, if◌then◌else◌,
}
use Prim.Native.String.{◌++◌ as append_text}
use vk_cocoon.Kube.{VmSpec, Meta}
use vk_cocoon.Resources.{CpuPolicy}
use vk_cocoon.Vm.{Reply, ok, not_found, err, Snapshot, RestoreMode, CloneOptions}
use vk_cocoon.Provider.State.{Settings}
use vk_cocoon.Provider.World.{
  Env, Io, ImageKind, image_inspect, get_image_manifest, ensure_image, ensure_cloud_image, ◌>>=◌,
  pure, call,
}

unfoldable pub is_http_url : String → Bool
is_http_url ref = starts_with ref "http://" || starts_with ref "https://"

-- `restoreModeFor`.
unfoldable pub restore_mode_for : Meta → RestoreMode → String → RestoreMode
restore_mode_for m mode os = if os == m.os_windows then RestoreMode.copy else mode

abbrev pub is_done : Reply (Unit {0}) → Bool
is_done (ok _) = true
is_done _ = false

-- A value that counts where the call succeeded.
abbrev when_done {ℓ} : {A : Type ℓ} → A → Reply (Unit {0}) → Reply A
when_done a (ok _) = ok a
when_done a not_found = not_found
when_done a (err e) = err e

module _ (m : Meta) (settings : Settings) where
  -- `cloneOptionsFor`.
  unfoldable pub clone_options_for : VmSpec → CpuPolicy → CloneOptions
  clone_options_for spec policy = record {
    from = "";
    to = spec.vm_name;
    network = spec.network;
    backend = spec.backend;
    no_direct_io = spec.no_direct_io;
    pull = false;
    restore_mode = restore_mode_for m settings.restore_mode spec.os;
    cpu_policy = policy;
    from_dir = "";
    nics = none;
  }

module _ (m : Meta) (settings : Settings) (env : Env) where
  abbrev pull_natively : String → Bool → Io (Reply String)
  pull_natively image force = do
    r ← call env env.done (ensure_image image force)
    pure (when_done image r)

  abbrev by_kind : Option ImageKind → String → Bool → Io (Reply String)
  by_kind (some ImageKind.cloud_image) image force = do
    let (repo, tag) = m.parse_ref image
    let local = append_text repo (append_text ":" tag)
    r ← call env env.done (ensure_cloud_image local force)
    pure (when_done local r)
  by_kind (some ImageKind.snapshot_image) image force =
      pure (err (append_text image " is a snapshot artifact"))
  by_kind (some ImageKind.other_image) image force = pull_natively image force
  by_kind none image force = pull_natively image force

  -- `resolveRunImage`: the reference that a boot uses.
  unfoldable pub resolve_run_image : String → Bool → Io (Reply String)
  resolve_run_image image force =
      elim (not settings.has_puller || not settings.puller_has_registry || is_http_url image) [
        | true ↦ pull_natively image force
        | false ↦ do
          let (repo, tag) = m.parse_ref image
          kind ← call env env.image_kind (get_image_manifest repo tag)
          by_kind kind image force
      ]

  -- `ensureRunImage`.
  unfoldable pub ensure_run_image : String → Bool → Io (Reply String)
  ensure_run_image image force =
      if is_empty image then pure (ok image) else resolve_run_image image force

  abbrev is_present : String → Io Bool
  is_present digest = elim (is_empty digest) [
    | true ↦ pure false
    | false ↦ do r ← call env env.done (image_inspect digest); pure (is_done r)
  ]

  abbrev base_error : String → Reply String → Option String
  base_error image (ok _) = none
  base_error image not_found =
      some (append_text "ensure snapshot base image " (append_text image ": not found"))
  base_error image (err e) =
      some (append_text "ensure snapshot base image " (append_text image (append_text ": " e)))

  -- `ensureSnapshotBaseImage`: the result is its error.
  unfoldable pub ensure_snapshot_base_image : Option Snapshot → Io (Option String)
  ensure_snapshot_base_image none = pure none
  ensure_snapshot_base_image (some s) = elim (is_empty s.image || is_http_url s.image) [
    | true ↦ pure none
    | false ↦ do
      present ← is_present s.image_digest
      elim present [
        | true ↦ pure none
        | false ↦ do r ← ensure_run_image s.image false; pure (base_error s.image r)
      ]
  ]
