-- ===== src/Provider/Dispatch.antt =====
-- provider/cocoon/create.go: `CreatePod`, which claims the pod's key and hands the pod on to the
-- create of its kind of guest.
use vk_cocoon.Base.{Bool, true, false, Option, none, some, is_empty, if◌then◌else◌}
use vk_cocoon.Kube.{Pod, VmSpec, Meta, LifecycleState}
use vk_cocoon.Spec.{is_macos_spec}
use vk_cocoon.Provider.State.{Tables, Settings}
use vk_cocoon.Provider.Track.{track_pod_unless_deleting}
use vk_cocoon.Provider.Flush.{mark_lifecycle_state}
use vk_cocoon.Provider.Evidence.{Compatibility, compatible, assert_pod_snapshot_compatibility}
use vk_cocoon.Provider.World.{Env, Io, ◌>>=◌, pure, section}
use vk_cocoon.Provider.Create.{CreateError, unnamed, in_flight, incompatible, create_cloud_pod}
use vk_cocoon.Provider.Macos.Create.{create_macos_pod}

module _ (m : Meta) (settings : Settings) (env : Env) where
  abbrev claim_section : Pod → Tables → Tables × (Pod × Bool)
  claim_section pod t = let r = track_pod_unless_deleting m pod none t in (r.0, (r.1, r.2))

  abbrev pub create_claimed : Pod × Bool → VmSpec → Io (Option CreateError)
  create_claimed (pod, false) spec = pure (some in_flight)
  create_claimed (pod, true) spec = do
    pod' ← mark_lifecycle_state m settings env pod LifecycleState.creating ""
    elim (is_macos_spec m spec) [
      | true ↦ create_macos_pod m settings env pod' spec
      | false ↦ create_cloud_pod m settings env pod' spec
    ]

  abbrev pub create_compatible : Compatibility → Pod → VmSpec → Io (Option CreateError)
  create_compatible compatible pod spec = do r ← section (claim_section pod); create_claimed r spec
  create_compatible c pod spec = pure (some (incompatible c))

  -- `CreatePod`.
  unfoldable pub create_pod : Pod → Io (Option CreateError)
  create_pod pod =
      let spec = m.parse_vm_spec pod in
      if is_empty spec.vm_name
      then pure (some unnamed)
      else create_compatible (assert_pod_snapshot_compatibility m settings pod) pod spec
