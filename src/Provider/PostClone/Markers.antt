-- ===== src/Provider/PostClone/Markers.antt =====
-- provider/cocoon/postclone.go: the markers of a post-clone setup, and an annotation of a pod.
use vk_cocoon.Base.{
  Bool, true, false, not, ◌&&◌, Option, none, some, String, ◌==◌, if◌then◌else◌, ◌∷◌, [],
}
use vk_cocoon.Base.Table.{lookup, insert}
use vk_cocoon.Kube.{Pod, Meta}
use vk_cocoon.Spec.{text_at, annotation_post_clone_state}
use vk_cocoon.Provider.State.{Tables, Settings, key_of}
use vk_cocoon.Provider.Track.{is_superseded}
use vk_cocoon.Provider.Flush.{patch_incarnation_annotations}
use vk_cocoon.Provider.Runtime.{store_pod}
use vk_cocoon.Provider.World.{Env, Io, ◌>>=◌, ◌>>◌, pure, locked, reads, section}

module _ (m : Meta) where
  abbrev pub mark_on : String → Pod → Pod
  mark_on state target = record target {
    annotations = insert annotation_post_clone_state state target.annotations;
  }

  abbrev keeps_failed : String → Pod → Bool
  keeps_failed state target =
      not (state == "failed") && text_at annotation_post_clone_state target.annotations == "failed"

  abbrev target_of : Option Pod → Pod → Pod
  target_of (some tracked) pod = tracked
  target_of none pod = pod

  abbrev write_marker : Option Pod → String → Pod → Tables → Tables × Bool
  write_marker none state pod t = (t, not (keeps_failed state pod))
  write_marker (some tracked) state pod t =
      if keeps_failed state tracked
      then (t, false)
      else (record t { pods = insert (key_of m pod) (mark_on state tracked) t.pods }, true)

  unfoldable pub marker_section : String → Pod → Tables → Tables × Bool
  marker_section state pod t =
      if is_superseded (key_of m pod) pod.uid t
      then (t, false)
      else write_marker (lookup (key_of m pod) t.pods) state pod t

module _ (m : Meta) (settings : Settings) (env : Env) where
  -- `markPostCloneState`: a failed marker is not overwritten by another one. The marker goes to the
  -- tracked pod.
  unfoldable pub mark_post_clone_state : Pod → String → Io (Unit {0})
  mark_post_clone_state pod state = do
    written ← section (marker_section m state pod)
    elim written [
      | false ↦ pure tt
      | true ↦ do
        _ ←
            patch_incarnation_annotations m settings env (key_of m pod) pod.uid
              ((annotation_post_clone_state, some state) ∷ [])
        pure tt
    ]

  -- `setPodAnnotation`.
  unfoldable pub set_pod_annotation : Pod → String → String → Io Pod
  set_pod_annotation pod name value = do
    taken ← reads (is_superseded (key_of m pod) pod.uid)
    elim taken [
      | true ↦ pure pod
      | false ↦ do
        let pod' = record pod { annotations = insert name value pod.annotations }
        locked (store_pod (key_of m pod) pod')
        _ ←
            patch_incarnation_annotations m settings env (key_of m pod) pod.uid
              ((name, some value) ∷ [])
        pure pod'
    ]
