-- ===== src/Provider/Flush.antt =====
-- provider/cocoon/lifecycle.go and provider.go: writing annotations to the apiserver, with retries and
-- the fences against a newer incarnation or a newer intent.
pub mod Fence
pub mod Outage
use vk_cocoon.Base.{
  ℕ, zero, suc, Bool, true, false, ◌||◌, Option, none, some, String, List, millisecond, ◌*◌,
  if◌then◌else◌,
}
use vk_cocoon.Base.Table.{Table}
use vk_cocoon.Kube.{Pod, Meta, LifecycleState, LifecycleStatus}
use vk_cocoon.Provider.State.{Tables, Settings, key_of}
use vk_cocoon.Provider.Lifecycle.{
  Write, apply_lifecycle, lifecycle_owned, record_lifecycle_flushed, drop_superseded_lifecycle,
}
use vk_cocoon.Provider.World.{
  Env, Io, Effect, ApiReply, accepted, absent, conflict, invalid, refused, patch_annotations, sleep,
  ◌>>=◌, ◌>>◌, pure, locked, reads, section, call,
}

abbrev pub lifecycle_patch_attempts : ℕ
lifecycle_patch_attempts = 3

abbrev pub lifecycle_patch_interval : ℕ
lifecycle_patch_interval = 500 * millisecond

unfoldable pub name_taken : ApiReply → Bool
name_taken invalid = true
name_taken conflict = true
name_taken _ = false

abbrev is_absent : ApiReply → Bool
is_absent absent = true
is_absent _ = false

-- The pod's name belongs to another incarnation, or to none.
unfoldable pub patch_superseded : ApiReply → Bool
unfolding name_taken
patch_superseded r = name_taken r || is_absent r

abbrev pub is_accepted : ApiReply → Bool
is_accepted accepted = true
is_accepted _ = false

-- The way a flush ended; the Go function returns nothing.
pub data FlushEnd : Type 0 where
  not_owned flushed overtaken cancelled exhausted : FlushEnd

module _ (m : Meta) (settings : Settings) (env : Env) where
  -- `patchIncarnationAnnotations` through `patchPod`: no client, no call.
  unfoldable pub patch_incarnation_annotations :
      String → String → Table (Option String) → Io ApiReply
  patch_incarnation_annotations key uid annos =
      if settings.has_clientset
      then call env env.api (patch_annotations key uid annos)
      else pure accepted

  -- `patchWithRetry`, with the number of tries left; a cancelled sleep counts as success.
  unfoldable pub patch_with_retry : ℕ → Io ApiReply → Io ApiReply
  patch_with_retry zero fn = pure accepted
  patch_with_retry (suc zero) fn = fn
  patch_with_retry (suc (suc n)) fn = do
    r ← fn
    elim (is_accepted r || patch_superseded r) [
      | true ↦ pure r
      | false ↦ do
        slept ← call env env.awake (sleep lifecycle_patch_interval)
        elim slept [ true ↦ patch_with_retry (suc n) fn | false ↦ pure accepted ]
    ]

  -- What follows a patch that failed for another reason than a newer incarnation.
  abbrev retry_flush : ℕ → Io FlushEnd → Io FlushEnd
  retry_flush zero again = pure exhausted
  retry_flush (suc n) again = do
    slept ← call env env.awake (sleep lifecycle_patch_interval)
    elim slept [ true ↦ again | false ↦ pure cancelled ]

  -- The loop of `flushLifecycle`, with the number of tries left.
  unfoldable pub flush_attempts : ℕ → String → String → Table (Option String) → String → Io FlushEnd
  flush_attempts zero key uid annos snap = pure exhausted
  flush_attempts (suc n) key uid annos snap = do
    owned ← reads (lifecycle_owned m key uid snap)
    elim owned [
      | false ↦ pure not_owned
      | true ↦ do
        r ← patch_incarnation_annotations key uid annos
        elim (is_accepted r) [
          | true ↦ do locked (record_lifecycle_flushed m key uid snap); pure flushed
          | false ↦ elim (patch_superseded r) [
            | true ↦ do locked (drop_superseded_lifecycle m key uid snap); pure overtaken
            | false ↦ retry_flush n (flush_attempts n key uid annos snap)
          ]
        ]
    ]

  unfoldable pub flush_lifecycle : String → String → LifecycleStatus → Io FlushEnd
  flush_lifecycle key uid status =
      flush_attempts lifecycle_patch_attempts key uid (m.status_annotations status)
        (m.status_snapshot status)

  abbrev set_state : Pod → LifecycleState → String → Tables → Tables × Write
  set_state pod state message t = let w = apply_lifecycle m pod state message t in (w.tables, w)

  -- `markLifecycleState`: the pod as it is stamped.
  unfoldable pub mark_lifecycle_state : Pod → LifecycleState → String → Io Pod
  mark_lifecycle_state pod state message = do
    w ← section (set_state pod state message)
    elim w.applied [
      | false ↦ pure w.pod
      | true ↦ do _ ← flush_lifecycle (key_of m pod) pod.uid w.status; pure w.pod
    ]
