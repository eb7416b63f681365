-- ===== src/Provider/Lifecycle.antt =====
-- provider/cocoon/lifecycle.go: the critical sections on the lifecycle intents. Each takes the tables
-- and gives them back with what the Go function returns; `pod` is the caller's object.
pub mod Writes
pub mod Sticky
use vk_cocoon.Base.{
  ℕ, Bool, true, false, not, ◌&&◌, ◌||◌, Option, none, some, String, List, [], ◌∷◌, ◌==◌, is_empty,
  nat_eq, ltb, leb, max, if◌then◌else◌, is_some,
}
use vk_cocoon.Base.Table.{Table, lookup, insert, delete, contains}
use vk_cocoon.Kube.{
  Pod, Meta, LifecycleState, LifecycleStatus, is_failed, creating, hibernating, failed, unset,
}
use vk_cocoon.Provider.State.{Tables, LifecycleEntry, key_of}
use vk_cocoon.Provider.Track.{other_uid}

-- The outcome of a lifecycle write: the tables, the caller's pod, the status and whether it applied.
pub record Write : Type 0 where
  pub tables : Tables
  pub pod : Pod
  pub status : LifecycleStatus
  pub applied : Bool

-- Only Creating, Hibernating and Failed itself may follow a Failed of the same generation.
abbrev pub may_clear_failed : LifecycleState → Bool
may_clear_failed creating = true
may_clear_failed hibernating = true
may_clear_failed failed = true
may_clear_failed _ = false

abbrev is_unset : LifecycleState → Bool
is_unset unset = true
is_unset _ = false

module _ (m : Meta) where
  abbrev generation_with : ℕ → Option Pod → ℕ
  generation_with gen none = gen
  generation_with gen (some tracked) = max gen (m.read_generation tracked)

  -- The generation of a write: the tracked pod's is always fresher than an old pointer's.
  unfoldable pub write_generation : Pod → Tables → ℕ
  write_generation pod t = generation_with (m.read_generation pod) (lookup (key_of m pod) t.pods)

  abbrev stamp_other : String → LifecycleStatus → Pod → Option Pod → Table Pod → Table Pod
  stamp_other key status pod none pods = pods
  stamp_other key status pod (some tracked) pods = insert key (m.apply_status status tracked) pods

  -- The intent of another incarnation, while nothing is tracked, or of a later generation of this
  -- one, or a sticky Failed of the same generation.
  abbrev intent_rejects : String → LifecycleStatus → Bool → Option LifecycleEntry → Bool
  intent_rejects uid status tracked none = false
  intent_rejects uid status tracked (some cur) =
      if cur.uid == uid
      then ltb status.observed_generation cur.status.observed_generation
        || (is_failed cur.status.state
            && not (may_clear_failed status.state)
            && nat_eq status.observed_generation cur.status.observed_generation)
      else not tracked

  -- `applyLifecycleLocked`. Both pods are stamped: the tracked one is the caller's own object, or
  -- is kept in step with it.
  unfoldable pub apply_lifecycle : Pod → LifecycleState → String → Tables → Write
  unfolding write_generation
  apply_lifecycle pod state message t =
      let key = key_of m pod in
      let tracked = lookup key t.pods in
      let status : LifecycleStatus = record {
        state = state;
        observed_generation = write_generation pod t;
        message = message;
      } in
      let stale : LifecycleStatus = record {
        state = state;
        observed_generation = m.read_generation pod;
        message = message;
      } in
      if other_uid pod.uid tracked
      then record { tables = t; pod = pod; status = stale; applied = false }
      else if intent_rejects pod.uid status (is_some tracked) (lookup key t.lifecycle_intent)
      then record { tables = t; pod = pod; status = status; applied = false }
      else record {
        tables = record t {
          lifecycle_intent =
              insert key (record { uid = pod.uid; status = status; flushed = "" })
                t.lifecycle_intent;
          pods = stamp_other key status pod tracked t.pods;
        };
        pod = m.apply_status status pod;
        status = status;
        applied = true;
      }

  -- `seedLifecycleIntentFromPod`.
  unfoldable pub seed_lifecycle_intent : Pod → Tables → Tables
  seed_lifecycle_intent pod t =
      if is_unset (m.read_lifecycle_state pod)
      then t
      else let status = m.read_lifecycle_status pod in
        record t {
          lifecycle_intent =
              insert (key_of m pod)
                (record { uid = pod.uid; status = status; flushed = m.status_snapshot status })
                t.lifecycle_intent;
        }

  abbrev republish_entry : Option LifecycleEntry → Pod → Tables → Write
  republish_entry none pod t = record {
    tables = t;
    pod = pod;
    status = m.read_lifecycle_status pod;
    applied = false;
  }
  republish_entry (some cur) pod t =
      if not (cur.uid == pod.uid) || leb (m.read_generation pod) cur.status.observed_generation
      then record { tables = t; pod = pod; status = cur.status; applied = false }
      else apply_lifecycle pod cur.status.state cur.status.message t

  -- The locked part of `republishLifecycleOnGenerationBump`; the caller flushes when it applied.
  unfoldable pub republish_on_generation_bump : Pod → Tables → Write
  republish_on_generation_bump pod t =
      republish_entry (lookup (key_of m pod) t.lifecycle_intent) pod t

  abbrev entry_owned : String → String → Option LifecycleEntry → Bool
  entry_owned uid snap none = false
  entry_owned uid snap (some cur) = cur.uid == uid && m.status_snapshot cur.status == snap

  -- `lifecycleOwnedLocked`.
  unfoldable pub lifecycle_owned : String → String → String → Tables → Bool
  lifecycle_owned key uid snap t = entry_owned uid snap (lookup key t.lifecycle_intent)

  abbrev flush_entry : String → String → Option LifecycleEntry → Tables → Tables
  flush_entry key snap none t = t
  flush_entry key snap (some cur) t = record t {
    lifecycle_intent = insert key (record cur { flushed = snap }) t.lifecycle_intent;
  }

  unfoldable pub record_lifecycle_flushed : String → String → String → Tables → Tables
  unfolding lifecycle_owned
  record_lifecycle_flushed key uid snap t =
      if lifecycle_owned key uid snap t
      then flush_entry key snap (lookup key t.lifecycle_intent) t
      else t

  unfoldable pub drop_superseded_lifecycle : String → String → String → Tables → Tables
  unfolding lifecycle_owned
  drop_superseded_lifecycle key uid snap t =
      if lifecycle_owned key uid snap t
      then record t { lifecycle_intent = delete key t.lifecycle_intent }
      else t

  abbrev stamp_entry : Option LifecycleEntry → Pod → Pod
  stamp_entry none pod = pod
  stamp_entry (some cur) pod = if cur.uid == pod.uid then m.apply_status cur.status pod else pod

  -- `stampLifecycleIntentLocked`: the copy that `notify` hands over carries the intent.
  unfoldable pub stamp_lifecycle_intent : Pod → Tables → Pod
  stamp_lifecycle_intent pod t = stamp_entry (lookup (key_of m pod) t.lifecycle_intent) pod

  abbrev entry_failed : String → Option LifecycleEntry → Bool
  entry_failed uid none = false
  entry_failed uid (some cur) = cur.uid == uid && is_failed cur.status.state

  -- `lifecycleAlreadyFailed` (observability.go).
  unfoldable pub lifecycle_already_failed : Pod → Tables → Bool
  lifecycle_already_failed pod t = entry_failed pod.uid (lookup (key_of m pod) t.lifecycle_intent)

  -- The rows that `reconcileAllLifecycle` flushes again: the intent is not the flushed one.
  unfoldable pub drifts : Table LifecycleEntry → Table LifecycleEntry
  drifts [] = []
  drifts ((key, intent) ∷ rest) =
      let others = drifts rest in
      if intent.flushed == m.status_snapshot intent.status then others else (key, intent) ∷ others
