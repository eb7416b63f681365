-- ===== src/Provider/Retry.antt =====
-- provider/cocoon/retry.go: the per-pod mutex, and the retries of a failed update with a growing delay.
pub mod Backoff
use vk_cocoon.Base.{
  ℕ, suc, ◌+◌, ◌*◌, Bool, true, false, not, Option, none, some, String, List, [], ◌∷◌, ◌==◌, ltb,
  min, or_num, second, minute, if◌then◌else◌,
}
use vk_cocoon.Base.Table.{Table, lookup, insert, delete}
use vk_cocoon.Kube.{Pod, Meta}
use vk_cocoon.Provider.State.{Tables, OpRetry, key_of}
use vk_cocoon.Provider.Track.{same_uid}

abbrev pub op_retry_base_delay : ℕ
op_retry_base_delay = 15 * second

abbrev pub op_retry_max_delay : ℕ
op_retry_max_delay = 5 * minute

abbrev lock_or_new : String → Option ℕ → Tables → Tables × ℕ
lock_or_new key none t = (
  record t { pod_locks = insert key t.next_object t.pod_locks; next_object = suc t.next_object },
  t.next_object,
)
lock_or_new key (some l) t = (t, l)

-- `podLock`: the mutex of a pod key, made on first use.
unfoldable pub pod_lock : String → Tables → Tables × ℕ
pod_lock key t = lock_or_new key (lookup key t.pod_locks) t

abbrev delay_or_zero : Option OpRetry → ℕ
delay_or_zero none = 0
delay_or_zero (some r) = r.delay

-- `takeOpRetry`: the last delay, 0 if none is recorded; the record is gone afterwards.
unfoldable pub take_op_retry : String → Tables → Tables × ℕ
take_op_retry key t =
    (record t { op_retries = delete key t.op_retries }, delay_or_zero (lookup key t.op_retries))

-- The delay of `retryOpLater` from the previous one.
unfoldable pub next_delay : ℕ → ℕ
next_delay prev = or_num (min (prev * 2) op_retry_max_delay) op_retry_base_delay

module _ (m : Meta) where
  -- `retryOpLater` at time `now`: recorded for the tracked incarnation only.
  unfoldable pub retry_op_later : Pod → ℕ → ℕ → Tables → Tables
  unfolding next_delay
  retry_op_later pod prev now t =
      let delay = next_delay prev in
      if same_uid pod.uid (lookup (key_of m pod) t.pods)
      then record t {
        op_retries =
            insert (key_of m pod) (record { delay = delay; due = now + delay }) t.op_retries;
      }
      else t

-- The keys that `retryDueOps` starts at time `now`.
unfoldable pub due_keys : ℕ → Table OpRetry → List String
due_keys now [] = []
due_keys now ((key, r) ∷ rest) =
    let others = due_keys now rest in if not (ltb now r.due) then key ∷ others else others

abbrev retry_of : ℕ → Option OpRetry → Option Pod → Option Pod
retry_of now none tracked = none
retry_of now (some r) tracked = if ltb now r.due then none else tracked

-- `retryOp`, once it holds the mutex: the pod whose update is run again, if any.
unfoldable pub retry_op : String → ℕ → Tables → Option Pod
retry_op key now t = retry_of now (lookup key t.op_retries) (lookup key t.pods)
