-- ===== src/Provider/Retry/Backoff.antt =====
-- The delays between the retries of a failed update (retry.go).
use native.Mathlib.Nat.{pow-suc}
use vk_cocoon.Base.{
  ℕ, zero, suc, ◌+◌, ◌*◌, ◌^◌, ◌≤◌, ◌<◌, ◌≡◌, refl, none, some, arith, min, ◌==◌, ltb, eq_iff,
  or_num, if◌then◌else◌,
}
use vk_cocoon.Base.Table.{lookup, lookup-insert_self}
use vk_cocoon.Kube.{Pod, Meta}
use vk_cocoon.Provider.State.{Tables, key_of}
use vk_cocoon.Provider.Retry.{
  next_delay, op_retry_base_delay, op_retry_max_delay, retry_op_later, retry_op,
}

-- The delay after `n` failures in a row, each fed the one before; no failure has no delay.
unfoldable pub delay_after : ℕ → ℕ
delay_after zero = 0
delay_after (suc n) = next_delay (delay_after n)

next_delay-pos : (prev : ℕ) → 0 < prev → next_delay prev ≡ min (prev * 2) op_retry_max_delay
unfolding next_delay
next_delay-pos prev h = or_num_pos (min (prev * 2) op_retry_max_delay) (omega arith)
  where
    or_num_pos : (a : ℕ) → 0 < a → or_num a op_retry_base_delay ≡ a
    or_num_pos zero h = absurd (omega arith)
    or_num_pos (suc a) h = refl

pow_pos : (n : ℕ) → 1 ≤ 2 ^ n
pow_pos zero = omega arith
pow_pos (suc n) = omega (arith, pow_pos n, pow-suc 2 n)

-- The delay after `n + 1` failures in a row is 15 seconds doubled `n` times, capped at 5 minutes.
pub delay_after_lem :
    (n : ℕ) → delay_after (suc n) ≡ min (op_retry_base_delay * 2 ^ n) op_retry_max_delay
unfolding delay_after
delay_after_lem zero = unfold next_delay in refl
delay_after_lem (suc n) =
    let x : ℕ = 2 ^ n in
    omega (
      arith,
      delay_after_lem n,
      pow_pos n,
      pow-suc 2 n,
      next_delay-pos (delay_after (suc n)) (omega (arith, delay_after_lem n, pow_pos n)),
    )

module _ (m : Meta) where
  -- With a pod tracked under the key, a retry put off at time `now` for that incarnation runs with
  -- the tracked pod at any time from `now` plus the next delay on, and at no earlier time; one put
  -- off for another incarnation changes nothing of when a retry runs.
  pub retry_op-retry_op_later :
      (pod tracked : Pod) (prev now later : ℕ) (t : Tables)
      → lookup (key_of m pod) t.pods ≡ some tracked
      → retry_op (key_of m pod) later (retry_op_later m pod prev now t) ≡ (
          if tracked.uid == pod.uid
          then (if ltb later (now + next_delay prev) then none else some tracked)
          else retry_op (key_of m pod) later t)
  unfolding retry_op retry_op_later
  retry_op-retry_op_later pod tracked prev now later t h =
      grind (arith, lookup-insert_self, eq_iff tracked.uid pod.uid)
