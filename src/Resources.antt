-- ===== src/Resources.antt =====
-- The arithmetic of resources: the CPU policy of a VM (provider/cocoon/create.go), the share of the
-- node that is offered to pods (provider/capacity.go) and the netmask of a prefix length
-- (provider/cocoon/postclone.go). A quantity is its milli-value, an int64 that is not negative.
pub mod Bounds
use vk_cocoon.Base.{
  ℕ, zero, suc, ◌+◌, ◌-◌, ◌*◌, ◌/◌, ◌%◌, ◌^◌, ◌||◌, Bool, true, false, Option, none, some, String,
  min, max, ltb, leb, nat_eq, if◌then◌else◌,
}
use vk_cocoon.Base.Table.{Table, lookup}

abbrev pub cpu_period_us : ℕ
cpu_period_us = 100_000

abbrev pub min_quota_us : ℕ
min_quota_us = 1000

abbrev pub min_cpu_shares : ℕ
min_cpu_shares = 2

abbrev pub max_cpu_shares : ℕ
max_cpu_shares = 262_144

-- The product of two int64 over a divisor, where the product may wrap around. A negative one stands
-- as 0: the source takes the maximum of it and a positive number.
unfoldable pub mul_div : ℕ → ℕ → ℕ → ℕ
mul_div a b d =
    let p = (a * b) % 18446744073709551616 in if ltb p 9223372036854775808 then p / d else 0

-- `cpuWeightFromMilli`.
unfoldable pub cpu_weight_from_milli : ℕ → ℕ
cpu_weight_from_milli milli =
    let shares = min (max (mul_div milli 1024 1000) min_cpu_shares) max_cpu_shares in
    1 + (shares - min_cpu_shares) * 9999 / (max_cpu_shares - min_cpu_shares)

-- The resource lists of a pod's first container.
pub record Resources : Type 0 where
  pub limits : Table ℕ
  pub requests : Table ℕ

abbrev or_zero : Option ℕ → ℕ → ℕ
or_zero none rest = rest
or_zero (some zero) rest = rest
or_zero (some (suc q)) rest = suc q

-- `selectQuantity`.
unfoldable pub select_quantity : Table ℕ → Table ℕ → String → ℕ
select_quantity primary fallback name =
    or_zero (lookup name primary) (or_zero (lookup name fallback) 0)

-- `quantityCPURoundUp`: the sum may wrap around to a negative number, which Go's quotient keeps
-- negative. Such a number stands as 0.
unfoldable pub quantity_cpu_round_up : ℕ → ℕ
quantity_cpu_round_up zero = 0
quantity_cpu_round_up (suc m) =
    if ltb (suc m + 999) 9223372036854775808 then (suc m + 999) / 1000 else 0

-- `vmResourceOverrides`: the vCPU count and the memory; zero stands for no argument.
unfoldable pub vm_resource_overrides : Option Resources → ℕ × ℕ
vm_resource_overrides none = (0, 0)
vm_resource_overrides (some r) = (
  quantity_cpu_round_up (select_quantity r.limits r.requests "cpu"),
  select_quantity r.requests r.limits "memory",
)

pub record CpuPolicy : Type 0 where
  pub cpu_weight : ℕ
  pub cpu_quota_us : ℕ
  pub cpu_period : ℕ

abbrev pub with_limit : ℕ → ℕ → CpuPolicy
with_limit zero weight = record { cpu_weight = weight; cpu_quota_us = 0; cpu_period = 0 }
with_limit (suc l) weight = record {
  cpu_weight = weight;
  cpu_quota_us = max (mul_div (suc l) cpu_period_us 1000) min_quota_us;
  cpu_period = cpu_period_us;
}

-- `podCPUPolicy`.
unfoldable pub pod_cpu_policy : Option Resources → CpuPolicy
pod_cpu_policy none = record { cpu_weight = 0; cpu_quota_us = 0; cpu_period = 0 }
pod_cpu_policy (some r) =
    with_limit (or_zero (lookup "cpu" r.limits) 0)
      (cpu_weight_from_milli (select_quantity r.requests r.limits "cpu"))

-- `reserveQuantity`: what is left of a quantity when `pct` percent of it are kept back, in whole
-- units. The source multiplies big integers.
unfoldable pub reserve_quantity : ℕ → ℕ → ℕ
reserve_quantity milli pct = milli * (100 - pct) / 100_000

-- The octets of `prefixToSubnet`; the shift of a uint32 drops the bits beyond the 32nd.
unfoldable pub prefix_to_subnet : ℕ → ℕ × ℕ × ℕ × ℕ
prefix_to_subnet prefix =
    if nat_eq prefix 0 || ltb 32 prefix
    then (255, 255, 255, 0)
    else let mask = (4_294_967_295 * 2 ^ (32 - prefix)) % 4_294_967_296 in
      (mask / 16_777_216, (mask / 65_536) % 256, (mask / 256) % 256, mask % 256)
