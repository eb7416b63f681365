-- ===== src/Resources/Bounds.antt =====
-- The bounds of the resource arithmetic (provider/cocoon/create.go, provider/capacity.go,
-- provider/cocoon/postclone.go).
use vk_cocoon.Base.{
  ℕ, zero, suc, ◌+◌, ◌-◌, ◌*◌, ◌/◌, ◌^◌, ◌≤◌, ◌<◌, ◌≡◌, ◌⊎◌, inl, inr, refl, ap, ◌∙◌, Bool-cases,
  arith, ◌&&◌, Bool, true, Option, none, some, leb, nat_eq, max,
}
use vk_cocoon.Base.Table.{Table}
use vk_cocoon.Resources.{
  Resources, CpuPolicy, cpu_weight_from_milli, mul_div, quantity_cpu_round_up, reserve_quantity,
  prefix_to_subnet,
}

-- A CPU request below 2 ^ 53 milli-CPUs, whose products do not wrap around.
abbrev pub FitsInt64 : ℕ → Type 0
FitsInt64 milli = milli < 9007199254740992

-- The weight of any request is one that cgroup v2 accepts, 1 to 10000.
pub cpu_weight-bounds :
    (milli : ℕ) → (1 ≤ cpu_weight_from_milli milli) × (cpu_weight_from_milli milli ≤ 10000)
unfolding cpu_weight_from_milli
cpu_weight-bounds milli = ground arith

mul_div-exact : (a : ℕ) → FitsInt64 a → mul_div a 1024 1000 ≡ a * 1024 / 1000
unfolding mul_div
mul_div-exact a h = ground arith

-- Of two requests that do not overflow an int64, the greater has no smaller weight.
pub cpu_weight-monotone :
    (a b : ℕ) → FitsInt64 b → a ≤ b → cpu_weight_from_milli a ≤ cpu_weight_from_milli b
unfolding cpu_weight_from_milli
cpu_weight-monotone a b h le = ground (arith, mul_div-exact a, mul_div-exact b)

-- What a resource list names, or zero; the first of two numbers that is not zero.
abbrev pub or_none : Option ℕ → ℕ
or_none none = 0
or_none (some q) = q

abbrev pub first_of : ℕ → ℕ → ℕ
first_of zero b = b
first_of (suc a) b = suc a

-- The quota that a CPU limit in milli-CPUs asks for: none for no limit, and else for periods of 100
-- milliseconds the microseconds of the limit, a thousand at least, unless an int64 wraps around.
abbrev pub Limits : ℕ → CpuPolicy → Type 0
Limits zero p = (p.cpu_quota_us ≡ 0) × (p.cpu_period ≡ 0)
Limits (suc l) p =
    (p.cpu_period ≡ 100_000)
    × (1000 ≤ p.cpu_quota_us)
    × ((p.cpu_quota_us ≡ max 1000 (suc l * 100)) ⊎ (9223372036854775808 ≤ suc l * 100_000))

-- The vCPU count covers the request, by less than one CPU too many.
pub quantity_cpu_round_up-covers :
    (milli : ℕ)
    → FitsInt64 milli
    → (milli ≤ quantity_cpu_round_up milli * 1000)
      × (quantity_cpu_round_up milli * 1000 < milli + 1000)
unfolding quantity_cpu_round_up
quantity_cpu_round_up-covers zero h = ground arith
quantity_cpu_round_up-covers (suc m) h = ground arith

shares_sum : (m a b : ℕ) → m * a + m * b ≡ m * (a + b)
shares_sum zero a b = ground arith
shares_sum (suc m) a b = ground (arith, shares_sum m a b)

percents : (m pct : ℕ) → pct ≤ 100 → m * (100 - pct) + m * (100 - (100 - pct)) ≡ m * 100
percents m pct h =
    let e : (100 - pct) + (100 - (100 - pct)) ≡ 100 = ground arith in
    shares_sum m (100 - pct) (100 - (100 - pct)) ∙ ap (λ x. m * x) e

-- What is offered with `pct` percent kept back, and what is offered with the other percents kept
-- back, are together no more than the whole.
pub reserve_quantity-split :
    (milli pct : ℕ)
    → pct ≤ 100
    → (reserve_quantity milli pct + reserve_quantity milli (100 - pct)) * 1000 ≤ milli
unfolding reserve_quantity
reserve_quantity-split milli pct h = omega (arith, percents milli pct h)

-- The number that four octets spell.
unfoldable pub number_of : ℕ × ℕ × ℕ × ℕ → ℕ
number_of (a, b, c, d) = a * 16_777_216 + b * 65_536 + c * 256 + d

-- Whether the mask of the prefix length has that many leading ones, on one length and up to a bound.
unfoldable is_mask : ℕ → Bool
is_mask p = nat_eq (number_of (prefix_to_subnet p) + 2 ^ (32 - p)) 4_294_967_296

unfoldable are_masks : ℕ → Bool
are_masks zero = true
are_masks (suc p) = is_mask (suc p) && are_masks p

are_masks-is_mask : (n p : ℕ) → are_masks n ≡ true → 1 ≤ p → p ≤ n → is_mask p ≡ true
unfolding are_masks
are_masks-is_mask zero p h low high = ground arith
are_masks-is_mask (suc n) p h low high = ground (arith, are_masks-is_mask n p)

all_masks : are_masks 32 ≡ true
unfolding are_masks is_mask number_of prefix_to_subnet
all_masks = refl

mask-number :
    (p : ℕ) → 1 ≤ p → p ≤ 32 → number_of (prefix_to_subnet p) + 2 ^ (32 - p) ≡ 4_294_967_296
mask-number p low high =
    let h : is_mask p ≡ true = are_masks-is_mask 32 p all_masks low high in
    unfold is_mask in ground (arith, h)

beyond : (p : ℕ) → 32 < p → prefix_to_subnet p ≡ prefix_to_subnet 24
unfolding prefix_to_subnet
beyond p h = ground arith

-- The netmask of a prefix length from 1 to 32 is the number whose complement counts the addresses of
-- such a network; any other length gives the mask of a /24.
pub prefix_to_subnet-mask :
    (p : ℕ)
    → ((1 ≤ p) × (p ≤ 32) × (number_of (prefix_to_subnet p) + 2 ^ (32 - p) ≡ 2 ^ 32))
      ⊎ (((p ≡ 0) ⊎ (32 < p)) × (prefix_to_subnet p ≡ prefix_to_subnet 24))
prefix_to_subnet-mask zero = unfold prefix_to_subnet in inr (inl refl, refl)
prefix_to_subnet-mask (suc p) = elim (Bool-cases (leb (suc p) 32)) [
  | inl e ↦ inl (ground arith, ground arith, mask-number (suc p) (ground arith) (ground arith))
  | inr e ↦ inr (inr (ground arith), beyond (suc p) (ground arith))
]
