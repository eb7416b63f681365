-- ===== src/Cli.antt =====
-- vm/cocoon_cli.go: the arguments that the cocoon binary is called with.
pub mod Read
pub mod Save
use Prim.Native.String.{◌++◌ as append_text, compare, slice}
use text.Mathlib.Text.{is_lt, find?}
use vk_cocoon.Base.{
  ℕ, zero, suc, ◌+◌, ◌/◌, ◌%◌, Bool, true, false, not, ◌&&◌, ◌||◌, Option, none, some, String, List,
  [], ◌∷◌, ◌++◌, ◌==◌, is_empty, is_some, nat_eq, ltb, if◌then◌else◌,
}
use vk_cocoon.Base.Seq.{exists}
use vk_cocoon.Base.Table.{Table}
use vk_cocoon.Base.Text.{codes, trim_space, lower_all, equal_fold}
use vk_cocoon.Resources.{CpuPolicy}
use vk_cocoon.Vm.{CloneOptions, RunOptions, RestoreMode, backend_firecracker}

abbrev digit : ℕ → String
digit n = slice "0123456789" n (n + 1)

-- `strconv.Itoa`, with the number of digits that are allowed: an int64 has 19 at most.
abbrev decimal_digits : ℕ → ℕ → String
decimal_digits zero n = ""
decimal_digits (suc k) n =
    let rest = decimal_digits k (n / 10) in
    if ltb n 10 then digit n else append_text rest (digit (n % 10))

unfoldable pub decimal : ℕ → String
decimal n = decimal_digits 19 n

-- A flag with its value, where it is given.
abbrev pub flag_if : Bool → String → String → List String → List String
flag_if true flag value rest = flag ∷ value ∷ rest
flag_if false flag value rest = rest

abbrev pub switch_if : Bool → String → List String → List String
switch_if true flag rest = flag ∷ rest
switch_if false flag rest = rest

abbrev restore_mode_text : RestoreMode → String
restore_mode_text RestoreMode.copy = "copy"
restore_mode_text RestoreMode.on_demand = "on-demand"
restore_mode_text RestoreMode.mmap = "mmap"

-- `appendCPUPolicyArgs`, in front of what follows.
unfoldable pub cpu_policy_args : CpuPolicy → List String → List String
cpu_policy_args policy rest =
    flag_if (ltb 0 policy.cpu_weight) "--cpu-weight" (decimal policy.cpu_weight) (
      flag_if (ltb 0 policy.cpu_quota_us) "--cpu-quota-us" (decimal policy.cpu_quota_us)
        (flag_if (ltb 0 policy.cpu_period) "--cpu-period-us" (decimal policy.cpu_period) rest))

abbrev nics_args : Option ℕ → String → List String → List String
nics_args none backend rest = rest
nics_args (some n) backend rest =
    flag_if (not (backend == backend_firecracker)) "--nics" (decimal n) rest

abbrev source_args : String → String → List String
source_args dir from = if is_empty dir then from ∷ [] else "--from-dir" ∷ dir ∷ []

-- `buildCloneArgs`. The restore mode is one of the three that the settings allow, never empty.
unfoldable pub build_clone_args : CloneOptions → List String
build_clone_args o =
    let is_fc = o.backend == backend_firecracker in
    "vm"
    ∷ "clone"
    ∷ "--output"
    ∷ "json"
    ∷ flag_if (not (is_empty o.to)) "--name" o.to (
        flag_if (not (is_empty o.network)) "--network" o.network (
          switch_if o.no_direct_io "--no-direct-io" (
            switch_if (o.pull || not (is_empty o.from_dir)) "--pull" (
              flag_if (not is_fc) "--restore-mode" (restore_mode_text o.restore_mode) (
                nics_args o.nics o.backend
                  (cpu_policy_args o.cpu_policy (source_args o.from_dir o.from)))))))

-- `buildExecArgs`: the keys of the environment in order.
abbrev pub insert_sorted : String × String → Table String → Table String
insert_sorted row [] = row ∷ []
insert_sorted row (other ∷ rest) =
    let more = insert_sorted row rest in
    if is_lt (compare other.0 row.0) then other ∷ more else row ∷ other ∷ rest

unfoldable pub sorted : Table String → Table String
sorted [] = []
sorted (row ∷ rest) = insert_sorted row (sorted rest)

abbrev pub setting : String × String → String
setting (k, v) = append_text k (append_text "=" v)

abbrev pub env_args : Table String → List String → List String
env_args [] rest = rest
env_args (row ∷ more) rest = "-e" ∷ setting row ∷ env_args more rest

unfoldable pub build_exec_args : String → List String → Table String → Bool → List String
build_exec_args vm_id argv env interactive =
    "vm" ∷ "exec" ∷ switch_if interactive "-i" (env_args (sorted env) (vm_id ∷ "--" ∷ argv))

abbrev begins : List ℕ → List ℕ → Bool
begins s [] = true
begins [] (c ∷ t) = false
begins (b ∷ s) (c ∷ t) = nat_eq b c && begins s t

-- `strings.Contains`, on code points.
unfoldable pub includes : List ℕ → List ℕ → Bool
includes [] t = begins [] t
includes (b ∷ s) t = let later = includes s t in begins (b ∷ s) t || later

-- `containsAny`: the phrases are in lower case.
unfoldable pub contains_any : String → List String → Bool
contains_any s phrases = exists (λ p. includes (lower_all (codes s)) (codes p)) phrases

-- The parser of Kubernetes quantities, whose value is in whole units, is an argument.
module _ (parse_quantity : String → Option ℕ) where
  abbrev size_of : Option ℕ → String → String
  size_of none raw = raw
  size_of (some zero) raw = raw
  size_of (some (suc n)) raw = decimal (suc n)

  -- `NormalizeSizeArg`.
  unfoldable pub normalize_size_arg : String → String
  normalize_size_arg raw =
      let text = trim_space raw in if is_empty text then "" else size_of (parse_quantity text) text

  -- `buildRunArgs`. The memory is a milli-value, rounded up to whole bytes.
  unfoldable pub build_run_args : RunOptions → List String
  build_run_args o =
      let storage = normalize_size_arg o.storage in
      let is_windows = equal_fold (codes o.os) (codes "windows") in
      "vm"
      ∷ "run"
      ∷ "--output"
      ∷ "json"
      ∷ flag_if (not (is_empty o.name)) "--name" o.name (
          flag_if (ltb 0 o.cpu) "--cpu" (decimal o.cpu) (
            cpu_policy_args o.cpu_policy (
              flag_if (ltb 0 o.memory) "--memory" (decimal ((o.memory + 999) / 1000)) (
                flag_if (not (is_empty storage)) "--storage" storage (
                  flag_if (not (is_empty o.network)) "--network" o.network (
                    switch_if is_windows "--windows" (
                      switch_if (o.backend == backend_firecracker) "--fc"
                        (switch_if o.no_direct_io "--no-direct-io" (o.image ∷ [])))))))))
