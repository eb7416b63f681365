-- ===== src/Tests/Parts.antt =====
-- The theorems on probes and resources at sample values.
use vk_cocoon.Base.{
  ℕ, ◌≡◌, ◌≤◌, ◌<◌, ◌+◌, ◌-◌, ◌^◌, ◌⊎◌, ◌&&◌, ◌||◌, not, refl, true, false, [], ◌∷◌, List, Bool,
}
use vk_cocoon.Cli.{build_exec_args}
use vk_cocoon.Cli.Read.{read_exec_args, ReadsAs, build_exec_args-read}
use vk_cocoon.Probes.{run, forget, new_manager}
use vk_cocoon.Probes.Window.{one_of_three, HasWait, run-HasWait, run-updated}
use vk_cocoon.Probes.Owned.{Step, steps, starts_none, Clear, forget-Clear}
use vk_cocoon.Resources.{Resources, prefix_to_subnet}
use vk_cocoon.Resources.Bounds.{number_of, prefix_to_subnet-mask}

-- Newest first: two failures after a success.
abbrev answers : List Bool
answers = false ∷ false ∷ true ∷ []

run-HasWait_example : HasWait (run false (false ∷ false ∷ []))
run-HasWait_example = run-HasWait false (false ∷ false ∷ [])

run-updated_example :
    (run true (false ∷ answers)).updated
    ≡ not (
        one_of_three true (false ∷ answers) && one_of_three true answers
        || not (one_of_three true (false ∷ answers)) && not (one_of_three true answers))
run-updated_example = run-updated true false answers

-- An agent that was forgotten writes late, and another key starts one.
abbrev late_steps : List Step
late_steps = Step.writes "default/a" 0 true "" 5 ∷ Step.starts "default/b" ∷ []

forget-Clear_example : Clear "default/a" (steps late_steps (forget "default/a" new_manager))
forget-Clear_example = forget-Clear "default/a" late_steps new_manager (unfold starts_none in refl)

abbrev resources : Resources
resources = record { limits = ("cpu", 2000) ∷ []; requests = ("cpu", 500) ∷ [] }

abbrev prefix : ℕ
prefix = 22

prefix_to_subnet-mask_example :
    ((1 ≤ prefix)
      × (prefix ≤ 32)
      × (number_of (prefix_to_subnet prefix) + 2 ^ (32 - prefix) ≡ 2 ^ 32))
    ⊎ (((prefix ≡ 0) ⊎ (32 < prefix)) × (prefix_to_subnet prefix ≡ prefix_to_subnet 24))
prefix_to_subnet-mask_example = prefix_to_subnet-mask prefix

-- The theorems on the arguments of the CLI and on the reclaimer.
build_exec_args-read_example :
    ReadsAs
      (read_exec_args
        (build_exec_args "vm-1" ("ls" ∷ "-i" ∷ "--" ∷ []) (("B", "2") ∷ ("A", "1") ∷ []) true))
      "vm-1"
      ("ls" ∷ "-i" ∷ "--" ∷ [])
      (("B", "2") ∷ ("A", "1") ∷ [])
      true
build_exec_args-read_example =
    build_exec_args-read "vm-1" ("ls" ∷ "-i" ∷ "--" ∷ []) (("B", "2") ∷ ("A", "1") ∷ []) true refl
