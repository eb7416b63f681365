-- ===== src/Tests/Commands.antt =====
-- The theorems on the save of a snapshot at sample values: the name is held by a killed save, whose
-- lock goes away at the second removal.
use vk_cocoon.Base.{
  ℕ, zero, suc, ◌+◌, ◌≡◌, true, not, ◌||◌, Option, none, some, String, List, [], ◌∷◌, arith,
  is_some,
}
use vk_cocoon.Cli.Save.{Request, run, nap, Shell, snapshot_save}
use vk_cocoon.Cli.Save.Saved.{
  succeeded, ends_saved, KeepsTime, snapshot_save-saved, snapshot_save-ends,
}

unfoldable slept : List Request → ℕ
slept [] = 0
slept (nap n ∷ log) = slept log + n
slept (r ∷ log) = slept log

abbrev runs : List Request → ℕ
runs [] = 0
runs (run args ∷ log) = suc (runs log)
runs (r ∷ log) = runs log

-- The first save, and the first removal, fail.
abbrev refusal : ℕ → Option String
refusal (suc zero) = some "snapshot name already in use by s9) "
refusal (suc (suc zero)) = some "s9 is in use by an active save"
refusal n = none

abbrev shell : Shell
shell = record { failure = λ log. refusal (runs log); clock = slept; awake = λ log. true }

shell-KeepsTime : KeepsTime shell
unfolding slept
shell-KeepsTime = record { later = λ r log. ground arith; naps = λ n log h. ground arith }

snapshot_save-saved_example :
    not (succeeded (snapshot_save shell 61 "vk-a" "vm-1" []).0)
      || ends_saved shell "vk-a" "vm-1" (snapshot_save shell 61 "vk-a" "vm-1" []).1
    ≡ true
snapshot_save-saved_example = snapshot_save-saved shell "vk-a" "vm-1" 61 []

snapshot_save-ends_example : is_some (snapshot_save shell 61 "vk-a" "vm-1" []).0 ≡ true
snapshot_save-ends_example = snapshot_save-ends shell "vk-a" "vm-1" [] shell-KeepsTime
