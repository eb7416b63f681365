-- ===== src/Cli/Save/Saved.antt =====
-- A save that reports success was made, and the wait for a held name ends (vm/cocoon_cli.go).
use vk_cocoon.Base.{
  ℕ, zero, suc, ◌+◌, ◌*◌, ◌≤◌, ◌≡◌, refl, Bool, true, false, not, ◌&&◌, ◌||◌, Option, none, some,
  String, List, [], ◌∷◌, arith, ◌==◌, eq_refl, is_some, is_none, or_text,
}
use vk_cocoon.Cli.Save.{
  Request, run, look, nap, Shell, rm_rounds, remove_stale_snapshot, save, save_again, snapshot_save,
  stale_snapshot_rm_budget, stale_snapshot_rm_delay, snapshot_name_holder_id,
}

abbrev is_save : String → String → List String → Bool
is_save name id (a ∷ b ∷ c ∷ d ∷ e ∷ []) =
    a == "snapshot" && b == "save" && c == "--name" && d == name && e == id
is_save name id _ = false

abbrev text_of : Option String → String
text_of none = ""
text_of (some e) = e

abbrev pub succeeded : Option (Option String) → Bool
succeeded (some none) = true
succeeded _ = false

module _ (sh : Shell) (name id : String) where
  -- The last request is a save of the VM under the name, and it did not fail.
  unfoldable pub ends_saved : List Request → Bool
  ends_saved (run args ∷ log) = is_save name id args && is_none (sh.failure (run args ∷ log))
  ends_saved _ = false

  save_again-saved :
      (r : Option (Option String) × List Request)
      → let (e, log) = save_again sh r name id in not (succeeded e) || ends_saved log ≡ true
  unfolding ends_saved
  save_again-saved (none, log) = refl
  save_again-saved (some (some e), log) = refl
  save_again-saved (some none, log) = ground (arith, eq_refl name, eq_refl id)

  -- A save that reports success ends with a save of the VM under the name that did not fail, whatever
  -- it had to remove first and however long that took.
  pub snapshot_save-saved :
      (fuel : ℕ) (log : List Request)
      → let (e, log') = snapshot_save sh fuel name id log in
        not (succeeded e) || ends_saved log' ≡ true
  unfolding snapshot_save ends_saved
  snapshot_save-saved fuel log =
      let (r, log1) = save sh name id log in
      ground (
        arith,
        eq_refl name,
        eq_refl id,
        save_again-saved (
            remove_stale_snapshot sh fuel (or_text (snapshot_name_holder_id (text_of r)) name)
              log1),
      )

-- The clock does not go back, and a sleep that is not cancelled takes as long as asked.
pub record KeepsTime (sh : Shell) : Type 0 where
  pub later : (r : Request) (log : List Request) → sh.clock log ≤ sh.clock (r ∷ log)
  pub naps :
      (n : ℕ) (log : List Request)
      → sh.awake (nap n ∷ log) ≡ true
      → sh.clock log + n ≤ sh.clock (nap n ∷ log)

module _ (sh : Shell) (time : KeepsTime sh) where
  rm_rounds-end :
      (n : ℕ) (ref : String) (deadline : ℕ) (log : List Request)
      → deadline ≤ sh.clock log + n * stale_snapshot_rm_delay
      → is_some (rm_rounds sh (suc n) ref deadline log).0 ≡ true
  unfolding rm_rounds
  rm_rounds-end zero ref deadline log h =
      let log1 = run ("snapshot" ∷ "rm" ∷ ref ∷ []) ∷ log in
      ground (arith, time.later (run ("snapshot" ∷ "rm" ∷ ref ∷ [])) log, time.later look log1)
  rm_rounds-end (suc n) ref deadline log h =
      let log1 = run ("snapshot" ∷ "rm" ∷ ref ∷ []) ∷ log in
      let log2 = look ∷ log1 in
      ground (
        arith,
        time.later (run ("snapshot" ∷ "rm" ∷ ref ∷ [])) log,
        time.later look log1,
        time.naps stale_snapshot_rm_delay log2,
        rm_rounds-end n ref deadline (nap stale_snapshot_rm_delay ∷ log2),
      )

-- A save ends: 61 removals, with half a second between two of them, outlast the budget of 30 seconds,
-- where the clock does not go back and sleeps last as long as asked.
pub snapshot_save-ends :
    (sh : Shell) (name id : String) (log : List Request)
    → KeepsTime sh
    → is_some (snapshot_save sh 61 name id log).0 ≡ true
unfolding snapshot_save remove_stale_snapshot
snapshot_save-ends sh name id log time =
    let log1 = run ("snapshot" ∷ "save" ∷ "--name" ∷ name ∷ id ∷ []) ∷ log in
    let holder = or_text (snapshot_name_holder_id (text_of (sh.failure log1))) name in
    ground (
      arith,
      rm_rounds-end sh time 60 holder (sh.clock (look ∷ log1) + stale_snapshot_rm_budget)
          (look ∷ log1),
    )
