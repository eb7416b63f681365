-- ===== src/Probes/Window.antt =====
-- What a probe agent's loop makes of the answers it has seen (probes/probes.go).
use vk_cocoon.Base.{
  ℕ, suc, ◌≡◌, ◌≤◌, ◌⊎◌, inr, refl, arith, ◌&&◌, ◌||◌, not, Bool, true, false, List, [], ◌∷◌,
}
use vk_cocoon.Probes.{
  Loop, observe, run, start_loop, next_initial_interval, steady_interval, initial_interval,
  initial_backoff_max,
}

-- Ready on what has been answered: one of the last three answers is a success. The answer at the
-- start counts as having been given for ever.
unfoldable pub one_of_three : Bool → List Bool → Bool
one_of_three start [] = start
one_of_three start (a ∷ []) = a || start
one_of_three start (a ∷ b ∷ []) = a || b || start
one_of_three start (a ∷ b ∷ c ∷ _) = a || b || c

-- How many failures end the history.
unfoldable trailing : List Bool → ℕ
trailing [] = 0
trailing (true ∷ _) = 0
trailing (false ∷ rest) = suc (trailing rest)

-- A ready agent's counter is the number of failures that end the history, below three.
abbrev Counts : Bool → List Bool → Loop → Type 0
Counts start answers l =
    (l.last_ready ≡ one_of_three start answers)
    × ((l.last_ready ≡ false) ⊎ ((l.failures ≡ trailing answers) × (trailing answers ≤ 2)))

observe-Counts :
    (start a : Bool) (answers : List Bool) (l : Loop)
    → Counts start answers l
    → Counts start (a ∷ answers) (observe a l)
unfolding one_of_three trailing observe
observe-Counts start true answers l h = ground arith
observe-Counts start false [] l h = ground arith
observe-Counts start false (a ∷ []) l h = elim a [ true ↦ ground arith | false ↦ ground arith ]
observe-Counts start false (a ∷ b ∷ []) l h = elim a [
  | true ↦ ground arith
  | false ↦ elim b [ true ↦ ground arith | false ↦ ground arith ]
]
observe-Counts start false (a ∷ b ∷ c ∷ rest) l h = elim a [
  | true ↦ ground arith
  | false ↦ elim b [
    | true ↦ ground arith
    | false ↦ elim c [ true ↦ ground arith | false ↦ ground arith ]
  ]
]

run-Counts : (start : Bool) (answers : List Bool) → Counts start answers (run start answers)
unfolding run start_loop one_of_three trailing
run-Counts start [] = (refl, inr (refl, ground arith))
run-Counts start (a ∷ answers) =
    observe-Counts start a answers (run start answers) (run-Counts start answers)

pub run-one_of_three :
    (start : Bool) (answers : List Bool)
    → (run start answers).last_ready ≡ one_of_three start answers
run-one_of_three start answers = (run-Counts start answers).0

-- The waits between probes: five seconds for a ready agent, and between 100ms and one second for one
-- that is not.
abbrev pub HasWait : Loop → Type 0
HasWait l =
    ((l.last_ready ≡ true) × (l.interval ≡ steady_interval))
    ⊎ ((l.last_ready ≡ false)
        × (initial_interval ≤ l.interval)
        × (l.interval ≤ initial_backoff_max))

observe-HasWait : (a : Bool) (l : Loop) → HasWait l → HasWait (observe a l)
unfolding observe next_initial_interval
observe-HasWait true l h = ground arith
observe-HasWait false l h = ground arith

-- Whatever the probes answer, a ready agent waits five seconds for its next probe, and one that is
-- not ready between 100 milliseconds and one second.
pub run-HasWait : (start : Bool) (answers : List Bool) → HasWait (run start answers)
unfolding run start_loop
run-HasWait true [] = ground arith
run-HasWait false [] = ground arith
run-HasWait start (a ∷ answers) = observe-HasWait a (run start answers) (run-HasWait start answers)

-- `onUpdate` is called exactly when the readiness that the loop keeps changes.
pub run-updated :
    (start a : Bool) (answers : List Bool)
    → (run start (a ∷ answers)).updated
      ≡ not (
          one_of_three start (a ∷ answers) && one_of_three start answers
          || not (one_of_three start (a ∷ answers)) && not (one_of_three start answers))
unfolding run observe
run-updated start a answers =
    ground (arith, run-one_of_three start answers, run-one_of_three start (a ∷ answers))
