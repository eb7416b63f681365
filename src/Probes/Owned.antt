-- ===== src/Probes/Owned.antt =====
-- A probe agent writes its key only while it owns it (probes/probes.go).
use vk_cocoon.Base.{
  ℕ, ◌≡◌, refl, arith, Bool, true, false, none, String, List, [], ◌∷◌, ◌==◌, eq_iff, if◌then◌else◌,
}
use vk_cocoon.Base.Table.{lookup, lookup-insert, lookup-delete, lookup-delete_self}
use vk_cocoon.Probes.{Manager, set_result, forget, start_agent, set_owned}

-- A step of one of the manager's callers.
pub data Step : Type 0 where
  forgets starts : String → Step
  writes : String → ℕ → Bool → String → ℕ → Step

unfoldable pub step : Step → Manager → Manager
step (Step.forgets key) m = forget key m
step (Step.starts key) m = (start_agent key m).0
step (Step.writes key agent ready message now) m = (set_owned key agent ready message now m).0

unfoldable pub steps : List Step → Manager → Manager
steps [] m = m
steps (s ∷ rest) m = steps rest (step s m)

-- No step starts an agent for the key.
unfoldable pub starts_none : String → List Step → Bool
starts_none key [] = true
starts_none key (Step.starts k ∷ rest) = if k == key then false else starts_none key rest
starts_none key (_ ∷ rest) = starts_none key rest

-- Neither an agent nor a result is kept for the key.
abbrev pub Clear : String → Manager → Type 0
Clear key m = (lookup key m.agents ≡ none) × (lookup key m.results ≡ none)

step-Clear :
    (key : String) (s : Step) (m : Manager)
    → starts_none key (s ∷ []) ≡ true
    → Clear key m
    → Clear key (step s m)
unfolding step starts_none forget start_agent set_owned set_result
step-Clear key (Step.forgets k) m n h =
    ground (arith, lookup-delete k key m.agents, lookup-delete k key m.results)
step-Clear key (Step.starts k) m n h = ground (arith, lookup-insert k key m.next_agent m.agents)
step-Clear key (Step.writes k agent ready message now) m n h = ground (
  arith,
  eq_iff k key,
  lookup-insert k key (record { ready = ready; message = message; last_seen = now }) m.results,
)

starts_none-both :
    (key : String) (s : Step) (rest : List Step)
    → starts_none key (s ∷ rest) ≡ true
    → (starts_none key (s ∷ []) ≡ true) × (starts_none key rest ≡ true)
unfolding starts_none
starts_none-both key (Step.forgets k) rest n = (refl, n)
starts_none-both key (Step.starts k) rest n = ground arith
starts_none-both key (Step.writes k agent ready message now) rest n = (refl, n)

steps-Clear :
    (key : String) (list : List Step) (m : Manager)
    → starts_none key list ≡ true
    → Clear key m
    → Clear key (steps list m)
unfolding steps
steps-Clear key [] m n h = h
steps-Clear key (s ∷ rest) m n h =
    let (a, b) = starts_none-both key s rest n in
    steps-Clear key rest (step s m) b (step-Clear key s m a h)

-- After `Forget`, and until an agent is started for the key again, no result is kept for the key,
-- whatever the agents that ran before go on to write and whatever is done for other keys.
pub forget-Clear :
    (key : String) (list : List Step) (m : Manager)
    → starts_none key list ≡ true
    → Clear key (steps list (forget key m))
unfolding forget
forget-Clear key list m n =
    steps-Clear key list (forget key m) n
      (lookup-delete_self key m.agents, lookup-delete_self key m.results)
