-- ===== src/Probes.antt =====
-- probes/probes.go: the probe manager's tables, and the loop of a pod's probe agent. A probe's answer
-- and the clock are arguments; an agent is the number that `Start` gives it.
pub mod Window
pub mod Owned
use vk_cocoon.Base.{
  ℕ, suc, ◌+◌, ◌*◌, ◌/◌, ◌&&◌, not, Bool, true, false, Option, none, some, String, List, [], ◌∷◌,
  leb, min, nat_eq, is_some, millisecond, second, if◌then◌else◌,
}
use vk_cocoon.Base.Table.{Table, lookup, insert, delete}

abbrev pub initial_interval : ℕ
initial_interval = 100 * millisecond

abbrev pub initial_backoff_max : ℕ
initial_backoff_max = 1 * second

abbrev pub steady_interval : ℕ
steady_interval = 5 * second

abbrev pub failure_threshold : ℕ
failure_threshold = 3

pub record ProbeResult : Type 0 where
  pub ready : Bool
  pub message : String
  pub last_seen : ℕ

pub record Manager : Type 0 where
  pub results : Table ProbeResult
  pub agents : Table ℕ
  pub next_agent : ℕ

abbrev pub new_manager : Manager
new_manager = record { results = []; agents = []; next_agent = 0 }

-- `Set`.
unfoldable pub set_result : String → Bool → String → ℕ → Manager → Manager
set_result key ready message now m = record m {
  results = insert key (record { ready = ready; message = message; last_seen = now }) m.results;
}

abbrev or_zero_result : Option ProbeResult → ProbeResult
or_zero_result none = record { ready = false; message = ""; last_seen = 0 }
or_zero_result (some r) = r

-- `Get`.
unfoldable pub get_result : String → Manager → ProbeResult
get_result key m = or_zero_result (lookup key m.results)

unfoldable pub forget : String → Manager → Manager
forget key m = record m { agents = delete key m.agents; results = delete key m.results }

-- The first section of `Start`: a new agent takes the key's place.
unfoldable pub start_agent : String → Manager → Manager × ℕ
start_agent key m = (
  record m { agents = insert key m.next_agent m.agents; next_agent = suc m.next_agent },
  m.next_agent,
)

abbrev owns : ℕ → Option ℕ → Bool
owns agent none = false
owns agent (some a) = nat_eq a agent

-- `setOwned`: an agent that was replaced or forgotten writes nothing.
unfoldable pub set_owned : String → ℕ → Bool → String → ℕ → Manager → Manager × Bool
set_owned key agent ready message now m =
    if owns agent (lookup key m.agents)
    then (set_result key ready message now m, true)
    else (m, false)

-- `nextInitialInterval`: half as much again, up to the cap.
unfoldable pub next_initial_interval : ℕ → ℕ
next_initial_interval d = min (d * 3 / 2) initial_backoff_max

-- What `run` keeps between two probes, and whether the last one called `onUpdate`.
pub record Loop : Type 0 where
  pub last_ready : Bool
  pub interval : ℕ
  pub failures : ℕ
  pub updated : Bool

unfoldable pub start_loop : Bool → Loop
start_loop ready = record {
  last_ready = ready;
  interval = (if ready then steady_interval else initial_interval);
  failures = 0;
  updated = false;
}

-- A failure of an agent that was ready.
abbrev count_failure : Loop → Loop
count_failure l =
    if leb failure_threshold (suc l.failures)
    then record {
      last_ready = false;
      interval = initial_interval;
      failures = suc l.failures;
      updated = true;
    }
    else record l { failures = suc l.failures; updated = false }

-- The `switch` of `run` on a probe's answer.
unfoldable pub observe : Bool → Loop → Loop
observe true l =
    if not l.last_ready
    then record { last_ready = true; interval = steady_interval; failures = 0; updated = true }
    else record l { failures = 0; updated = false }
observe false l =
    if not l.last_ready
    then record l { interval = next_initial_interval l.interval; updated = false }
    else count_failure l

-- The answers seen since the agent started, newest first.
unfoldable pub run : Bool → List Bool → Loop
run ready [] = start_loop ready
run ready (answer ∷ answers) = observe answer (run ready answers)
