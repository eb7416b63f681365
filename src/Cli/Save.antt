-- ===== src/Cli/Save.antt =====
-- vm/cocoon_cli.go: the save of a snapshot whose name a killed save may still hold.
pub mod Saved
use Prim.Native.Char.{Char, code}
use Prim.Native.String.{len, slice}
use text.Mathlib.Text.{find?}
use vk_cocoon.Base.{
  ℕ, zero, suc, ◌+◌, ◌-◌, ◌*◌, Bool, true, false, not, ◌&&◌, ◌||◌, Option, none, some, String, List,
  [], ◌∷◌, ◌==◌, is_empty, or_text, ltb, leb, second, millisecond, if◌then◌else◌,
}
use vk_cocoon.Base.Text.{is_space, trim_left}
use vk_cocoon.Cli.{contains_any}

abbrev pub stale_snapshot_rm_budget : ℕ
stale_snapshot_rm_budget = 30 * second

abbrev pub stale_snapshot_rm_delay : ℕ
stale_snapshot_rm_delay = 500 * millisecond

abbrev snapshot_name_taken : List String
snapshot_name_taken = "already exists" ∷ "already in use by" ∷ []

abbrev snapshot_lease_held : List String
snapshot_lease_held = "is in use by an active" ∷ []

-- What is asked of the system: a run of the binary, the time, a sleep.
pub data Request : Type 0 where
  run : List String → Request
  look : Request
  nap : ℕ → Request

-- The answers, each read off the requests so far, newest first: the output of a run that failed, the
-- time, and whether a sleep ran to its end.
pub record Shell : Type 0 where
  pub failure : List Request → Option String
  pub clock : List Request → ℕ
  pub awake : List Request → Bool

-- The first field of a text (`strings.Fields`), "" if it has none.
abbrev until_space : String → String
until_space String.[] = String.[]
until_space (String.◌∷◌ c s) =
    let rest = until_space s in if is_space (code c) then String.[] else String.◌∷◌ c rest

abbrev first_field : String → String
first_field s = until_space (trim_left s)

-- `strings.TrimSuffix(_, ")")`.
abbrev without_paren : String → String
without_paren s =
    if leb 1 (len s) && slice s (len s - 1) (len s) == ")" then slice s 0 (len s - 1) else s

-- The id after the marker, "" without the marker or an id.
abbrev after_marker : Option ℕ → String → String → String
after_marker none out marker = ""
after_marker (some i) out marker =
    without_paren (first_field (slice out (i + len marker) (len out)))

-- `snapshotNameHolderID`.
unfoldable pub snapshot_name_holder_id : String → String
snapshot_name_holder_id out =
    or_text (after_marker (find? out "already in use by ") out "already in use by ")
      (after_marker (find? out "held by ") out "held by ")

module _ (sh : Shell) where
  abbrev pub ask {ℓ} : {A : Type ℓ} → (List Request → A) → Request → List Request → A × List Request
  ask answer r log = (answer (r ∷ log), r ∷ log)

  -- Whether the loop gave up with an error, the removal went through, or the fuel ran out.
  abbrev pub after_refusal :
      Bool
      → ℕ
      → String
      → (List Request → Option (Option String) × List Request)
      → List Request
      → Option (Option String) × List Request
  after_refusal false deadline out again log = (some (some out), log)
  after_refusal true deadline out again log =
      let (now, log1) = ask sh.clock look log in
      if not (ltb now deadline)
      then (some (some out), log1)
      else let (slept, log2) = ask sh.awake (nap stale_snapshot_rm_delay) log1 in
        (if slept then again log2 else (some (some "context canceled"), log2))

  abbrev pub after_rm :
      Option String
      → ℕ
      → (List Request → Option (Option String) × List Request)
      → List Request
      → Option (Option String) × List Request
  after_rm none deadline again log = (some none, log)
  after_rm (some out) deadline again log =
      after_refusal (contains_any out snapshot_lease_held) deadline out again log

  -- The loop of `removeStaleSnapshot`, on fuel; the result is its error, `none` when the fuel runs out.
  unfoldable pub rm_rounds : ℕ → String → ℕ → List Request → Option (Option String) × List Request
  rm_rounds zero ref deadline log = (none, log)
  rm_rounds (suc n) ref deadline log =
      let (out, log') = ask sh.failure (run ("snapshot" ∷ "rm" ∷ ref ∷ [])) log in
      after_rm out deadline (rm_rounds n ref deadline) log'

  -- `removeStaleSnapshot`.
  unfoldable pub remove_stale_snapshot :
      ℕ → String → List Request → Option (Option String) × List Request
  remove_stale_snapshot fuel ref log =
      let (now, log') = ask sh.clock look log in
      rm_rounds fuel ref (now + stale_snapshot_rm_budget) log'

  abbrev pub save : String → String → List Request → Option String × List Request
  save name id = ask sh.failure (run ("snapshot" ∷ "save" ∷ "--name" ∷ name ∷ id ∷ []))

  abbrev pub save_again :
      Option (Option String) × List Request
      → String
      → String
      → Option (Option String) × List Request
  save_again (none, log) name id = (none, log)
  save_again (some (some e), log) name id = (some (some e), log)
  save_again (some none, log) name id = let (r, log') = save name id log in (some r, log')

  abbrev pub after_save :
      ℕ → Option String → String → String → List Request → Option (Option String) × List Request
  after_save fuel none name id log = (some none, log)
  after_save fuel (some out) name id log =
      if contains_any out snapshot_name_taken
      then save_again (remove_stale_snapshot fuel (or_text (snapshot_name_holder_id out) name) log)
          name id
      else (some (some out), log)

  -- `SnapshotSave`; the result is its error, `none` when the fuel runs out.
  unfoldable pub snapshot_save :
      ℕ → String → String → List Request → Option (Option String) × List Request
  snapshot_save fuel name id log =
      let (r, log') = save name id log in after_save fuel r name id log'
