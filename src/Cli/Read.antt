-- ===== src/Cli/Read.antt =====
-- The arguments of `cocoon vm exec` read back (vm/cocoon_cli.go).
use Prim.Native.String.{◌++◌ as append_text, compare}
use text.Mathlib.Text.{is_lt}
use vk_cocoon.Base.{
  ℕ, suc, ◌⊎◌, inl, inr, refl, ◌≡◌, Bool, true, false, ◌&&◌, ◌||◌, Option, none, some, String, List,
  [], ◌∷◌, ◌==◌, arith, map, if◌then◌else◌,
}
use vk_cocoon.Base.Table.{Table}
use vk_cocoon.Cli.{build_exec_args, sorted, insert_sorted, setting, env_args}

-- What the arguments of an exec ask for.
pub record ExecCall : Type 0 where
  pub is_interactive : Bool
  pub settings : List String
  pub vm_id : String
  pub argv : List String

abbrev interact : Option ExecCall → Option ExecCall
interact none = none
interact (some c) = some (record c { is_interactive = true })

abbrev set_one : String → Option ExecCall → Option ExecCall
set_one s none = none
set_one s (some c) = some (record c { settings = s ∷ c.settings })

-- The flags come first, then the VM, then `--`, and the rest is the guest's command as it is.
abbrev positional : List String → Option ExecCall
positional (id ∷ sep ∷ argv) =
    if sep == "--"
    then some (record { is_interactive = false; settings = []; vm_id = id; argv = argv })
    else none
positional _ = none

unfoldable pub read_flags : List String → Option ExecCall
read_flags [] = none
read_flags (a ∷ []) = none
read_flags (a ∷ b ∷ rest) =
    let next = read_flags (b ∷ rest) in
    let later = read_flags rest in
    if a == "-i"
    then interact next
    else if a == "-e"
    then set_one b later
    else positional (a ∷ b ∷ rest)

unfoldable pub read_exec_args : List String → Option ExecCall
read_exec_args (a ∷ b ∷ rest) = if a == "vm" && b == "exec" then read_flags rest else none
read_exec_args _ = none

env_args-read :
    (env : Table String) (id : String) (argv : List String)
    → (id == "-i") || (id == "-e") ≡ false
    → read_flags (env_args env (id ∷ "--" ∷ argv))
      ≡ some
          (record { is_interactive = false; settings = map setting env; vm_id = id; argv = argv })
unfolding read_flags
env_args-read [] id argv h = ground (arith, h)
env_args-read (row ∷ more) id argv h = ground (arith, env_args-read more id argv h)

-- The text of a setting.
abbrev pub assignment : String × String → String
assignment (k, v) = append_text k (append_text "=" v)

-- The first key is before the second, or the second is not before the first.
abbrev pub InOrder : String × String → String × String → Type 0
InOrder a b = (is_lt (compare a.0 b.0) ≡ true) ⊎ (is_lt (compare b.0 a.0) ≡ false)

abbrev pub IsOrdered : Table String → Type 0
IsOrdered [] = Unit
IsOrdered (a ∷ []) = Unit
IsOrdered (a ∷ b ∷ rest) = InOrder a b × IsOrdered (b ∷ rest)

-- The rows that pass a test.
abbrev pub count : (String × String → Bool) → Table String → ℕ
count p [] = 0
count p (row ∷ rest) = if p row then suc (count p rest) else count p rest

insert-count :
    (p : String × String → Bool) (row : String × String) (rows : Table String)
    → count p (insert_sorted row rows) ≡ count p (row ∷ rows)
insert-count p row [] = refl
insert-count p row (other ∷ rest) = ground (arith, insert-count p row rest)

sorted-count :
    (p : String × String → Bool) (rows : Table String) → count p (sorted rows) ≡ count p rows
unfolding sorted
sorted-count p [] = refl
sorted-count p (row ∷ rest) = ground (arith, insert-count p row (sorted rest), sorted-count p rest)

abbrev put : Bool → String × String → String × String → Table String → Table String
put before row other rest = if before then other ∷ insert_sorted row rest else row ∷ other ∷ rest

put-after :
    (a row other : String × String) (rest : Table String) (before : Bool)
    → is_lt (compare other.0 row.0) ≡ before
    → InOrder a row
    → InOrder a other
    → IsOrdered (other ∷ rest)
    → (InOrder other row → IsOrdered (other ∷ insert_sorted row rest))
    → IsOrdered (a ∷ put before row other rest)
put-after a row other rest true e h first o k = (first, k (inl e))
put-after a row other rest false e h first o k = (h, (inr e, o))

-- Behind a row that is before the new one.
insert-after :
    (a row : String × String) (rows : Table String)
    → InOrder a row
    → IsOrdered (a ∷ rows)
    → IsOrdered (a ∷ insert_sorted row rows)
insert-after a row [] h o = (h, tt)
insert-after a row (other ∷ rest) h (first, o) =
    put-after a row other rest (is_lt (compare other.0 row.0)) refl h first o
      (λ k. insert-after other row rest k o)

put-first :
    (row other : String × String) (rest : Table String) (before : Bool)
    → is_lt (compare other.0 row.0) ≡ before
    → IsOrdered (other ∷ rest)
    → IsOrdered (put before row other rest)
put-first row other rest true e o = insert-after other row rest (inl e) o
put-first row other rest false e o = (inr e, o)

insert-IsOrdered :
    (row : String × String) (rows : Table String)
    → IsOrdered rows
    → IsOrdered (insert_sorted row rows)
insert-IsOrdered row [] o = tt
insert-IsOrdered row (other ∷ rest) o =
    put-first row other rest (is_lt (compare other.0 row.0)) refl o

sorted-IsOrdered : (rows : Table String) → IsOrdered (sorted rows)
unfolding sorted
sorted-IsOrdered [] = tt
sorted-IsOrdered (row ∷ rest) = insert-IsOrdered row (sorted rest) (sorted-IsOrdered rest)

-- The arguments say what is asked, with the settings of the environment in the order of their keys: the
-- rows in some order, each as often as the environment has it.
abbrev pub ReadsAs : Option ExecCall → String → List String → Table String → Bool → Type 0
ReadsAs call vm_id argv env interactive =
    (rows : Table String) × IsOrdered rows
    × ((p : String × String → Bool) → count p rows ≡ count p env)
    × (call
        ≡ some (record {
          is_interactive = interactive;
          settings = map assignment rows;
          vm_id = vm_id;
          argv = argv;
        }))

args-read :
    (vm_id : String) (argv : List String) (env : Table String) (interactive : Bool)
    → (vm_id == "-i") || (vm_id == "-e") ≡ false
    → read_exec_args (build_exec_args vm_id argv env interactive)
      ≡ some (record {
        is_interactive = interactive;
        settings = map setting (sorted env);
        vm_id = vm_id;
        argv = argv;
      })
unfolding build_exec_args read_exec_args read_flags
args-read vm_id argv env false h = ground (arith, env_args-read (sorted env) vm_id argv h)
args-read vm_id argv env true h = ground (arith, env_args-read (sorted env) vm_id argv h)

-- The arguments of `cocoon vm exec` say what was asked: read with the flags first, then the VM, then
-- the guest's command after `--`, they give back the VM, the command whatever words it has, whether
-- there is an input, and the rows of the environment, each as often as it has them, in the order of
-- their keys. The id of the VM is not `-i` or `-e`.
pub build_exec_args-read :
    (vm_id : String) (argv : List String) (env : Table String) (interactive : Bool)
    → (vm_id == "-i") || (vm_id == "-e") ≡ false
    → ReadsAs
        (read_exec_args (build_exec_args vm_id argv env interactive))
        vm_id
        argv
        env
        interactive
build_exec_args-read vm_id argv env interactive h = (
  sorted env,
  sorted-IsOrdered env,
  (λ p. sorted-count p env),
  args-read vm_id argv env interactive h,
)
