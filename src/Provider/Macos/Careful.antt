-- ===== src/Provider/Macos/Careful.antt =====
-- A create of a macOS pod launches no guest that runs already (macos.go).
use vk_cocoon.Base.{
  ℕ, zero, suc, ◌≡◌, refl, ◌∙◌, arith, Bool, true, false, not, ◌&&◌, Option, none, some, String,
  List, [], ◌∷◌, ◌==◌, eq_refl, is_none, nat_eq,
}
use vk_cocoon.Kube.{Pod, VmSpec, Meta}
use vk_cocoon.Vm.{Reply, ok, not_found, err, MacosVmRecord}
use vk_cocoon.Provider.State.{Settings, Tables, key_of}
use vk_cocoon.Provider.Create.{CreateError, failed, fail_create}
use vk_cocoon.Provider.Macos.Vnc.{adopt_macos_vnc_port}
use vk_cocoon.Provider.Macos.Launch.{
  macos_run_args, macos_process_alive, record_alive, start_macos_vm, start_with,
  append_macos_vnc_args, ensure_macos_image, macos_image_present,
}
use vk_cocoon.Provider.Macos.Create.{
  claim_section, inspect_guest, after_launch, run_with, run_image, launch_macos, restart_macos,
  on_record, create_untracked_macos, create_macos_pod, register_created, readopt_macos_pod,
}
use vk_cocoon.Provider.World.{
  Env, World, Effect, macos_inspect, macos_run, macos_start, macos_remove, vm_inspect, vm_remove,
  process_alive, call,
}
use vk_cocoon.Provider.Quiet.{IgnoresReports, is_report, call-quiet}
use vk_cocoon.Provider.Quiet.Bind.{fail_create-quiet}
use vk_cocoon.Provider.Macos.Quiet.{register_created-quiet, readopt-quiet}

abbrev pid_is : ℕ → Option MacosVmRecord → Bool
pid_is pid none = false
pid_is pid (some rec) = nat_eq rec.pid pid

module _ (env : Env) where
  -- The last inspect of a guest was one of this guest, and found no record.
  unfoldable pub found_none : String → List Effect → Bool
  found_none name [] = false
  found_none name (macos_inspect n ∷ log) =
      n == name && is_none (env.macos_record (macos_inspect n ∷ log))
  found_none name (e ∷ log) = found_none name log

  -- The last inspect of a guest was one of this guest, and its record names the process.
  unfoldable pub found_pid : String → ℕ → List Effect → Bool
  found_pid name pid [] = false
  found_pid name pid (macos_inspect n ∷ log) =
      n == name && pid_is pid (env.macos_record (macos_inspect n ∷ log))
  found_pid name pid (e ∷ log) = found_pid name pid log

  -- Its record names no process, or one that was asked for since and did not live.
  unfoldable pub found_dead : String → List Effect → Bool
  unfolding found_pid
  found_dead name [] = false
  found_dead name (macos_inspect n ∷ log) = found_pid name 0 (macos_inspect n ∷ log)
  found_dead name (process_alive pid ∷ log) =
      not (env.macos_alive (process_alive pid ∷ log)) && found_pid name pid log
  found_dead name (e ∷ log) = found_dead name log

  -- Guests were launched so only, and none was removed.
  unfoldable pub careful : List Effect → Bool
  unfolding found_none found_dead
  careful [] = true
  careful (macos_run name args ∷ log) = found_none name log && careful log
  careful (macos_start name args ∷ log) = found_dead name log && careful log
  careful (macos_remove name ∷ log) = false
  careful (vm_remove id ∷ log) = false
  careful (e ∷ log) = careful log

  careful-ignores : IgnoresReports careful
  unfolding careful is_report
  careful-ignores e log h = ground arith

  careful-inspects : (id : String) (log : List Effect) → careful (vm_inspect id ∷ log) ≡ careful log
  unfolding careful
  careful-inspects id log = refl

module _ (m : Meta) (settings : Settings) (env : Env) where
  fail-careful :
      (pod : Pod) (e : CreateError) (message : String) (w : World)
      → careful env (fail_create m settings env pod e message w).1.log ≡ careful env w.log
  fail-careful =
      fail_create-quiet (careful env) (careful-ignores env) (careful-inspects env) m settings env

  register-careful :
      (pod : Pod) (spec : VmSpec) (rec : Option MacosVmRecord) (port : ℕ) (w : World)
      → careful env (register_created m settings env pod spec rec port w).1.log ≡ careful env w.log
  register-careful =
      register_created-quiet (careful env) (careful-ignores env) (careful-inspects env) m settings
        env

  inspect-careful :
      (name : String) (w : World)
      → careful env (inspect_guest m settings env name w).1.log ≡ careful env w.log
  inspect-careful name w =
      call-quiet (careful env) (careful-ignores env) m settings env env.macos_record
        (macos_inspect name) w (unfold is_report in refl)

  after_launch-careful :
      (r : Reply (Unit {0})) (pod : Pod) (spec : VmSpec) (port : ℕ) (w : World)
      → careful env (after_launch m settings env r pod spec port w).1.log ≡ careful env w.log
  after_launch-careful not_found pod spec port w =
      fail-careful pod (failed "not found") "not found" w
  after_launch-careful (err e) pod spec port w = fail-careful pod (failed e) e w
  after_launch-careful (ok _) pod spec port w =
      let (rec, w') = inspect_guest m settings env spec.vm_name w in
      register-careful pod spec rec port w' ∙ inspect-careful spec.vm_name w

  -- The steps that make an image present see no guest.
  image-careful :
      (image name : String) (w : World)
      → let w' = (ensure_macos_image settings env image w).1 in
        (careful env w'.log ≡ careful env w.log)
        × (found_none env name w'.log ≡ found_none env name w.log)
  unfolding ensure_macos_image macos_image_present call careful found_none
  image-careful image name w = (ground arith, ground arith)

  run_with-careful :
      (args : Option (List String)) (pod : Pod) (spec : VmSpec) (port : ℕ) (w : World)
      → careful env w.log ≡ true
      → found_none env spec.vm_name w.log ≡ true
      → careful env (run_with m settings env args pod spec port w).1.log ≡ true
  unfolding call careful
  run_with-careful none pod spec port w c n =
      ground
        (arith, fail-careful pod (failed "COCOON_MACOS_VNC_PASSWORD") "COCOON_MACOS_VNC_PASSWORD" w)
  run_with-careful (some args) pod spec port w c n =
      let (r, w') = call env env.done (macos_run spec.vm_name args) w in
      ground (arith, after_launch-careful r pod spec port w')

  run_image-careful :
      (e : Option String) (pod : Pod) (spec : VmSpec) (port : ℕ) (w : World)
      → careful env w.log ≡ true
      → found_none env spec.vm_name w.log ≡ true
      → careful env (run_image m settings env e pod spec port w).1.log ≡ true
  run_image-careful (some e) pod spec port w c n = fail-careful pod (failed e) e w ∙ c
  run_image-careful none pod spec port w c n =
      run_with-careful (macos_run_args m settings pod spec port) pod spec port w c n

  launch-careful :
      (pod : Pod) (spec : VmSpec) (port : ℕ) (w : World)
      → careful env w.log ≡ true
      → found_none env spec.vm_name w.log ≡ true
      → careful env (launch_macos m settings env pod spec port w).1.log ≡ true
  unfolding launch_macos
  launch-careful pod spec port w c n =
      let (e, w') = ensure_macos_image settings env spec.image w in
      let (c', n') = image-careful spec.image spec.vm_name w in
      run_image-careful e pod spec port w' (c' ∙ c) (n' ∙ n)

  start-careful :
      (args : Option (List String)) (name : String) (w : World)
      → careful env w.log ≡ true
      → found_dead env name w.log ≡ true
      → careful env (start_with settings env args name w).1.log ≡ true
  unfolding call careful
  start-careful none name w c d = c
  start-careful (some args) name w c d = ground arith

  restart-careful :
      (pod : Pod) (spec : VmSpec) (port : ℕ) (w : World)
      → careful env w.log ≡ true
      → found_dead env spec.vm_name w.log ≡ true
      → careful env (restart_macos m settings env pod spec port w).1.log ≡ true
  unfolding restart_macos start_macos_vm
  restart-careful pod spec port w c d =
      let args = append_macos_vnc_args settings ("vm" ∷ "start" ∷ []) port in
      let (r, w') = start_with settings env args spec.vm_name w in
      after_launch-careful r pod spec port w' ∙ start-careful args spec.vm_name w c d

  readopt-careful :
      (pod : Pod) (w : World)
      → careful env (readopt_macos_pod m settings env pod w).1.log ≡ careful env w.log
  readopt-careful =
      readopt-quiet (careful env) (careful-ignores env) (careful-inspects env) m settings env

  on_record-careful :
      (rec : Option MacosVmRecord) (alive : Bool) (pod : Pod) (spec : VmSpec) (w : World)
      → careful env w.log ≡ true
      → (rec ≡ none → found_none env spec.vm_name w.log ≡ true)
      → (alive ≡ false → is_none rec ≡ false → found_dead env spec.vm_name w.log ≡ true)
      → careful env (on_record m settings env rec alive pod spec w).1.log ≡ true
  on_record-careful none alive pod spec w c n d =
      let (t, port) = claim_section m settings env pod w.tables in
      launch-careful pod spec port (record w { tables = t }) c (n refl)
  on_record-careful (some rec) true pod spec w c n d =
      let (t, port) = adopt_macos_vnc_port (key_of m pod) rec.vnc w.tables in
      register-careful pod spec (some rec) port (record w { tables = t }) ∙ c
  on_record-careful (some rec) false pod spec w c n d =
      let (t, port) = claim_section m settings env pod w.tables in
      restart-careful pod spec port (record w { tables = t }) c (d refl refl)

  -- From the inspect on, whose record names the process `pid`.
  process-careful :
      (pid : ℕ) (rec : MacosVmRecord) (pod : Pod) (spec : VmSpec) (t : Tables) (log : List Effect)
      → let seen : List Effect = macos_inspect spec.vm_name ∷ log in
        careful env log ≡ true
        → found_pid env spec.vm_name pid seen ≡ true
        → let (alive, w) =
            macos_process_alive settings env pid (record { tables = t; log = seen }) in
          careful env (on_record m settings env (some rec) alive pod spec w).1.log ≡ true
  unfolding macos_process_alive call careful found_dead
  process-careful zero rec pod spec t log c p =
      let seen = macos_inspect spec.vm_name ∷ log in
      on_record-careful (some rec) false pod spec (record { tables = t; log = seen }) c (λ e. cc)
        (λ a e. p)
  process-careful (suc pid) rec pod spec t log c p =
      let log' = process_alive (suc pid) ∷ macos_inspect spec.vm_name ∷ log in
      on_record-careful (some rec) (env.macos_alive log') pod spec
        (record { tables = env.others log' t; log = log' }) c (λ e. cc) (λ a e. ground arith)

  seen-careful :
      (rec : Option MacosVmRecord) (pod : Pod) (spec : VmSpec) (t : Tables) (log : List Effect)
      → let seen : List Effect = macos_inspect spec.vm_name ∷ log in
        env.macos_record seen ≡ rec
        → careful env log ≡ true
        → let (alive, w) = record_alive settings env rec (record { tables = t; log = seen }) in
          careful env (on_record m settings env rec alive pod spec w).1.log ≡ true
  unfolding careful found_none found_pid
  seen-careful none pod spec t log e c =
      let seen = macos_inspect spec.vm_name ∷ log in
      on_record-careful none false pod spec (record { tables = t; log = seen }) c
        (λ n. ground (arith, eq_refl spec.vm_name)) (λ a n. cc)
  seen-careful (some rec) pod spec t log e c =
      process-careful rec.pid rec pod spec t log c (ground (arith, eq_refl spec.vm_name))

  create_untracked-careful :
      (pod : Pod) (spec : VmSpec) (w : World)
      → careful env w.log ≡ true
      → careful env (create_untracked_macos m settings env pod spec w).1.log ≡ true
  unfolding create_untracked_macos call
  create_untracked-careful pod spec w c =
      let seen = macos_inspect spec.vm_name ∷ w.log in
      seen-careful (env.macos_record seen) pod spec (env.others seen w.tables) w.log refl c

-- However the calls are answered and whatever other goroutines do, a create of a macOS pod sends `vm run`
-- for its guest only when the last inspect of a guest, in the same create, was one of this guest and
-- found no record, and `vm start` only when that record named no process or one that was asked for
-- since and did not live; it removes no guest and no VM.
pub create_macos_pod-careful :
    (m : Meta) (settings : Settings) (env : Env) (pod : Pod) (spec : VmSpec) (t : Tables)
    → careful env (create_macos_pod m settings env pod spec (record { tables = t; log = [] })).1.log
      ≡ true
unfolding create_macos_pod careful
create_macos_pod-careful m settings env pod spec t =
    let w : World = record { tables = t; log = [] } in
    ground (
      arith,
      fail-careful m settings env pod (failed "missing image") "missing image" w,
      readopt-careful m settings env pod w,
      create_untracked-careful m settings env pod spec w,
    )
