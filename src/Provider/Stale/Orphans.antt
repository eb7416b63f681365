-- ===== src/Provider/Stale/Orphans.antt =====
-- Which VMs the startup keeps, and when it removes one (provider/cocoon/reconcile.go).
use vk_cocoon.Base.{
  ℕ, suc, ◌≡◌, ◌≢◌, refl, ◌∙◌, arith, true, false, Option, none, some, String, List, [], ◌∷◌, ◌==◌,
  eq_iff,
}
use vk_cocoon.Base.Seq.{All}
use vk_cocoon.Kube.{Meta}
use vk_cocoon.Vm.{Vm, Reply, ok, err, StaleCreateOutcome, state_running, state_creating}
use vk_cocoon.Provider.State.{Settings, OrphanPolicy}
use vk_cocoon.Provider.World.{
  Env, World, Effect, call, vm_remove, vm_inspect, reconcile_stale_create,
}
use vk_cocoon.Provider.Stale.{
  Settled, handle_orphan, classify_seen, classify_settled_create, watch_busy_create, keep_settled,
  keep_outcome, keep_created, cons_kept, reconcile_stale_creates,
}

-- The VM is no placeholder of a create.
abbrev pub IsCreated : Vm → Type 0
IsCreated v = (v.state == state_creating) ≡ false

abbrev IsCreatedOpt : Option Vm → Type 0
IsCreatedOpt none = Unit {0}
IsCreatedOpt (some v) = IsCreated v

abbrev IsCreatedIn : Settled → Type 0
IsCreatedIn (Settled.adoptable v) = IsCreated v
IsCreatedIn _ = Unit {0}

unfoldable pub removals : List Effect → ℕ
removals [] = 0
removals (vm_remove id ∷ log) = suc (removals log)
removals (e ∷ log) = removals log

running-IsCreated : (v : Vm) → (v.state == state_running) ≡ true → IsCreated v
running-IsCreated v h = rw ((eq_iff v.state state_running).0 h) refl

module _ (m : Meta) (settings : Settings) (env : Env) where
  classify_seen-IsCreated :
      (r : Reply Vm) (w : World) → IsCreatedIn (classify_seen m settings env r w).0
  classify_seen-IsCreated Reply.not_found w = tt
  classify_seen-IsCreated (err e) w = tt
  classify_seen-IsCreated (ok v) w = ground (arith, running-IsCreated v)

  keep_settled-IsCreated :
      (s : Settled) (v : Vm) (w : World)
      → IsCreatedIn s
      → IsCreatedOpt (keep_settled m settings env s v w).0
  keep_settled-IsCreated (Settled.adoptable u) v w h = h
  keep_settled-IsCreated Settled.settled v w h = tt
  keep_settled-IsCreated Settled.transitional v w h = tt

  keep_outcome-IsCreated :
      (r : Reply StaleCreateOutcome) (v : Vm) (w : World)
      → IsCreatedOpt (keep_outcome m settings env r v w).0
  unfolding classify_settled_create
  keep_outcome-IsCreated (err e) v w = tt
  keep_outcome-IsCreated Reply.not_found v w = tt
  keep_outcome-IsCreated (ok StaleCreateOutcome.busy) v w = tt
  keep_outcome-IsCreated (ok StaleCreateOutcome.not_creating) v w =
      let (r, w1) = call env env.vm (vm_inspect v.id) w in
      let (s, w2) = classify_seen m settings env r w1 in
      keep_settled-IsCreated s v w2 (classify_seen-IsCreated r w1)
  keep_outcome-IsCreated (ok StaleCreateOutcome.collected) v w = tt
  keep_outcome-IsCreated (ok StaleCreateOutcome.not_found) v w = tt

  keep_created-IsCreated : (v : Vm) (w : World) → IsCreatedOpt (keep_created m settings env v w).0
  unfolding keep_created
  keep_created-IsCreated v w =
      let (r, w') = call env env.outcome (reconcile_stale_create v.id) w in
      ground (arith, keep_outcome-IsCreated r v w')

  cons_kept-IsCreated :
      (o : Option Vm) (kept : List Vm)
      → IsCreatedOpt o
      → All IsCreated kept
      → All IsCreated (cons_kept m settings env o kept)
  cons_kept-IsCreated none kept h hs = hs
  cons_kept-IsCreated (some v) kept h hs = (h, hs)

  -- Whatever the verb and the inspections answer, no VM that the startup goes on with is a
  -- placeholder of a create, so none is adopted.
  pub reconcile_stale_creates-IsCreated :
      (vms : List Vm) (w : World) → All IsCreated (reconcile_stale_creates m settings env vms w).0
  unfolding reconcile_stale_creates
  reconcile_stale_creates-IsCreated [] w = tt
  reconcile_stale_creates-IsCreated (v ∷ vms) w =
      let (kept, w') = keep_created m settings env v w in
      cons_kept-IsCreated kept _ (keep_created-IsCreated v w)
        (reconcile_stale_creates-IsCreated vms w')

module _ (m : Meta) (settings : Settings) (env : Env)
    (spares : settings.orphan_policy ≢ OrphanPolicy.destroy) where
  handle_orphan-removals :
      (v : Vm) (w : World) → removals (handle_orphan m settings env v w).1.log ≡ removals w.log
  unfolding handle_orphan
  handle_orphan-removals v w = ground arith

  classify_seen-removals :
      (r : Reply Vm) (w : World)
      → removals (classify_seen m settings env r w).1.log ≡ removals w.log
  classify_seen-removals Reply.not_found w = refl
  classify_seen-removals (err e) w = refl
  classify_seen-removals (ok v) w = ground (arith, handle_orphan-removals v w)

  watch-removals :
      (v : Vm) (w : World) → removals (watch_busy_create m settings env v w).1.log ≡ removals w.log
  unfolding watch_busy_create call removals
  watch-removals v w = refl

  keep_settled-removals :
      (s : Settled) (v : Vm) (w : World)
      → removals (keep_settled m settings env s v w).1.log ≡ removals w.log
  keep_settled-removals (Settled.adoptable u) v w = refl
  keep_settled-removals Settled.settled v w = refl
  keep_settled-removals Settled.transitional v w = watch-removals v w

  inspect-removals :
      (id : String) (w : World)
      → removals (call env env.vm (vm_inspect id) w).1.log ≡ removals w.log
  unfolding call removals
  inspect-removals id w = refl

  verb-removals :
      (id : String) (w : World)
      → removals (call env env.outcome (reconcile_stale_create id) w).1.log ≡ removals w.log
  unfolding call removals
  verb-removals id w = refl

  keep_outcome-removals :
      (r : Reply StaleCreateOutcome) (v : Vm) (w : World)
      → removals (keep_outcome m settings env r v w).1.log ≡ removals w.log
  unfolding classify_settled_create
  keep_outcome-removals (err e) v w = watch-removals v w
  keep_outcome-removals Reply.not_found v w = watch-removals v w
  keep_outcome-removals (ok StaleCreateOutcome.busy) v w = watch-removals v w
  keep_outcome-removals (ok StaleCreateOutcome.not_creating) v w =
      let (r, w1) = call env env.vm (vm_inspect v.id) w in
      let (s, w2) = classify_seen m settings env r w1 in
      keep_settled-removals s v w2 ∙ (classify_seen-removals r w1 ∙ inspect-removals v.id w)
  keep_outcome-removals (ok StaleCreateOutcome.collected) v w = refl
  keep_outcome-removals (ok StaleCreateOutcome.not_found) v w = refl

  keep_created-removals :
      (v : Vm) (w : World) → removals (keep_created m settings env v w).1.log ≡ removals w.log
  unfolding keep_created
  keep_created-removals v w =
      let (r, w') = call env env.outcome (reconcile_stale_create v.id) w in
      ground (arith, verb-removals v.id w, keep_outcome-removals r v w')

  -- Unless the orphan policy is to destroy, sorting out the creates that a restart left behind sends
  -- no removal of a VM, whatever the verb and the inspections answer.
  pub reconcile_stale_creates-removals :
      (vms : List Vm) (w : World)
      → removals (reconcile_stale_creates m settings env vms w).1.log ≡ removals w.log
  unfolding reconcile_stale_creates
  reconcile_stale_creates-removals [] w = refl
  reconcile_stale_creates-removals (v ∷ vms) w =
      let w' = (keep_created m settings env v w).1 in
      reconcile_stale_creates-removals vms w' ∙ keep_created-removals v w
