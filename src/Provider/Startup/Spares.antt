-- ===== src/Provider/Startup/Spares.antt =====
-- A startup removes no VM that a pod names (provider/cocoon/reconcile.go).
use vk_cocoon.Base.{
  ◌≡◌, refl, ◌∙◌, arith, ◌⊎◌, inl, inr, Bool, true, false, Option, none, some, String, List, [],
  ◌∷◌, ◌==◌, eq_iff, is_empty, Bool-cases,
}
use vk_cocoon.Base.Seq.{All}
use vk_cocoon.Kube.{Pod, VmSpec, Meta}
use vk_cocoon.Vm.{Vm, MacosVmRecord}
use vk_cocoon.Provider.State.{Settings, key_of}
use vk_cocoon.Provider.World.{Env, World, call, vm_remove, macos_inspect}
use vk_cocoon.Provider.Runtime.{remove_vm}
use vk_cocoon.Provider.Stale.{handle_orphan}
use vk_cocoon.Provider.Resume.{owed_work}
use vk_cocoon.Provider.Quiet.{is_report, call-quiet, release_dhcp-quiet}
use vk_cocoon.Provider.Quiet.Status.{lift-quiet}
use vk_cocoon.Provider.Quiet.Bind.{start_probe-quiet}
use vk_cocoon.Provider.Lifecycle.{seed_lifecycle_intent}
use vk_cocoon.Provider.Macos.Vnc.{adopt_macos_vnc_port}
use vk_cocoon.Provider.Macos.Launch.{record_alive, macos_process_alive}
use vk_cocoon.Provider.Macos.Create.{
  inspect_guest, register_macos_vm, reconcile_macos_pod, on_startup_record, publish_adopted,
  lift_unless_hibernating,
}
use vk_cocoon.Provider.Macos.Quiet.{publish-quiet, register-quiet}
use vk_cocoon.Provider.Startup.{
  PodMatch, matched, unmatched, macos_guest, vms_by_id, vms_by_name, matched_ids, is_matched,
  match_pods, start_matched, start_all, orphan_unless, handle_orphans, dispatch_owed_work,
  reconcile_pods,
}
use vk_cocoon.Provider.Startup.Matched.{
  NamedBy, vms_by_id-IsKeyed, empty-IsKeyed, matched_or_absent, match_pods-matched,
}
use vk_cocoon.Provider.Startup.Untouched.{
  removed, removed-ignores, removed-inspects, match_pods-at, dispatch_all-at,
}

-- None of these steps removes the VM.
module _ (m : Meta) (settings : Settings) (env : Env) (id : String) where
  abbrev at : World → Bool
  at w = removed id w.log

  handle_orphan-at :
      (v : Vm) (w : World) → (v.id == id) ≡ false → at (handle_orphan m settings env v w).1 ≡ at w
  unfolding handle_orphan remove_vm call removed
  handle_orphan-at v w other =
      let log = vm_remove v.id ∷ w.log in
      let w' : World = record { tables = env.others log w.tables; log = log } in
      ground (arith, release_dhcp-quiet (removed id) (removed-ignores id) m settings env v w')

  orphan_unless-at :
      (b : Bool) (v : Vm) (w : World)
      → (b ≡ true) ⊎ ((v.id == id) ≡ false)
      → at (orphan_unless m settings env b v w).1 ≡ at w
  orphan_unless-at true v w h = refl
  orphan_unless-at false v w (inl e) = cc
  orphan_unless-at false v w (inr other) = handle_orphan-at v w other

  -- A VM of another id, or one that is matched.
  spared :
      (v : Vm) (ids : List String)
      → is_matched id ids ≡ true
      → (is_matched v.id ids ≡ true) ⊎ ((v.id == id) ≡ false)
  spared v ids h = elim (Bool-cases (v.id == id)) [
    | inl same ↦ inl (rw ((eq_iff v.id id).0 same) h)
    | inr other ↦ inr other
  ]

  handle_orphans-at :
      (vms : List Vm) (ids : List String) (w : World)
      → (is_matched id ids ≡ true) ⊎ All (λ (v : Vm). (v.id == id) ≡ false) vms
      → at (handle_orphans m settings env vms ids w).1 ≡ at w
  unfolding handle_orphans
  handle_orphans-at [] ids w h = refl
  handle_orphans-at (v ∷ rest) ids w (inl h) =
      let w' = (orphan_unless m settings env (is_matched v.id ids) v w).1 in
      handle_orphans-at rest ids w' (inl h)
      ∙ orphan_unless-at (is_matched v.id ids) v w (spared v ids h)
  handle_orphans-at (v ∷ rest) ids w (inr (other, others)) =
      let w' = (orphan_unless m settings env (is_matched v.id ids) v w).1 in
      handle_orphans-at rest ids w' (inr others)
      ∙ orphan_unless-at (is_matched v.id ids) v w (inr other)

  -- A macOS guest is inspected, bound and published.
  record_alive-at :
      (rec : Option MacosVmRecord) (w : World) → at (record_alive settings env rec w).1 ≡ at w
  unfolding macos_process_alive call removed
  record_alive-at none w = refl
  record_alive-at (some rec) w = ground arith

  publish_adopted-at :
      (r : Pod × Bool) (w : World) → at (publish_adopted m settings env r w).1 ≡ at w
  publish_adopted-at (pod, false) w = refl
  publish_adopted-at (pod, true) w =
      let w' = (lift_unless_hibernating m settings env (m.read_hibernate_state pod) pod w).1 in
      ground (
        arith,
        lift-quiet (removed id) (removed-ignores id) (removed-inspects id) m settings env pod w,
        publish-quiet (removed id) (removed-ignores id) (removed-inspects id) m settings env
            (key_of m pod) w',
      )

  on_startup_record-at :
      (rec : Option MacosVmRecord) (alive : Bool) (pod : Pod) (spec : VmSpec) (w : World)
      → at (on_startup_record m settings env rec alive pod spec w).1 ≡ at w
  on_startup_record-at none alive pod spec w = refl
  on_startup_record-at (some rec) false pod spec w = refl
  on_startup_record-at (some rec) true pod spec w =
      let seeded = seed_lifecycle_intent m pod w.tables in
      let (t, port) = adopt_macos_vnc_port (key_of m pod) rec.vnc seeded in
      let w1 : World = record w { tables = t } in
      let (r, w2) = register_macos_vm m settings env pod spec (some rec) port w1 in
      publish_adopted-at r w2
      ∙ register-quiet (removed id) (removed-ignores id) (removed-inspects id) m settings env pod
          spec (some rec) port w1

  macos-at :
      (pod : Pod) (spec : VmSpec) (w : World)
      → at (reconcile_macos_pod m settings env pod spec w).1 ≡ at w
  unfolding reconcile_macos_pod
  macos-at pod spec w =
      let (rec, w1) = inspect_guest m settings env spec.vm_name w in
      let (alive, w2) = record_alive settings env rec w1 in
      ground (
        arith,
        call-quiet (removed id) (removed-ignores id) m settings env env.macos_record
            (macos_inspect spec.vm_name) w (unfold is_report in refl),
        record_alive-at rec w1,
        on_startup_record-at rec alive pod spec w2,
      )

  start_matched-at :
      (pod : Pod) (r : PodMatch) (w : World) → at (start_matched m settings env pod r w).1 ≡ at w
  start_matched-at pod (matched i) w =
      start_probe-quiet (removed id) (removed-ignores id) (removed-inspects id) m settings env pod w
  start_matched-at pod macos_guest w = macos-at pod (m.parse_vm_spec pod) w
  start_matched-at pod unmatched w = refl

  start_all-at :
      (matches : List (Pod × PodMatch)) (w : World)
      → at (start_all m settings env matches w).1 ≡ at w
  unfolding start_all
  start_all-at [] w = refl
  start_all-at ((pod, r) ∷ rest) w =
      let w' = (start_matched m settings env pod r w).1 in
      start_all-at rest w' ∙ start_matched-at pod r w

-- However the calls are answered and whatever other goroutines do, the startup's pass over the pods of
-- the node and the VMs that are past their create removes no VM whose id a pod of a cloud guest
-- carries, whatever the orphan policy; the id is not empty.
pub reconcile_pods-spares :
    (m : Meta) (settings : Settings) (env : Env) (id : String) (pods : List Pod) (vms : List Vm)
    (w : World)
    → is_empty id ≡ false
    → NamedBy m id pods
    → removed id (reconcile_pods m settings env pods vms w).1.log ≡ removed id w.log
unfolding reconcile_pods dispatch_owed_work
reconcile_pods-spares m settings env id pods vms w given named =
    let by_id = vms_by_id vms [] in
    let by_name = vms_by_name vms [] in
    let (matches, w1) = match_pods m settings env by_id by_name pods w in
    let w2 = (start_all m settings env matches w1).1 in
    let ids = matched_ids matches in
    let w3 = (handle_orphans m settings env vms ids w2).1 in
    let keyed = vms_by_id-IsKeyed vms [] empty-IsKeyed in
    let kept = match_pods-matched m settings env id given by_id by_name keyed pods w named in
    let t = w3.tables in
    dispatch_all-at m settings env id t.pods (owed_work m t.pods t.vms_by_pod) w3
    ∙ handle_orphans-at m settings env id vms ids w2 (matched_or_absent id ids vms kept)
    ∙ start_all-at m settings env id matches w1
    ∙ match_pods-at m settings env id by_id by_name pods w
