-- ===== src/Provider/Startup/Matched.antt =====
-- A VM that a pod names is matched to it, or is not there (provider/cocoon/reconcile.go).
use vk_cocoon.Base.{
  ◌≡◌, refl, arith, ◌⊎◌, inl, inr, true, false, Option, none, some, String, List, [], ◌∷◌, ◌==◌,
  eq_iff, eq_refl, is_empty, Bool-cases, if◌then◌else◌,
}
use vk_cocoon.Base.Seq.{All}
use vk_cocoon.Base.Table.{Table, lookup, insert, lookup-insert}
use vk_cocoon.Kube.{Pod, Meta}
use vk_cocoon.Vm.{Vm}
use vk_cocoon.Spec.{is_macos_spec}
use vk_cocoon.Provider.State.{Settings}
use vk_cocoon.Provider.World.{Env, World}
use vk_cocoon.Provider.Startup.{
  PodMatch, matched, unmatched, macos_guest, vms_by_id, match_ids, matched_ids, is_matched,
  match_found, match_pod, match_pods,
}

-- The index by id: a row stands under its own id, and no VM is left out.
abbrev pub IsKeyed : Table Vm → Type 0
IsKeyed rows = (k : String) (v : Vm) → lookup k rows ≡ some v → v.id ≡ k

insert-IsKeyed : (u : Vm) (rows : Table Vm) → IsKeyed rows → IsKeyed (insert u.id u rows)
insert-IsKeyed u rows h k v e = ground (arith, lookup-insert u.id k u rows, h k v, eq_iff u.id k)

pub empty-IsKeyed : IsKeyed []
unfolding lookup
empty-IsKeyed k v e = cc

pub vms_by_id-IsKeyed :
    (vms : List Vm) (rows : Table Vm) → IsKeyed rows → IsKeyed (vms_by_id vms rows)
unfolding vms_by_id
vms_by_id-IsKeyed [] rows h = h
vms_by_id-IsKeyed (u ∷ rest) rows h =
    vms_by_id-IsKeyed rest (insert u.id u rows) (insert-IsKeyed u rows h)

pub vms_by_id-absent :
    (id : String) (vms : List Vm) (rows : Table Vm)
    → lookup id (vms_by_id vms rows) ≡ none
    → (lookup id rows ≡ none) × All (λ (v : Vm). (v.id == id) ≡ false) vms
unfolding vms_by_id
vms_by_id-absent id [] rows h = (h, tt)
vms_by_id-absent id (u ∷ rest) rows h =
    let (before, others) = vms_by_id-absent id rest (insert u.id u rows) h in
    (
      ground (arith, lookup-insert u.id id u rows),
      (ground (arith, lookup-insert u.id id u rows), others),
    )

pub matched_or_absent :
    (id : String) (ids : List String) (vms : List Vm)
    → (is_matched id ids ≡ true) ⊎ (lookup id (vms_by_id vms []) ≡ none)
    → (is_matched id ids ≡ true) ⊎ All (λ (v : Vm). (v.id == id) ≡ false) vms
matched_or_absent id ids vms (inl h) = inl h
matched_or_absent id ids vms (inr h) = inr (vms_by_id-absent id vms [] h).1

-- A pod of a cloud guest carries the id of its VM.
abbrev pub Names : Meta → String → Pod → Type 0
Names m id pod = (is_macos_spec m (m.parse_vm_spec pod) ≡ false) × (m.runtime_vm_id pod ≡ id)

abbrev pub NamedBy : Meta → String → List Pod → Type 0
NamedBy m id [] = ⊥
NamedBy m id (pod ∷ rest) = Names m id pod ⊎ NamedBy m id rest

is_matched-match_ids :
    (id : String) (r : PodMatch) (ids : List String)
    → is_matched id (match_ids r ids)
      ≡ (if is_matched id (match_ids r []) then true else is_matched id ids)
unfolding is_matched
is_matched-match_ids id (matched i) ids = ground arith
is_matched-match_ids id macos_guest ids = refl
is_matched-match_ids id unmatched ids = refl

module _ (m : Meta) (settings : Settings) (env : Env) (id : String) (given : is_empty id ≡ false)
    (by_id by_name : Table Vm) (keyed : IsKeyed by_id) where
  match_found-matched :
      (found : Option Vm) (pod : Pod) (w : World)
      → lookup id by_id ≡ found
      → (is_matched id (match_ids (match_found m settings env found pod w).0 []) ≡ true)
        ⊎ (lookup id by_id ≡ none)
  unfolding is_matched
  match_found-matched none pod w e = inr e
  match_found-matched (some v) pod w e = inl (ground (arith, keyed id v e, eq_refl id))

  match_pod-matched :
      (pod : Pod) (w : World)
      → Names m id pod
      → (is_matched id (match_ids (match_pod m settings env by_id by_name pod w).0 []) ≡ true)
        ⊎ (lookup id by_id ≡ none)
  unfolding match_pod is_matched
  match_pod-matched pod w (cloud, own) = elim (Bool-cases (m.parse_vm_spec pod).managed) [
    | inl managed ↦ ground (arith, match_found-matched (lookup id by_id) pod w refl)
    | inr free ↦ inl (ground (arith, eq_refl id))
  ]

  pub match_pods-matched :
      (pods : List Pod) (w : World)
      → NamedBy m id pods
      → (is_matched id (matched_ids (match_pods m settings env by_id by_name pods w).0) ≡ true)
        ⊎ (lookup id by_id ≡ none)
  unfolding match_pods
  match_pods-matched [] w h = absurd h
  match_pods-matched (pod ∷ rest) w (inl own) =
      let (r, w1) = match_pod m settings env by_id by_name pod w in
      let ids = matched_ids (match_pods m settings env by_id by_name rest w1).0 in
      ground (arith, match_pod-matched pod w own, is_matched-match_ids id r ids)
  match_pods-matched (pod ∷ rest) w (inr later) =
      let (r, w1) = match_pod m settings env by_id by_name pod w in
      let ids = matched_ids (match_pods m settings env by_id by_name rest w1).0 in
      ground (arith, match_pods-matched rest w1 later, is_matched-match_ids id r ids)
