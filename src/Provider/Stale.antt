-- ===== src/Provider/Stale.antt =====
-- provider/cocoon/reconcile.go: what the startup does with VMs that are still being created, and with
-- VMs that no pod claims.
pub mod Orphans
pub mod Watch
pub mod Watched
use vk_cocoon.Base.{
  ℕ, suc, Bool, true, false, ◌||◌, Option, none, some, String, List, [], ◌∷◌, ◌==◌, nat_eq,
  if◌then◌else◌,
}
use vk_cocoon.Base.Table.{lookup, insert, delete}
use vk_cocoon.Kube.{Meta}
use vk_cocoon.Vm.{
  Vm, Reply, ok, err, StaleCreateOutcome, state_running, state_creating, state_created,
}
use vk_cocoon.Provider.State.{Tables, Settings, OrphanPolicy}
use vk_cocoon.Provider.Track.{index_orphan_by_name}
use vk_cocoon.Provider.World.{
  Env, Io, vm_inspect, reconcile_stale_create, background, ◌>>=◌, ◌>>◌, pure, locked, section, call,
  tell,
}
use vk_cocoon.Provider.Runtime.{remove_vm}

-- The section of `watchBusyCreate`: a new channel, here a number, stands under the name.
unfoldable pub note_busy_create : String → Tables → Tables × ℕ
note_busy_create name t = (
  record t {
    busy_creates = insert name t.next_object t.busy_creates;
    next_object = suc t.next_object;
  },
  t.next_object,
)

abbrev pub is_channel : ℕ → Option ℕ → Bool
is_channel settled none = false
is_channel settled (some c) = nat_eq c settled

-- The section of `settleBusyCreate`.
unfoldable pub settle_busy_create : String → ℕ → Tables → Tables
settle_busy_create name settled t =
    if is_channel settled (lookup name t.busy_creates)
    then record t { busy_creates = delete name t.busy_creates }
    else t

-- What a record past the verb is: a running VM, settled without one, or still in transition.
pub data Settled : Type 0 where
  adoptable : Vm → Settled
  settled transitional : Settled

module _ (m : Meta) (settings : Settings) (env : Env) where
  abbrev index_orphan : Vm → Io (Unit {0})
  index_orphan v = locked (index_orphan_by_name (some v))

  -- `handleOrphan`; a failed removal is logged only.
  unfoldable pub handle_orphan : Vm → Io (Unit {0})
  handle_orphan v = elim settings.orphan_policy [
    | OrphanPolicy.destroy ↦ do _ ← remove_vm m settings env v; pure tt
    | OrphanPolicy.keep ↦ index_orphan v
    | OrphanPolicy.alert ↦ index_orphan v
  ]

  abbrev pub classify_seen : Reply Vm → Io Settled
  classify_seen Reply.not_found = pure Settled.settled
  classify_seen (err e) = pure Settled.transitional
  classify_seen (ok v) = elim (v.state == state_running) [
    | true ↦ pure (Settled.adoptable v)
    | false ↦ elim (v.state == state_creating || v.state == state_created) [
      | true ↦ pure Settled.transitional
      | false ↦ do handle_orphan v; pure Settled.settled
    ]
  ]

  -- `classifySettledCreate`.
  unfoldable pub classify_settled_create : String → Io Settled
  classify_settled_create id = do r ← call env env.vm (vm_inspect id); classify_seen r

  -- `watchBusyCreate`, up to the goroutine that it starts.
  unfoldable pub watch_busy_create : Vm → Io (Unit {0})
  watch_busy_create v = do _ ← section (note_busy_create v.name); tell env (background v.id)

  abbrev keep_settled : Settled → Vm → Io (Option Vm)
  keep_settled (Settled.adoptable fresh) v = pure (some fresh)
  keep_settled Settled.settled v = pure none
  keep_settled Settled.transitional v = do watch_busy_create v; pure none

  abbrev keep_outcome : Reply StaleCreateOutcome → Vm → Io (Option Vm)
  keep_outcome (err e) v = do watch_busy_create v; pure none
  keep_outcome Reply.not_found v = do watch_busy_create v; pure none
  keep_outcome (ok StaleCreateOutcome.busy) v = do watch_busy_create v; pure none
  keep_outcome (ok StaleCreateOutcome.not_creating) v = do
    s ← classify_settled_create v.id
    keep_settled s v
  keep_outcome (ok StaleCreateOutcome.collected) v = pure none
  keep_outcome (ok StaleCreateOutcome.not_found) v = pure none

  -- The slot of `keep` that one VM of the startup list fills.
  unfoldable pub keep_created : Vm → Io (Option Vm)
  keep_created v = elim (v.state == state_creating) [
    | false ↦ pure (some v)
    | true ↦ do outcome ← call env env.outcome (reconcile_stale_create v.id); keep_outcome outcome v
  ]

  abbrev pub cons_kept : Option Vm → List Vm → List Vm
  cons_kept none kept = kept
  cons_kept (some v) kept = v ∷ kept

  -- `reconcileStaleCreates`; the source asks for the VMs side by side, here one after the other.
  unfoldable pub reconcile_stale_creates : List Vm → Io (List Vm)
  reconcile_stale_creates [] = pure []
  reconcile_stale_creates (v ∷ vms) = do
    kept ← keep_created v
    rest ← reconcile_stale_creates vms
    pure (cons_kept kept rest)
