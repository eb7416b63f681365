-- ===== src/Tests/Keys.antt =====
-- The theorem on a flush during an outage at sample values.
use vk_cocoon.Base.{◌≡◌, refl, arith, leb, if◌then◌else◌, some, ◌∷◌, []}
use vk_cocoon.Base.Table.{lookup}
use vk_cocoon.Kube.{LifecycleState}
use vk_cocoon.Vm.{ok}
use vk_cocoon.Provider.State.{Tables}
use vk_cocoon.Provider.World.{Env, World, ApiReply, accepted, refused}
use vk_cocoon.Provider.Lifecycle.{lifecycle_owned}
use vk_cocoon.Provider.Flush.{FlushEnd, flush_lifecycle, flushed, name_taken, patch_superseded}
use vk_cocoon.Provider.Flush.Fence.{patches}
use vk_cocoon.Provider.Flush.Outage.{Recovers, Reached, flush_lifecycle-flushed}
use vk_cocoon.Tests.{
  sample_meta, sample_settings, pod_of, vm_of, entry_of, tables_with, world_of, env_of, state_text,
}

abbrev tables : Tables
tables =
    tables_with (pod_of "a" "u1" 2) (vm_of "vm-1" "vk-a" "running")
      (entry_of "u1" LifecycleState.ready 2)

-- The apiserver refuses two patches.
abbrev outage : Env
outage = record (env_of ApiReply.accepted (ok (vm_of "vm-1" "vk-a" "running")) (ok tt)) {
  api = λ log. if leb 3 (patches log) then accepted else refused "down";
}

outage-Recovers : Recovers outage
unfolding patch_superseded name_taken
outage-Recovers = record {
  alone = λ log t. refl;
  awake = λ log. refl;
  no_conflict = λ log. ground arith;
  back = λ log h. ground arith;
}

abbrev flushed_tables : FlushEnd × World
flushed_tables =
    flush_lifecycle sample_meta sample_settings outage "default/a" "u1"
      (entry_of "u1" LifecycleState.ready 2).status (world_of tables)

flush_lifecycle-flushed_example :
    (flushed_tables.0 ≡ flushed)
    × Reached outage "default/a" "u1"
        (("state", some (state_text LifecycleState.ready)) ∷ [])
        flushed_tables.1.log
flush_lifecycle-flushed_example =
    flush_lifecycle-flushed sample_meta sample_settings outage "default/a" "u1"
      (entry_of "u1" LifecycleState.ready 2).status tables outage-Recovers refl
      (unfold lifecycle_owned lookup in refl)
