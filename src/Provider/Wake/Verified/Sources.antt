-- ===== src/Provider/Wake/Verified/Sources.antt =====
-- The source of a wake, stage by stage, under the trail (update.go).
use vk_cocoon.Base.{◌≡◌, refl, Bool, true, ◌&&◌, Option, none, some, String, ◌∷◌, arith, eq_refl}
use vk_cocoon.Kube.{VmSpec, Meta}
use vk_cocoon.Resources.{CpuPolicy}
use vk_cocoon.Vm.{Reply, ok, not_found, err, Snapshot}
use vk_cocoon.Provider.State.{Settings}
use vk_cocoon.Provider.World.{
  Env, World, Manifest, call, snapshot_inspect, snapshot_pull, get_manifest, fetch_config,
}
use vk_cocoon.Provider.Delete.{remove_local_snapshots}
use vk_cocoon.Provider.Source.{
  Verdict, current, stale, unverified, WakeSource, import_name, restore_with, peer_of,
  manifest_or_fetch, config_or_fetch, after_pull, on_verdict, on_local, verify_local_snapshot,
  peer_base_url, try_peer_restore, pull_import, source_elsewhere, resolve_wake_source,
}
use vk_cocoon.Provider.Wake.{hibernate_clone_options, clone_from_hibernate}
use vk_cocoon.Provider.Wake.Verified.{
  trail, allows, sound, sound_option, seen, is_ok, id_or, current_if, base_image-seen,
  remove_local-careful, verify-current, base_url-seen, restore_from_sound, same_text, knows,
  knows_reply, knows_stale, knows_config, knows_id, text_in, from_of,
}

module _ (m : Meta) (settings : Settings) (env : Env) (name : String) (lax : Bool) where
  -- The clones so far were allowed, and so is the source that was found.
  abbrev pub holds : Option WakeSource → World → Bool
  holds s w =
      (seen m settings env name lax w).careful
      && sound_option m settings env name (seen m settings env name lax w) s

  abbrev pub holds_reply : Reply WakeSource → World → Bool
  holds_reply s w =
      (seen m settings env name lax w).careful
      && sound m settings env name (seen m settings env name lax w) s

  restore_with-holds :
      (id : Reply String) (node : String) (w : World)
      → (seen m settings env name lax w).careful ≡ true
      → same_text (seen m settings env name lax w).node (some node) ≡ true
      → knows_id m settings env name lax id w ≡ true
      → let (s, w') = restore_with m settings env id name node w in holds s w' ≡ true
  restore_with-holds (ok id) node w c k h =
      let (url, w') = peer_base_url m settings env node w in
      ground (
        arith,
        base_url-seen m settings env name lax node w,
        restore_from_sound m settings env name lax url node id w',
      )
  restore_with-holds not_found node w c k h = ground arith
  restore_with-holds (err e) node w c k h = ground arith

  config-seen :
      (cfg : Option String) (w : World)
      → knows_config m settings env name lax cfg w ≡ true
      → let (r, w') = config_or_fetch m settings env cfg name w in
        ((seen m settings env name lax w').careful ≡ (seen m settings env name lax w).careful)
        × ((seen m settings env name lax w').node ≡ (seen m settings env name lax w).node)
        × (knows_id m settings env name lax r w' ≡ true)
  unfolding call trail
  config-seen none w k =
      ground (arith, eq_refl name, eq_refl (text_in (env.config_id (fetch_config name ∷ w.log))))
  config-seen (some id) w k = (refl, refl, k)

  peer_of-holds :
      (man : Reply Manifest) (cfg : Option String) (w : World)
      → (seen m settings env name lax w).careful ≡ true
      → knows_reply m settings env name lax man w ≡ true
      → knows_config m settings env name lax cfg w ≡ true
      → let (s, w') = peer_of m settings env man name cfg w in holds s w' ≡ true
  peer_of-holds (ok man) cfg w c k h =
      let (id, w') = config_or_fetch m settings env cfg name w in
      ground (arith, config-seen cfg w, restore_with-holds id man.from_node w')
  peer_of-holds not_found cfg w c k h = ground arith
  peer_of-holds (err e) cfg w c k h = ground arith

  manifest-seen :
      (man : Option Manifest) (w : World)
      → knows m settings env name lax man w ≡ true
      → let (r, w') = manifest_or_fetch m settings env man name w in
        ((seen m settings env name lax w').careful ≡ (seen m settings env name lax w).careful)
        × ((seen m settings env name lax w').named ≡ (seen m settings env name lax w).named)
        × (knows_reply m settings env name lax r w' ≡ true)
  unfolding call trail
  manifest-seen none w k =
      ground (arith, eq_refl name, eq_refl (from_of (env.manifest (get_manifest name ∷ w.log))))
  manifest-seen (some man) w k = (refl, refl, k)

  kept-config :
      (cfg : Option String) (w w' : World)
      → (seen m settings env name lax w').named ≡ (seen m settings env name lax w).named
      → knows_config m settings env name lax cfg w' ≡ knows_config m settings env name lax cfg w
  kept-config none w w' h = refl
  kept-config (some id) w w' h = ground (arith, h)

  try_peer-holds :
      (man : Option Manifest) (cfg : Option String) (w : World)
      → (seen m settings env name lax w).careful ≡ true
      → knows m settings env name lax man w ≡ true
      → knows_config m settings env name lax cfg w ≡ true
      → let (s, w') = try_peer_restore m settings env name man cfg w in holds s w' ≡ true
  unfolding try_peer_restore
  try_peer-holds man cfg w c k h =
      let (r, w') = manifest_or_fetch m settings env man name w in
      ground (arith, manifest-seen man w, peer_of-holds r cfg w', kept-config cfg w w')

  after_pull-holds :
      (r : Reply (Unit {0})) (w : World)
      → (seen m settings env name lax w).careful ≡ true
      → (is_ok r ≡ true → (seen m settings env name lax w).pulled ≡ true)
      → let (s, w') = after_pull m settings env r name w in holds_reply s w' ≡ true
  unfolding call trail allows
  after_pull-holds (ok u) w c h = ground (arith, h refl, eq_refl (import_name m settings env name))
  after_pull-holds not_found w c h = ground arith
  after_pull-holds (err e) w c h = ground arith

  pull-holds :
      (w : World)
      → (seen m settings env name lax w).careful ≡ true
      → let (s, w') = pull_import m settings env name w in holds_reply s w' ≡ true
  unfolding pull_import call trail
  pull-holds w c =
      let e = snapshot_pull name m.hibernate_snapshot_tag (import_name m settings env name) in
      let (r, w') = call env env.done e w in
      ground (
        arith,
        after_pull-holds r w' c (λ h. ground (
          arith,
          eq_refl name,
          eq_refl m.hibernate_snapshot_tag,
          eq_refl (import_name m settings env name),
        )),
      )

  elsewhere-holds :
      (man : Option Manifest) (cfg : Option String) (w : World)
      → (seen m settings env name lax w).careful ≡ true
      → knows m settings env name lax man w ≡ true
      → knows_config m settings env name lax cfg w ≡ true
      → let (s, w') = source_elsewhere m settings env name man cfg w in holds_reply s w' ≡ true
  unfolding source_elsewhere
  elsewhere-holds man cfg w c k h =
      let (r, w') = try_peer_restore m settings env name man cfg w in
      ground (arith, try_peer-holds man cfg w, pull-holds w')

  on_verdict-holds :
      (v : Verdict) (s : Snapshot) (w : World)
      → (seen m settings env name lax w).careful
          && current_if m settings env name v (seen m settings env name lax w)
          && knows_stale m settings env name lax v w
        ≡ true
      → let (s, w') = on_verdict m settings env v name s w in holds_reply s w' ≡ true
  unfolding allows
  on_verdict-holds current s w c = ground (arith, eq_refl name)
  on_verdict-holds (unverified e) s w c = ground arith
  on_verdict-holds (stale none cfg) s w c =
      let w' = (remove_local_snapshots m settings env name w).1 in
      ground (arith, remove_local-careful m settings env name lax name w, pull-holds w')
  on_verdict-holds (stale (some man) cfg) s w c =
      let w' = (remove_local_snapshots m settings env name w).1 in
      ground (
        arith,
        remove_local-careful m settings env name lax name w,
        elsewhere-holds (some man) cfg w',
        kept-config cfg w w',
      )

  on_local-holds :
      (r : Reply Snapshot) (w : World)
      → (seen m settings env name lax w).careful ≡ true
      → (seen m settings env name lax w).local ≡ id_or (seen m settings env name lax w).local r
      → let (s, w') = on_local m settings env r name w in holds_reply s w' ≡ true
  on_local-holds (ok s) w c l =
      let (v, w') = verify_local_snapshot m settings env name s w in
      ground (arith, verify-current m settings env name lax s w, on_verdict-holds v s w')
  on_local-holds not_found w c l = elsewhere-holds none none w c refl refl
  on_local-holds (err e) w c l = ground arith

  id_or-twice : (o : Option String) (r : Reply Snapshot) → id_or o r ≡ id_or (id_or o r) r
  id_or-twice o (ok s) = refl
  id_or-twice o not_found = refl
  id_or-twice o (err e) = refl

  -- A wake source that `resolveWakeSource` returns is one that the history allows.
  pub resolve-holds :
      (w : World)
      → (seen m settings env name lax w).careful ≡ true
      → let (s, w') = resolve_wake_source m settings env name w in holds_reply s w' ≡ true
  unfolding resolve_wake_source call trail
  resolve-holds w c =
      let (r, w') = call env env.snapshot (snapshot_inspect name) w in
      ground (
        arith,
        eq_refl name,
        id_or-twice (seen m settings env name lax w).local r,
        on_local-holds r w',
      )

  pub clone-careful :
      (spec : VmSpec) (s : WakeSource) (p : CpuPolicy) (w : World)
      → holds (some s) w ≡ true
      → (seen m settings env name lax (clone_from_hibernate m settings env spec s p w).1).careful
        ≡ true
  unfolding clone_from_hibernate hibernate_clone_options call trail
  clone-careful spec s p w c = ground (arith, base_image-seen m settings env name lax s.snapshot w)
