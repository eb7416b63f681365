-- ===== src/Provider/PostClone/Assigned.antt =====
-- One static NIC of a Windows guest is given its address over the console (postclone.go).
use vk_cocoon.Base.{
  ℕ, zero, suc, ◌≤◌, ◌≡◌, refl, arith, ◌⊎◌, inl, inr, true, Option, none, some, String, List, [],
  ◌∷◌, is_empty, Bool-cases,
}
use vk_cocoon.Base.Seq.{length}
use vk_cocoon.Resources.{prefix_to_subnet}
use vk_cocoon.Cli.{decimal}
use vk_cocoon.Guest.{NetRow, IsDistinct, parse_net_entries-IsDistinct}
use vk_cocoon.Kube.{Meta}
use vk_cocoon.Vm.{NetworkConfig, NetworkInfo, Reply, ok, not_found, err}
use vk_cocoon.Provider.State.{Settings}
use vk_cocoon.Provider.World.{Env, World, Effect, Io, sac_run, sleep, call}
use vk_cocoon.Provider.PostClone.Sac.{
  SacEnd, listing, set_command, dotted, found_of, lists, shows, is_ok, sac_enumerate_nics,
  sac_set_nic_ip, sac_ip_set_retries, sac_retry_interval, set_info, after_set, set_nics,
}

module _ (env : Env) (id : String) where
  -- The command that sets the address of the interface was given: `i <number> <ip> <mask> <gateway>`.
  abbrev pub Given : ℕ → NetworkInfo → List Effect → Type 0
  Given num info [] = ⊥
  Given num info (e ∷ log) =
      (e
        ≡ sac_run id (
            "i"
            ∷ decimal num
            ∷ info.ip
            ∷ dotted (prefix_to_subnet info.prefix)
            ∷ info.gateway
            ∷ []))
      ⊎ Given num info log

  -- After it was given, the console listed the address under the number.
  abbrev pub Assigned : ℕ → NetworkInfo → List Effect → Type 0
  Assigned num info [] = ⊥
  Assigned num info (e ∷ log) =
      ((e ≡ sac_run id listing)
        × (shows (env.net_rows (e ∷ log)) num info.ip ≡ true)
        × Given num info log)
      ⊎ Assigned num info log

  abbrev pub AssignedIfStatic : ℕ → Option NetworkInfo → List Effect → Type 0
  AssignedIfStatic num none log = Unit
  AssignedIfStatic num (some info) log = (is_empty info.ip ≡ true) ⊎ Assigned num info log

  -- The NICs in order, each with the number at its place.
  abbrev pub Placed : List ℕ → List NetworkConfig → List Effect → Type 0
  Placed nums [] log = Unit
  Placed [] (nc ∷ rest) log = ⊥
  Placed (num ∷ nums) (nc ∷ rest) log = AssignedIfStatic num nc.network log × Placed nums rest log

  abbrev pub SetEnd : Option String → ℕ → Option NetworkInfo → List Effect → Type 0
  SetEnd none num network log = AssignedIfStatic num network log
  SetEnd (some e) num network log = Unit

  abbrev pub ListEnd : Reply (List ℕ) → ℕ → Type 0
  ListEnd (ok nums) want = (want ≤ length nums) × IsDistinct nums
  ListEnd not_found want = Unit
  ListEnd (err e) want = Unit

  pub AssignedIfStatic-later :
      (num : ℕ) (network : Option NetworkInfo) (e : Effect) (log : List Effect)
      → AssignedIfStatic num network log
      → AssignedIfStatic num network (e ∷ log)
  AssignedIfStatic-later num none e log h = tt
  AssignedIfStatic-later num (some info) e log (inl h) = inl h
  AssignedIfStatic-later num (some info) e log (inr h) = inr (inr h)

  module _ (m : Meta) (settings : Settings) where
    -- What an address once assigned outlives.
    module _ (P : List Effect → Type 0)
        (later : (e : Effect) (log : List Effect) → P log → P (e ∷ log)) where
      set_nic-later :
          (n num : ℕ) (info : NetworkInfo) (w : World)
          → P w.log
          → P (sac_set_nic_ip m settings env id n num info w).1.log
      unfolding sac_set_nic_ip call
      set_nic-later zero num info w h = h
      set_nic-later (suc zero) num info w h =
          let set = sac_run id (set_command num info) in
          ground (arith, later set w.log h, later (sac_run id listing) (set ∷ w.log))
      set_nic-later (suc (suc n)) num info w h =
          let set = sac_run id (set_command num info) in
          let log = sac_run id listing ∷ set ∷ w.log in
          let nap = sleep sac_retry_interval in
          let t =
            env.others (sac_run id listing ∷ set ∷ w.log) (env.others (set ∷ w.log) w.tables) in
          ground (
            arith,
            later set w.log h,
            later (sac_run id listing) (set ∷ w.log),
            later nap log,
            set_nic-later (suc n) num info
                (record { tables = env.others (nap ∷ log) t; log = nap ∷ log }),
          )

      set_info-later :
          (num : ℕ) (network : Option NetworkInfo) (w : World)
          → P w.log
          → P (set_info m settings env id num network w).1.log
      set_info-later num none w h = h
      set_info-later num (some info) w h = set_nic-later sac_ip_set_retries num info w h

      after_set-later :
          (e : Option String) (rest : Io SacEnd) (w : World)
          → ((u : World) → P u.log → P (rest u).1.log)
          → P w.log
          → P (after_set m settings env id e rest w).1.log
      after_set-later none rest w k h = k w h
      after_set-later (some e) rest w k h = h

      pub set_nics-later :
          (nums : List ℕ) (configs : List NetworkConfig) (w : World)
          → P w.log
          → P (set_nics m settings env id nums configs w).1.log
      unfolding set_nics
      set_nics-later nums [] w h = h
      set_nics-later [] (nc ∷ rest) w h = ground (arith, set_nics-later [] rest w h)
      set_nics-later (num ∷ nums) (nc ∷ rest) w h =
          let (e, w1) = set_info m settings env id num nc.network w in
          ground (
            arith,
            set_info-later num nc.network w h,
            after_set-later e (set_nics m settings env id nums rest) w1 (set_nics-later nums rest),
            set_nics-later nums rest w h,
          )

    lists-end :
        (r : Reply (List NetRow)) (want : ℕ) (found : List ℕ)
        → lists r want ≡ true
        → ListEnd (ok (found_of r found)) want
    lists-end (ok rows) want found h = (ground arith, parse_net_entries-IsDistinct rows)
    lists-end not_found want found h = cc
    lists-end (err e) want found h = cc

    pub set_nic-end :
        (n num : ℕ) (info : NetworkInfo) (w : World)
        → SetEnd
            (sac_set_nic_ip m settings env id (suc n) num info w).0
            num
            (some info)
            (sac_set_nic_ip m settings env id (suc n) num info w).1.log
    unfolding sac_set_nic_ip call set_command
    set_nic-end zero num info w =
        let log1 = sac_run id (set_command num info) ∷ w.log in
        let log2 = sac_run id listing ∷ log1 in
        elim (Bool-cases (is_ok (env.done log1))) [
          | inr refused ↦ rw refused tt
          | inl given ↦ rw given (elim (Bool-cases (shows (env.net_rows log2) num info.ip)) [
            | inl shown ↦ rw shown (inr (inl (refl, shown, inl refl)))
            | inr unseen ↦ rw unseen tt
          ])
        ]
    set_nic-end (suc n) num info w =
        let log1 = sac_run id (set_command num info) ∷ w.log in
        let log2 = sac_run id listing ∷ log1 in
        elim (Bool-cases (is_ok (env.done log1))) [
          | inr refused ↦ rw refused tt
          | inl given ↦ rw given (elim (Bool-cases (shows (env.net_rows log2) num info.ip)) [
            | inl shown ↦ rw shown (inr (inl (refl, shown, inl refl)))
            | inr unseen ↦
                rw unseen (elim (Bool-cases (env.awake (sleep sac_retry_interval ∷ log2))) [
                  | inr canceled ↦ rw canceled tt
                  | inl slept ↦ rw slept (set_nic-end n num info _)
                ])
          ])
        ]

    pub enumerate-end :
        (n want : ℕ) (found : List ℕ) (w : World)
        → ListEnd (sac_enumerate_nics m settings env id (suc n) want found w).0 want
    unfolding sac_enumerate_nics call
    enumerate-end zero want found w =
        let r = env.net_rows (sac_run id listing ∷ w.log) in
        elim (Bool-cases (lists r want)) [
          | inl enough ↦ rw enough (lists-end r want found enough)
          | inr few ↦ rw few tt
        ]
    enumerate-end (suc n) want found w =
        let log = sac_run id listing ∷ w.log in
        let r = env.net_rows log in
        elim (Bool-cases (lists r want)) [
          | inl enough ↦ rw enough (lists-end r want found enough)
          | inr few ↦ rw few (elim (Bool-cases (env.awake (sleep sac_retry_interval ∷ log))) [
            | inl slept ↦ rw slept (enumerate-end n want (found_of r found) _)
            | inr canceled ↦ rw canceled tt
          ])
        ]
