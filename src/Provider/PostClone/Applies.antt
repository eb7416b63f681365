-- ===== src/Provider/PostClone/Applies.antt =====
-- When the console pass over a Windows guest ends without an error, every static NIC has its address
-- (postclone.go).
use vk_cocoon.Base.{
  ℕ, ◌≤◌, ◌≡◌, refl, arith, inl, Bool, true, false, Option, none, some, String, List, [], ◌∷◌,
}
use vk_cocoon.Base.Seq.{length}
use vk_cocoon.Guest.{IsDistinct}
use vk_cocoon.Kube.{Meta}
use vk_cocoon.Vm.{Vm, NetworkConfig, NetworkInfo, Reply, ok, not_found, err, has_ip, is_static_nic}
use vk_cocoon.Provider.State.{Settings}
use vk_cocoon.Provider.World.{Env, World, Effect, sac_dial, call}
use vk_cocoon.Provider.PostClone.Sac.{
  SacEnd, skipped, configured, panicked, failed, is_ok, sac_static_ip_needed, sac_enumerate_nics,
  sac_enum_retries, set_info, after_set, set_if_static, apply_if_needed, set_nics, set_listed,
  set_dialed, apply_windows_static_ip,
}
use vk_cocoon.Provider.PostClone.Assigned.{
  AssignedIfStatic, Placed, SetEnd, ListEnd, AssignedIfStatic-later, set_nics-later, set_nic-end,
  enumerate-end,
}

module _ (env : Env) (id : String) where
  abbrev NicsEnd : SacEnd → List ℕ → List NetworkConfig → List Effect → Type 0
  NicsEnd skipped nums configs log = ⊥
  NicsEnd configured nums configs log = Placed env id nums configs log
  NicsEnd panicked nums configs log = ⊥
  NicsEnd (failed e) nums configs log = Unit

  -- The end of the pass that ran.
  abbrev pub PassEnd : SacEnd → List NetworkConfig → List Effect → Type 0
  PassEnd skipped configs log = ⊥
  PassEnd configured configs log =
      (nums : List ℕ) × IsDistinct nums × Placed env id nums configs log
  PassEnd panicked configs log = ⊥
  PassEnd (failed e) configs log = Unit

  module _ (m : Meta) (settings : Settings) where
    free_network :
        (num : ℕ) (network : Option NetworkInfo) (log : List Effect)
        → has_ip network ≡ false
        → AssignedIfStatic env id num network log
    free_network num none log h = tt
    free_network num (some info) log h = inl (ground arith)

    -- A NIC without a static address needs nothing.
    free-AssignedIfStatic :
        (num : ℕ) (nc : NetworkConfig) (log : List Effect)
        → is_static_nic nc ≡ false
        → AssignedIfStatic env id num nc.network log
    unfolding is_static_nic
    free-AssignedIfStatic num nc log h = free_network num nc.network log h

    cons-NicsEnd :
        (end : SacEnd) (num : ℕ) (nums : List ℕ) (nc : NetworkConfig) (rest : List NetworkConfig)
        (log : List Effect)
        → AssignedIfStatic env id num nc.network log
        → NicsEnd end nums rest log
        → NicsEnd end (num ∷ nums) (nc ∷ rest) log
    cons-NicsEnd skipped num nums nc rest log a h = h
    cons-NicsEnd configured num nums nc rest log a h = (a, h)
    cons-NicsEnd panicked num nums nc rest log a h = h
    cons-NicsEnd (failed e) num nums nc rest log a h = tt

    set_info-end :
        (num : ℕ) (network : Option NetworkInfo) (w : World)
        → SetEnd env id
            (set_info m settings env id num network w).0
            num
            network
            (set_info m settings env id num network w).1.log
    set_info-end num none w = tt
    set_info-end num (some info) w = set_nic-end env id m settings 9 num info w

    after_set-end :
        (e : Option String) (num : ℕ) (nums : List ℕ) (nc : NetworkConfig)
        (rest : List NetworkConfig) (w : World)
        → SetEnd env id e num nc.network w.log
        → ((u : World)
            → NicsEnd
                (set_nics m settings env id nums rest u).0
                nums
                rest
                (set_nics m settings env id nums rest u).1.log)
        → (let r = after_set m settings env id e (set_nics m settings env id nums rest) w in
            NicsEnd r.0 (num ∷ nums) (nc ∷ rest) r.1.log)
    after_set-end (some e) num nums nc rest w a k = tt
    after_set-end none num nums nc rest w a k =
        let r = set_nics m settings env id nums rest w in
        cons-NicsEnd r.0 num nums nc rest r.1.log
          (set_nics-later env id m settings (AssignedIfStatic env id num nc.network)
            (AssignedIfStatic-later env id num nc.network) nums rest w a)
          (k w)

    set_if_static-end :
        (b : Bool) (num : ℕ) (nums : List ℕ) (nc : NetworkConfig) (rest : List NetworkConfig)
        (w : World)
        → is_static_nic nc ≡ b
        → ((u : World)
            → NicsEnd
                (set_nics m settings env id nums rest u).0
                nums
                rest
                (set_nics m settings env id nums rest u).1.log)
        → (let r =
              set_if_static m settings env id b num nc (set_nics m settings env id nums rest) w in
            NicsEnd r.0 (num ∷ nums) (nc ∷ rest) r.1.log)
    set_if_static-end true num nums nc rest w h k =
        let (e, w1) = set_info m settings env id num nc.network w in
        after_set-end e num nums nc rest w1 (set_info-end num nc.network w) k
    set_if_static-end false num nums nc rest w h k =
        let r = set_nics m settings env id nums rest w in
        cons-NicsEnd r.0 num nums nc rest r.1.log (free-AssignedIfStatic num nc r.1.log h) (k w)

    set_nics-end :
        (nums : List ℕ) (configs : List NetworkConfig) (w : World)
        → length configs ≤ length nums
        → (let r = set_nics m settings env id nums configs w in NicsEnd r.0 nums configs r.1.log)
    unfolding set_nics
    set_nics-end nums [] w h = tt
    set_nics-end [] (nc ∷ rest) w h = absurd (ground arith)
    set_nics-end (num ∷ nums) (nc ∷ rest) w h =
        set_if_static-end (is_static_nic nc) num nums nc rest w refl
          (λ u. set_nics-end nums rest u (ground arith))

    nics-PassEnd :
        (end : SacEnd) (nums : List ℕ) (configs : List NetworkConfig) (log : List Effect)
        → IsDistinct nums
        → NicsEnd end nums configs log
        → PassEnd end configs log
    nics-PassEnd skipped nums configs log d h = h
    nics-PassEnd configured nums configs log d h = (nums, d, h)
    nics-PassEnd panicked nums configs log d h = h
    nics-PassEnd (failed e) nums configs log d h = tt

    set_listed-end :
        (r : Reply (List ℕ)) (configs : List NetworkConfig) (w : World)
        → ListEnd env id r (length configs)
        → (let end = set_listed m settings env id r configs w in PassEnd end.0 configs end.1.log)
    set_listed-end (ok nums) configs w (enough, d) =
        let r = set_nics m settings env id nums configs w in
        nics-PassEnd r.0 nums configs r.1.log d (set_nics-end nums configs w enough)
    set_listed-end not_found configs w h = tt
    set_listed-end (err e) configs w h = tt

    pub set_dialed-end :
        (dialed : Bool) (configs : List NetworkConfig) (w : World)
        → (let end = set_dialed m settings env id dialed configs w in
            PassEnd end.0 configs end.1.log)
    set_dialed-end false configs w = tt
    set_dialed-end true configs w =
        let (r, w1) = sac_enumerate_nics m settings env id sac_enum_retries (length configs) [] w in
        set_listed-end r configs w1 (enumerate-end env id m settings 59 (length configs) [] w)

-- How the pass over a guest may end: without a console or a static NIC it is skipped, and nothing is
-- done.
abbrev pub AppliesAddresses : Settings → Env → Vm → World → SacEnd × World → Type 0
AppliesAddresses settings env v w (skipped, w') =
    (sac_static_ip_needed settings v ≡ false) × (w'.log ≡ w.log)
AppliesAddresses settings env v w (end, w') = PassEnd env v.id end v.network_configs w'.log

ran-Applies :
    (end : SacEnd) (settings : Settings) (env : Env) (v : Vm) (w w' : World)
    → PassEnd env v.id end v.network_configs w'.log
    → AppliesAddresses settings env v w (end, w')
ran-Applies skipped settings env v w w' h = absurd h
ran-Applies configured settings env v w w' h = h
ran-Applies panicked settings env v w w' h = h
ran-Applies (failed e) settings env v w w' h = h

apply_if_needed-Applies :
    (b : Bool) (m : Meta) (settings : Settings) (env : Env) (v : Vm) (w : World)
    → sac_static_ip_needed settings v ≡ b
    → AppliesAddresses settings env v w (apply_if_needed m settings env b v w)
unfolding call
apply_if_needed-Applies false m settings env v w h = (h, refl)
apply_if_needed-Applies true m settings env v w h =
    let (dialed, w1) = call env env.done (sac_dial v.id) w in
    let r = set_dialed m settings env v.id (is_ok dialed) v.network_configs w1 in
    ran-Applies r.0 settings env v w r.1
      (set_dialed-end env v.id m settings (is_ok dialed) v.network_configs w1)

-- However the console answers, the pass reads no interface number out of range. When it runs to its
-- end, the NICs stand in order for interface numbers of which no two are equal, and each NIC with a
-- static address was given it under its number, after which the console listed it there. It is
-- skipped only when no console is set or no NIC is static, and then makes no call.
pub apply_windows_static_ip-Applies :
    (m : Meta) (settings : Settings) (env : Env) (v : Vm) (w : World)
    → AppliesAddresses settings env v w (apply_windows_static_ip m settings env v w)
unfolding apply_windows_static_ip call
apply_windows_static_ip-Applies m settings env v w =
    apply_if_needed-Applies (sac_static_ip_needed settings v) m settings env v w refl
