-- ===== src/Provider/Macos/Unique.antt =====
-- No two macOS guests are given one VNC port (provider/cocoon/macos.go).
use vk_cocoon.Base.{
  ℕ, zero, suc, ◌+◌, ◌≤◌, ◌<◌, ◌≡◌, ◌≢◌, refl, ◌⊎◌, inl, inr, arith, true, false, none, some,
  String, [], ◌∷◌, ◌==◌, is_empty, Bool-cases,
}
use vk_cocoon.Base.Table.{Table, lookup, lookup-insert_ne, lookup-insert_self}
use vk_cocoon.Provider.State.{Tables, Settings}
use vk_cocoon.Provider.Macos.Vnc.{
  macos_vnc_port_base, macos_vnc_port_span, port_taken, first_free, free_port, claim_macos_vnc_port,
  store_port,
}

is_used_of_lookup :
    (key : String) (rows : Table ℕ) (port : ℕ)
    → lookup key rows ≡ some port
    → port_taken port rows ≡ true
unfolding lookup port_taken
is_used_of_lookup key [] port h = cc
is_used_of_lookup key (row ∷ rest) port h = ground (arith, is_used_of_lookup key rest port)

-- The loop finds a port of the span that no row has, or every port of the span has one.
abbrev IsFree : ℕ → ℕ → Table ℕ → ℕ → Type 0
IsFree n port rows p = (port ≤ p) × (p < port + n) × (port_taken p rows ≡ false)

first_free-IsFree :
    (n port : ℕ) (rows : Table ℕ)
    → first_free n port rows ≢ 0
    → IsFree n port rows (first_free n port rows)
unfolding first_free
first_free-IsFree zero port rows h = absurd (h refl)
first_free-IsFree (suc n) port rows h = elim (Bool-cases (port_taken port rows)) [
  | inr free ↦ rw free (omega arith, omega arith, free)
  | inl used ↦
      let (low, high, free) = first_free-IsFree n (port + 1) rows (rw used at h) in
      rw used (omega arith, omega arith, free)
]

first_free-full :
    (n port q : ℕ) (rows : Table ℕ)
    → 0 < port
    → first_free n port rows ≡ 0
    → port ≤ q
    → q < port + n
    → port_taken q rows ≡ true
unfolding first_free
first_free-full zero port q rows h e low high = absurd (omega arith)
first_free-full (suc n) port q rows h e low high =
    ground (arith, first_free-full n (port + 1) q rows)

-- What the claim of a key that has no port yet brings about.
pub record Claims (settings : Settings) (key : String) (t : Tables) (r : Tables × ℕ) : Type 0 where
  pub held : r.1 ≢ 0 → lookup key r.0.macos_vnc ≡ some r.1
  pub alone : (other : String) → r.1 ≢ 0 → lookup other t.macos_vnc ≢ some r.1
  pub others :
      (other : String)
      → (key == other) ≡ false
      → lookup other r.0.macos_vnc ≡ lookup other t.macos_vnc
  pub in_span : r.1 ≢ 0 → (5900 ≤ r.1) × (r.1 < 6000)
  pub exhausted :
      r.1 ≡ 0
      → (is_empty settings.macos_vnc_password ≡ true)
        ⊎ ((q : ℕ) → 5900 ≤ q → q < 6000 → port_taken q t.macos_vnc ≡ true)

module _ (settings : Settings) (key : String) (preferred : ℕ) (t : Tables) where
  free_port-IsFree :
      free_port preferred t.macos_vnc ≢ 0
      → IsFree 100 5900 t.macos_vnc (free_port preferred t.macos_vnc)
  unfolding free_port
  free_port-IsFree h =
      ground (arith, first_free-IsFree macos_vnc_port_span macos_vnc_port_base t.macos_vnc)

  free_port-full :
      (q : ℕ)
      → free_port preferred t.macos_vnc ≡ 0
      → 5900 ≤ q
      → q < 6000
      → port_taken q t.macos_vnc ≡ true
  unfolding free_port
  free_port-full q e low high =
      ground (arith, first_free-full macos_vnc_port_span macos_vnc_port_base q t.macos_vnc)

  unclaimed :
      (is_empty settings.macos_vnc_password ≡ true)
        ⊎ ((q : ℕ) → 5900 ≤ q → q < 6000 → port_taken q t.macos_vnc ≡ true)
      → Claims settings key t (t, 0)
  unclaimed full = record {
    held = λ h. absurd (h refl);
    alone = λ other h. absurd (h refl);
    others = λ other h. refl;
    in_span = λ h. absurd (h refl);
    exhausted = λ h. full;
  }

  store_port-Claims :
      (port : ℕ)
      → (port ≢ 0 → IsFree 100 5900 t.macos_vnc port)
      → (port ≡ 0 → (q : ℕ) → 5900 ≤ q → q < 6000 → port_taken q t.macos_vnc ≡ true)
      → Claims settings key t (store_port key port t)
  store_port-Claims zero free full = unclaimed (inr (full refl))
  store_port-Claims (suc port) free full =
      let nonzero : suc port ≢ 0 = λ e. absurd (omega arith) in
      let (low, high, unused) = free nonzero in
      record {
        held = λ h. lookup-insert_self key (suc port) t.macos_vnc;
        alone = λ other h e. ground (arith, is_used_of_lookup other t.macos_vnc (suc port) e);
        others = λ other h. lookup-insert_ne key other (suc port) t.macos_vnc h;
        in_span = λ h. (low, omega arith);
        exhausted = λ e. absurd (omega arith);
      }

-- A macOS guest that has no VNC port gets one of the hundred from 5900 that no other guest of the node
-- holds, and the others keep theirs; it gets none only when VNC is off or each of the hundred is
-- taken.
pub claim_macos_vnc_port-Claims :
    (settings : Settings) (key : String) (preferred : ℕ) (t : Tables)
    → lookup key t.macos_vnc ≡ none
    → Claims settings key t (claim_macos_vnc_port settings key preferred t)
unfolding claim_macos_vnc_port
claim_macos_vnc_port-Claims settings key preferred t fresh =
    elim (Bool-cases (is_empty settings.macos_vnc_password)) [
      | inl off ↦ rw off (unclaimed settings key preferred t (inl off))
      | inr on ↦
          rw (on, fresh)
            (store_port-Claims settings key preferred t (free_port preferred t.macos_vnc)
              (free_port-IsFree settings key preferred t)
              (λ e q. free_port-full settings key preferred t q e))
    ]
