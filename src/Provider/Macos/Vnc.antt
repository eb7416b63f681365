-- ===== src/Provider/Macos/Vnc.antt =====
-- provider/cocoon/macos.go: the VNC ports of macOS guests. A port of 0 stands for none.
use vk_cocoon.Base.{
  ℕ, zero, suc, ◌+◌, Bool, true, false, not, ◌&&◌, Option, none, some, String, [], ◌∷◌, leb, ltb,
  nat_eq, is_empty, if◌then◌else◌,
}
use vk_cocoon.Base.Table.{Table, lookup, insert, delete}
use vk_cocoon.Provider.State.{Tables, Settings}

abbrev pub macos_vnc_port_base : ℕ
macos_vnc_port_base = 5900

abbrev pub macos_vnc_port_span : ℕ
macos_vnc_port_span = 100

-- The set `used` of the claim.
unfoldable pub port_taken : ℕ → Table ℕ → Bool
port_taken port [] = false
port_taken port (row ∷ rest) = if nat_eq row.1 port then true else port_taken port rest

-- The loop over the span, with `n` ports left to try.
unfoldable pub first_free : ℕ → ℕ → Table ℕ → ℕ
first_free zero port rows = 0
first_free (suc n) port rows =
    let rest = first_free n (port + 1) rows in if port_taken port rows then rest else port

abbrev in_span : ℕ → Bool
in_span port = leb macos_vnc_port_base port && ltb port (macos_vnc_port_base + macos_vnc_port_span)

-- The port that a key without one gets.
unfoldable pub free_port : ℕ → Table ℕ → ℕ
free_port preferred rows =
    if in_span preferred && not (port_taken preferred rows)
    then preferred
    else first_free macos_vnc_port_span macos_vnc_port_base rows

abbrev pub store_port : String → ℕ → Tables → Tables × ℕ
store_port key zero t = (t, 0)
store_port key (suc port) t = (record t { macos_vnc = insert key (suc port) t.macos_vnc }, suc port)

abbrev pub claim_unless_held : Option ℕ → String → ℕ → Tables → Tables × ℕ
claim_unless_held (some port) key preferred t = (t, port)
claim_unless_held none key preferred t = store_port key (free_port preferred t.macos_vnc) t

-- `claimMacosVNCPort`.
unfoldable pub claim_macos_vnc_port : Settings → String → ℕ → Tables → Tables × ℕ
claim_macos_vnc_port settings key preferred t =
    if is_empty settings.macos_vnc_password
    then (t, 0)
    else claim_unless_held (lookup key t.macos_vnc) key preferred t

-- `adoptMacosVNCPort`: the display that the guest serves, if it serves one.
unfoldable pub adopt_macos_vnc_port : String → Option ℕ → Tables → Tables × ℕ
adopt_macos_vnc_port key none t = (record t { macos_vnc = delete key t.macos_vnc }, 0)
adopt_macos_vnc_port key (some display) t = (
  record t { macos_vnc = insert key (macos_vnc_port_base + display) t.macos_vnc },
  macos_vnc_port_base + display,
)

abbrev port_or_none : Option ℕ → ℕ
port_or_none none = 0
port_or_none (some port) = port

unfoldable pub macos_vnc_port_for : String → Tables → ℕ
macos_vnc_port_for key t = port_or_none (lookup key t.macos_vnc)
