-- ===== src/Network/Lease.antt =====
-- network/dhcp.go: cocoon-net's lease file, and the parser that keeps what it read. The file changes
-- while the provider runs: a lookup sees it twice, when it asks for its time and size and when it
-- reads it. The JSON decoder and Go's `time.Parse` are not part of this library.
pub mod Fresh
use vk_cocoon.Base.{
  ℕ, Bool, true, false, ◌&&◌, Option, none, some, String, List, [], ◌∷◌, ltb, nat_eq, ◌⊎◌, inl, inr,
  if◌then◌else◌,
}
use vk_cocoon.Base.Text.{codes, lower_all, same_codes}

pub record FileInfo : Type 0 where
  pub modified : ℕ
  pub size : ℕ

-- A row of the file, as it is decoded.
pub record CocoonNetLease : Type 0 where
  pub mac : String
  pub ip : String
  pub expiry : String

-- The file at one moment; no rows when its content is not the expected JSON.
pub record LeaseFile : Type 0 where
  pub info : FileInfo
  pub rows : Option (List CocoonNetLease)

pub record Lease : Type 0 where
  pub mac : String
  pub ip : String
  pub expires_at : ℕ

-- The key of a row: `strings.ToLower` of its MAC.
abbrev pub LeaseIndex : Type 0
LeaseIndex = List (List ℕ × Lease)

unfoldable pub fold_mac : String → List ℕ
unfolding lower_all
fold_mac mac = lower_all (codes mac)

-- A write to the map, and a read of it.
unfoldable pub index_lease : List ℕ → Lease → LeaseIndex → LeaseIndex
unfolding same_codes
index_lease key lease [] = (key, lease) ∷ []
index_lease key lease ((k, old) ∷ rest) =
    let more = index_lease key lease rest in
    if same_codes k key then (key, lease) ∷ rest else (k, old) ∷ more

unfoldable pub lease_at : List ℕ → LeaseIndex → Option Lease
unfolding same_codes
lease_at key [] = none
lease_at key ((k, lease) ∷ rest) = if same_codes k key then some lease else lease_at key rest

pub data LookupError : Type 0 where
  unreadable undecodable no_lease : LookupError

pub data LookupResult : Type 0 where
  found : Lease → LookupResult
  failed : LookupError → LookupResult

-- `LeaseParser`; `by_mac` is nil until the file has been read.
pub record LeaseParser : Type 0 where
  pub modified : ℕ
  pub size : ℕ
  pub by_mac : Option LeaseIndex

unfoldable pub new_lease_parser : LeaseParser
new_lease_parser = record { modified = 0; size = 0; by_mac = none }

-- The index of the leases, the rows written one after the other.
unfoldable pub index_leases : List Lease → LeaseIndex → LeaseIndex
unfolding index_lease fold_mac
index_leases [] by_mac = by_mac
index_leases (lease ∷ rest) by_mac =
    index_leases rest (index_lease (fold_mac lease.mac) lease by_mac)

-- A lease is given out until it expires.
abbrev pub live_lease : ℕ → Option Lease → LookupResult
live_lease now none = failed no_lease
live_lease now (some lease) = if ltb now lease.expires_at then found lease else failed no_lease

abbrev pub read_index : List ℕ → ℕ → Option LeaseIndex → LookupResult
read_index key now none = failed no_lease
read_index key now (some by_mac) = live_lease now (lease_at key by_mac)

module _ (parse_time : String → Option ℕ) where
  abbrev cons_parsed : Option ℕ → CocoonNetLease → List Lease → List Lease
  cons_parsed none row rest = rest
  cons_parsed (some at) row rest = (record { mac = row.mac; ip = row.ip; expires_at = at }) ∷ rest

  -- The loop of `parse`: a row whose expiry does not parse is skipped.
  unfoldable pub parse_rows : List CocoonNetLease → List Lease
  parse_rows [] = []
  parse_rows (row ∷ rest) = cons_parsed (parse_time row.expiry) row (parse_rows rest)

  -- `parse` of the file as it is when it is read.
  unfoldable pub parse : Option LeaseFile → List Lease ⊎ LookupError
  parse none = inr unreadable
  parse (some file) = elim file.rows [ none ↦ inr undecodable | some rows ↦ inl (parse_rows rows) ]

  unfoldable pub is_fresh : FileInfo → LeaseParser → Bool
  is_fresh info p = elim p.by_mac [
    | none ↦ false
    | some _ ↦ nat_eq info.modified p.modified && nat_eq info.size p.size
  ]

  abbrev keep_parsed :
      List Lease ⊎ LookupError → FileInfo → LeaseParser → LeaseParser × Option LookupError
  keep_parsed (inr e) info p = (p, some e)
  keep_parsed (inl leases) info p = (
    record { modified = info.modified; size = info.size; by_mac = some (index_leases leases []) },
    none,
  )

  -- `refresh`: the file when it is asked for its time and size, and when it is read.
  unfoldable pub refresh :
      Option LeaseFile → Option LeaseFile → LeaseParser → LeaseParser × Option LookupError
  refresh none read p = (p, some unreadable)
  refresh (some asked) read p = elim (is_fresh asked.info p) [
    | true ↦ (p, none)
    | false ↦ keep_parsed (parse read) asked.info p
  ]

  abbrev after_refresh : LeaseParser × Option LookupError → String → ℕ → LeaseParser × LookupResult
  after_refresh (p, some e) mac now = (p, failed e)
  after_refresh (p, none) mac now = (p, read_index (fold_mac mac) now p.by_mac)

  -- `LookupByMAC`.
  unfoldable pub lookup_by_mac :
      Option LeaseFile → Option LeaseFile → String → ℕ → LeaseParser → LeaseParser × LookupResult
  unfolding refresh fold_mac lease_at
  lookup_by_mac asked read mac now p = after_refresh (refresh asked read p) mac now
