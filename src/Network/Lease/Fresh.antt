-- ===== src/Network/Lease/Fresh.antt =====
-- The cached leases are those of the file (network/dhcp.go).
use vk_cocoon.Base.{
  ℕ, ◌≤◌, ◌≡◌, ◌≢◌, refl, Bool, true, false, Option, none, some, String, List, [], ◌∷◌, arith, ◌⊎◌,
  ◌∙◌, ap, leb, inl, inr, Bool-cases, Option-cases, if◌then◌else◌,
}
use vk_cocoon.Base.Text.{codes, equal_fold, same_codes, same_codes_self, eq_of_same_codes}
use vk_cocoon.Network.Lease.{
  FileInfo, CocoonNetLease, LeaseFile, Lease, LeaseIndex, fold_mac, index_lease, lease_at,
  index_leases, parse_rows, parse, is_fresh, unreadable, undecodable, no_lease, LookupResult, found,
  failed, LeaseParser, new_lease_parser, live_lease, read_index, lookup_by_mac,
}

lease_at-index_lease :
    (key asked : List ℕ) (lease : Lease) (rows : LeaseIndex)
    → lease_at asked (index_lease key lease rows)
      ≡ (if same_codes key asked then some lease else lease_at asked rows)
unfolding lease_at index_lease
lease_at-index_lease key asked lease [] = refl
lease_at-index_lease key asked lease ((k, old) ∷ rest) = ground (
  arith,
  lease_at-index_lease key asked lease rest,
  eq_of_same_codes k key,
  eq_of_same_codes key asked,
  eq_of_same_codes k asked,
  same_codes_self key,
)

abbrev or_else : Option Lease → Option Lease → Option Lease
or_else (some lease) other = some lease
or_else none other = other

abbrev own_lease : Bool → Lease → Option Lease
own_lease true lease = some lease
own_lease false lease = none

-- The last of the leases with the MAC, in upper or lower case.
unfoldable pub last_lease : String → List Lease → Option Lease
last_lease mac [] = none
last_lease mac (lease ∷ rest) =
    or_else (last_lease mac rest) (own_lease (equal_fold (codes lease.mac) (codes mac)) lease)

lease_at-index_leases :
    (mac : String) (leases : List Lease) (by_mac : LeaseIndex)
    → lease_at (fold_mac mac) (index_leases leases by_mac)
      ≡ or_else (last_lease mac leases) (lease_at (fold_mac mac) by_mac)
unfolding index_leases last_lease fold_mac equal_fold
lease_at-index_leases mac [] by_mac = refl
lease_at-index_leases mac (lease ∷ rest) by_mac =
    let next = index_lease (fold_mac lease.mac) lease by_mac in
    ground (
      arith,
      lease_at-index_leases mac rest next,
      lease_at-index_lease (fold_mac lease.mac) (fold_mac mac) lease by_mac,
    )

module _ (parse_time : String → Option ℕ) where
  abbrev kept_rows : String → ℕ → Option (List CocoonNetLease) → LookupResult
  kept_rows mac now none = failed undecodable
  kept_rows mac now (some rows) = live_lease now (last_lease mac (parse_rows parse_time rows))

  -- What the parser's own steps make of this file.
  unfoldable reading : Option LeaseFile → String → ℕ → LookupResult
  reading none mac now = failed unreadable
  reading (some file) mac now = kept_rows mac now file.rows

  -- The row with the MAC, in upper or lower case, as a lease, if its expiry parses.
  abbrev pub lease_of : Bool → Option ℕ → CocoonNetLease → Option Lease
  lease_of false at row = none
  lease_of true none row = none
  lease_of true (some at) row = some (record { mac = row.mac; ip = row.ip; expires_at = at })

  -- The last such row of the file.
  unfoldable pub last_row : String → List CocoonNetLease → Option Lease
  last_row mac [] = none
  last_row mac (row ∷ rest) =
      or_else (last_row mac rest)
        (lease_of (equal_fold (codes row.mac) (codes mac)) (parse_time row.expiry) row)

  abbrev pub unless_expired : ℕ → Option Lease → LookupResult
  unless_expired now none = failed no_lease
  unless_expired now (some lease) =
      if leb lease.expires_at now then failed no_lease else found lease

  abbrev pub answer_rows : String → ℕ → Option (List CocoonNetLease) → LookupResult
  answer_rows mac now none = failed undecodable
  answer_rows mac now (some rows) = unless_expired now (last_row mac rows)

  -- What the file says by itself: its error, or its last lease of the MAC unless that has expired.
  abbrev pub answer : Option LeaseFile → String → ℕ → LookupResult
  answer none mac now = failed unreadable
  answer (some file) mac now = answer_rows mac now file.rows

  last_row-last_lease :
      (mac : String) (rows : List CocoonNetLease)
      → last_lease mac (parse_rows parse_time rows) ≡ last_row mac rows
  unfolding last_row last_lease parse_rows
  last_row-last_lease mac [] = refl
  last_row-last_lease mac (row ∷ rest) = ground (arith, last_row-last_lease mac rest)

  live_unless_expired : (now : ℕ) (o : Option Lease) → live_lease now o ≡ unless_expired now o
  live_unless_expired now none = refl
  live_unless_expired now (some lease) = ground arith

  rows-answer :
      (rows : Option (List CocoonNetLease)) (mac : String) (now : ℕ)
      → kept_rows mac now rows ≡ answer_rows mac now rows
  rows-answer none mac now = refl
  rows-answer (some rows) mac now =
      live_unless_expired now (last_lease mac (parse_rows parse_time rows))
      ∙ ap (unless_expired now) (last_row-last_lease mac rows)

  reading-answer :
      (file : Option LeaseFile) (mac : String) (now : ℕ)
      → reading file mac now ≡ answer file mac now
  unfolding reading
  reading-answer none mac now = refl
  reading-answer (some file) mac now = rows-answer file.rows mac now

  -- The file over time. A file that changes does not come back with a time and a size it had before.
  abbrev pub NeverReturns : (ℕ → Option LeaseFile) → Type 0
  NeverReturns h =
      (i j k : ℕ) (f g : LeaseFile)
      → i ≤ j
      → j ≤ k
      → h i ≡ some f
      → h k ≡ some g
      → f.info.modified ≡ g.info.modified
      → f.info.size ≡ g.info.size
      → h j ≡ h i

  -- The parsers that lookups, one after the other, leave at a time.
  pub data Reached (h : ℕ → Option LeaseFile) : ℕ → LeaseParser → Type 0 where
    start : (t : ℕ) → Reached h t new_lease_parser
    next :
        {t : ℕ} {p : LeaseParser}
        → Reached h t p
        → (asked read : ℕ) → t ≤ asked
        → asked ≤ read
        → (mac : String) (now : ℕ)
        → Reached h read (lookup_by_mac parse_time (h asked) (h read) mac now p).0

  data Cached (h : ℕ → Option LeaseFile) (t : ℕ) (p : LeaseParser) : Type 0 where
    empty : p.by_mac ≡ none → Cached h t p
    kept :
        (asked read : ℕ) (f g : LeaseFile) (rows : List CocoonNetLease)
        → asked ≤ read
        → read ≤ t
        → h asked ≡ some f
        → h read ≡ some g
        → g.rows ≡ some rows
        → p.modified ≡ f.info.modified
        → p.size ≡ f.info.size
        → p.by_mac ≡ some (index_leases (parse_rows parse_time rows) [])
        → Cached h t p

  Cached-later :
      {h : ℕ → Option LeaseFile} {t : ℕ} {p : LeaseParser} (u : ℕ)
      → t ≤ u
      → Cached h t p
      → Cached h u p
  Cached-later u le (empty e) = empty e
  Cached-later u le (kept a r f g rows ar rt ha hr hg hm hs hb) =
      kept a r f g rows ar (omega arith) ha hr hg hm hs hb

  read_cached :
      (mac : String) (now : ℕ) (rows : List CocoonNetLease)
      → read_index (fold_mac mac) now (some (index_leases (parse_rows parse_time rows) []))
        ≡ live_lease now (last_lease mac (parse_rows parse_time rows))
  unfolding lease_at
  read_cached mac now rows =
      ground (arith, lease_at-index_leases mac (parse_rows parse_time rows) [])

  -- One lookup: what it answers, and that its parser is a cache again.
  module _ (h : ℕ → Option LeaseFile) (law : NeverReturns h) (mac : String) (now : ℕ) where
    abbrev Answers : Option LeaseFile → ℕ → LeaseParser × LookupResult → Type 0
    Answers file read (p, result) =
        Cached h read p × ((result ≡ reading file mac now) ⊎ (result ≡ reading (h read) mac now))

    miss :
        (f : LeaseFile) (file : Option LeaseFile) (p : LeaseParser)
        → is_fresh parse_time f.info p ≡ false
        → (lookup_by_mac parse_time (some f) file mac now p).1 ≡ reading file mac now
    unfolding lookup_by_mac parse reading lease_at
    miss f none p h = ground arith
    miss f (some g) p h = elim (Option-cases g.rows) [
      | inl broken ↦ ground arith
      | inr (rows, e) ↦ ground (arith, read_cached mac now rows)
    ]

    hit :
        (f : LeaseFile) (file : Option LeaseFile) (p : LeaseParser) (rows : List CocoonNetLease)
        → is_fresh parse_time f.info p ≡ true
        → p.by_mac ≡ some (index_leases (parse_rows parse_time rows) [])
        → (lookup_by_mac parse_time (some f) file mac now p).1
          ≡ live_lease now (last_lease mac (parse_rows parse_time rows))
    unfolding lookup_by_mac lease_at
    hit f file p rows h e = ground (arith, read_cached mac now rows)

    -- What a lookup of a changed file keeps.
    module _ (t asked read : ℕ) (p : LeaseParser) (le : asked ≤ read) (before : t ≤ read)
        (c : Cached h t p) (f : LeaseFile) (ha : h asked ≡ some f)
        (stale : is_fresh parse_time f.info p ≡ false) where
      abbrev after : Option LeaseFile → LeaseParser
      after file = (lookup_by_mac parse_time (some f) file mac now p).0

      same_parser : (file : Option LeaseFile) → after file ≡ p → Cached h read (after file)
      same_parser file e = rw e (Cached-later read before c)

      miss-Cached : (file : Option LeaseFile) → h read ≡ file → Cached h read (after file)
      unfolding lookup_by_mac parse
      miss-Cached none hr = same_parser none (ground arith)
      miss-Cached (some g) hr = elim (Option-cases g.rows) [
        | inl broken ↦ same_parser (some g) (ground arith)
        | inr (rows, e) ↦
            kept asked read f g rows le (omega arith) ha hr e (ground arith) (ground arith)
              (ground arith)
      ]

    fresh_inv :
        (info : FileInfo) (p : LeaseParser)
        → is_fresh parse_time info p ≡ true
        → (p.by_mac ≢ none) × (p.modified ≡ info.modified) × (p.size ≡ info.size)
    unfolding is_fresh
    fresh_inv info p e = elim (Option-cases p.by_mac) [
      | inl missing ↦ absurd (ground arith)
      | inr (rows, kept_rows) ↦ ((λ h. ground arith), ground arith, ground arith)
    ]

    -- The file has not changed since it was cached.
    hit-answer :
        (t asked : ℕ) (p : LeaseParser) (f : LeaseFile) (file : Option LeaseFile)
        → t ≤ asked
        → h asked ≡ some f
        → is_fresh parse_time f.info p ≡ true
        → Cached h t p
        → (lookup_by_mac parse_time (some f) file mac now p).1 ≡ reading (some f) mac now
    unfolding reading
    hit-answer t asked p f file le ha fresh (empty e) = absurd ((fresh_inv f.info p fresh).0 e)
    hit-answer t asked p f file le ha fresh (kept a r f0 g rows ar rt ea er eg em es eb) =
        let (_, same_time, same_size) = fresh_inv f.info p fresh in
        let first = law a asked asked f0 f (omega arith) (omega arith) ea ha (cc) (cc) in
        let second = law a r asked f0 f (omega arith) (omega arith) ea ha (cc) (cc) in
        let same : f ≡ g = ground arith in ground (arith, hit f file p rows fresh eb)

    hit-Cached :
        (t asked read : ℕ) (p : LeaseParser)
        → t ≤ asked
        → asked ≤ read
        → Cached h t p
        → (f : LeaseFile) → is_fresh parse_time f.info p ≡ true
        → Cached h read (lookup_by_mac parse_time (some f) (h read) mac now p).0
    unfolding lookup_by_mac
    hit-Cached t asked read p ta ar c f fresh =
        let same : (lookup_by_mac parse_time (some f) (h read) mac now p).0 ≡ p = ground arith in
        rw same (Cached-later read (omega arith) c)

    lookup-Answers :
        (t asked read : ℕ) (p : LeaseParser)
        → t ≤ asked
        → asked ≤ read
        → Cached h t p
        → (file : Option LeaseFile) → h asked ≡ file
        → Answers file read (lookup_by_mac parse_time file (h read) mac now p)
    unfolding lookup_by_mac reading
    lookup-Answers t asked read p ta ar c none ha = (Cached-later read (omega arith) c, inl refl)
    lookup-Answers t asked read p ta ar c (some f) ha =
        elim (Bool-cases (is_fresh parse_time f.info p)) [
          | inl fresh ↦ (
            hit-Cached t asked read p ta ar c f fresh,
            inl (hit-answer t asked p f (h read) ta ha fresh c),
          )
          | inr stale ↦ (
            miss-Cached t asked read p ar (omega arith) c f ha stale (h read) refl,
            inr (miss f (h read) p stale),
          )
        ]

  Reached-Cached :
      {h : ℕ → Option LeaseFile} {t : ℕ} {p : LeaseParser}
      → NeverReturns h
      → Reached h t p
      → Cached h t p
  unfolding new_lease_parser
  Reached-Cached law (start t) = empty refl
  Reached-Cached {h} law (next {t} {p} r asked read ta ar mac now) =
      (lookup-Answers h law mac now t asked read p ta ar (Reached-Cached law r) (h asked) refl).0

-- Caching does not show: whatever lookups came before, one after the other, a lookup answers what the
-- file says itself, as it was when the lookup asked for its time and size or when it read it: the last
-- row with the MAC, in upper or lower case, that has an expiry which parses, unless it has expired, or
-- the error of that file. It is assumed that a file that changes does not come back with a time and a
-- size it had before.
pub lookup_by_mac-answer :
    (parse_time : String → Option ℕ) (h : ℕ → Option LeaseFile) (t asked read : ℕ) (p : LeaseParser)
    (mac : String) (now : ℕ)
    → NeverReturns parse_time h
    → Reached parse_time h t p
    → t ≤ asked
    → asked ≤ read
    → let r = (lookup_by_mac parse_time (h asked) (h read) mac now p).1 in
      (r ≡ answer parse_time (h asked) mac now) ⊎ (r ≡ answer parse_time (h read) mac now)
lookup_by_mac-answer parse_time h t asked read p mac now law reached ta ar =
    let c = Reached-Cached parse_time law reached in
    let r = (lookup_by_mac parse_time (h asked) (h read) mac now p).1 in
    elim (lookup-Answers parse_time h law mac now t asked read p ta ar c (h asked) refl).1 [
      | inl e ↦ inl (e ∙ reading-answer parse_time (h asked) mac now)
      | inr e ↦ inr (e ∙ reading-answer parse_time (h read) mac now)
    ]
