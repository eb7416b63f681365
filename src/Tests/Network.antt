-- ===== src/Tests/Network.antt =====
-- The theorem on cocoon-net's leases at a sample history of the lease file.
use vk_cocoon.Base.{ℕ, ◌≡◌, refl, ◌⊎◌, Option, some, String, [], ◌∷◌, arith, ltb, if◌then◌else◌}
use vk_cocoon.Network.Lease.{
  LeaseFile, LeaseParser, CocoonNetLease, found, new_lease_parser, lookup_by_mac, is_fresh, parse,
  index_leases, parse_rows,
}
use vk_cocoon.Network.Lease.Fresh.{NeverReturns, Reached, start, next, answer, lookup_by_mac-answer}
use vk_cocoon.Network.Release.{Response, status, released, release_by_mac}

abbrev row_of : String → String → CocoonNetLease
row_of mac ip = record { mac = mac; ip = ip; expiry = "later" }

abbrev expires : String → Option ℕ
expires text = some 100

abbrev first_file : LeaseFile
first_file = record {
  info = record { modified = 1; size = 40 };
  rows = some (row_of "AA:01" "10.0.0.1" ∷ row_of "aa:01" "10.0.0.2" ∷ []);
}

abbrev second_file : LeaseFile
second_file = record {
  info = record { modified = 2; size = 40 };
  rows = some (row_of "aa:01" "10.0.0.3" ∷ []);
}

-- The file is rewritten at time 5.
abbrev history : ℕ → Option LeaseFile
history t = if ltb t 5 then some first_file else some second_file

never_returns : NeverReturns expires history
never_returns i j k f g ij jk hi hk same_time same_size = ground arith

-- A lookup at time 1 fills the cache.
abbrev kept : LeaseParser
kept = (lookup_by_mac expires (history 1) (history 1) "aa:01" 7 new_lease_parser).0

kept_reached : Reached expires history 1 kept
kept_reached = next (start 0) 1 1 (omega arith) (omega arith) "aa:01" 7

-- The file changes between the two moments of a lookup, which sees its old time and size.
lookup_by_mac-answer_example :
    let r = (lookup_by_mac expires (history 4) (history 6) "AA:01" 7 kept).1 in
    (r ≡ answer expires (history 4) "AA:01" 7) ⊎ (r ≡ answer expires (history 6) "AA:01" 7)
lookup_by_mac-answer_example =
    lookup_by_mac-answer expires history 1 4 6 kept "AA:01" 7 never_returns kept_reached
      (omega arith) (omega arith)

last_row_wins :
    (lookup_by_mac expires (history 1) (history 1) "aa:01" 7 new_lease_parser).1
    ≡ found (record { mac = "aa:01"; ip = "10.0.0.2"; expires_at = 100 })
unfolding lookup_by_mac new_lease_parser is_fresh parse index_leases parse_rows
last_row_wins = refl

abbrev parsed_mac : String → Option String
parsed_mac raw = some raw

abbrev fails_once : String → ℕ → Response
fails_once mac n = if ltb n 1 then status 500 else status 204

released_again : release_by_mac parsed_mac "aa:01" fails_once ≡ (released, 2)
unfolding release_by_mac
released_again = refl
