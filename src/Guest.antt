-- ===== src/Guest.antt =====
-- guest/sac/sac.go: what a Windows guest's console lists. A row is a line that `netLineRe` matches, the
-- number of an interface and its address.
use vk_cocoon.Base.{
  ℕ, ◌≡◌, refl, arith, Bool, true, false, ◌&&◌, String, List, [], ◌∷◌, ◌==◌, nat_eq, if◌then◌else◌,
}
use vk_cocoon.Base.Seq.{exists}

abbrev pub NetRow : Type 0
NetRow = ℕ × String

-- The set `seen`.
unfoldable pub number_seen : ℕ → List ℕ → Bool
number_seen n [] = false
number_seen n (k ∷ rest) = if nat_eq k n then true else number_seen n rest

unfoldable pub unseen_numbers : List NetRow → List ℕ → List ℕ
unseen_numbers [] seen = []
unseen_numbers (row ∷ rows) seen =
    let rest = unseen_numbers rows seen in
    let more = unseen_numbers rows (row.0 ∷ seen) in
    if number_seen row.0 seen then rest else row.0 ∷ more

-- `ParseNetEntries`: each number once, in the order of the lines.
unfoldable pub parse_net_entries : List NetRow → List ℕ
parse_net_entries rows = unseen_numbers rows []

-- `NetHasIP`.
unfoldable pub net_has_ip : List NetRow → ℕ → String → Bool
net_has_ip rows num ip = exists (λ row. nat_eq row.0 num && row.1 == ip) rows

-- No number stands twice.
abbrev pub IsDistinct : List ℕ → Type 0
IsDistinct [] = Unit
IsDistinct (n ∷ rest) = (number_seen n rest ≡ false) × IsDistinct rest

unseen_numbers-absent :
    (n : ℕ) (rows : List NetRow) (seen : List ℕ)
    → number_seen n seen ≡ true
    → number_seen n (unseen_numbers rows seen) ≡ false
unfolding number_seen unseen_numbers
unseen_numbers-absent n [] seen h = refl
unseen_numbers-absent n (row ∷ rows) seen h =
    ground (arith, unseen_numbers-absent n rows seen h, unseen_numbers-absent n rows (row.0 ∷ seen))

unseen_numbers-IsDistinct :
    (rows : List NetRow) (seen : List ℕ) → IsDistinct (unseen_numbers rows seen)
unfolding number_seen unseen_numbers
unseen_numbers-IsDistinct [] seen = tt
unseen_numbers-IsDistinct (row ∷ rows) seen = ground (
  arith,
  unseen_numbers-IsDistinct rows seen,
  unseen_numbers-IsDistinct rows (row.0 ∷ seen),
  unseen_numbers-absent row.0 rows (row.0 ∷ seen),
)

pub parse_net_entries-IsDistinct : (rows : List NetRow) → IsDistinct (parse_net_entries rows)
unfolding parse_net_entries
parse_net_entries-IsDistinct rows = unseen_numbers-IsDistinct rows []
