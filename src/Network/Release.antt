-- ===== src/Network/Release.antt =====
-- network/release.go: the release of a lease over cocoon-net's control socket.
use vk_cocoon.Base.{ℕ, true, false, Option, none, some, String, nat_eq}

-- What `client.Do` gives: an error, or the status of a response.
pub data Response : Type 0 where
  broken : Response
  status : ℕ → Response

pub data ReleaseResult : Type 0 where
  released bad_mac unreachable : ReleaseResult
  refused : ℕ → ReleaseResult

abbrev no_content : ℕ
no_content = 204

abbrev internal_error : ℕ
internal_error = 500

-- `client.Do` answers the requests of a call in turn; the result has the number of requests sent.
abbrev counted : ℕ → ReleaseResult → ReleaseResult × ℕ
counted n r = (r, n)

abbrev second_try : Response → ReleaseResult × ℕ
second_try broken = (unreachable, 2)
second_try (status s) = elim (nat_eq s no_content) [ true ↦ (released, 2) | false ↦ (refused s, 2) ]

abbrev first_try : Response → Response → ReleaseResult × ℕ
first_try broken again = (unreachable, 1)
first_try (status s) again = elim (nat_eq s no_content) [
  | true ↦ (released, 1)
  | false ↦ elim (nat_eq s internal_error) [ true ↦ second_try again | false ↦ (refused s, 1) ]
]

-- `ReleaseByMAC`: `parse_mac` is Go's `net.ParseMAC`, with the text that it prints; the second of two
-- requests is sent after an internal error only.
unfoldable pub release_by_mac :
    (String → Option String) → String → (String → ℕ → Response) → ReleaseResult × ℕ
release_by_mac parse_mac raw answer = elim (parse_mac raw) [
  | none ↦ (bad_mac, 0)
  | some mac ↦ first_try (answer mac 0) (answer mac 1)
]
