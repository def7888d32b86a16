-- ===== src/Ldap/Client.antt =====
-- ldap/client.go: the client that verifies users. Connections are numbers; what the directory answers
-- is an argument. A call runs alone: the moments without the lock are not interleaved.
pub mod Users
use arcella_lib.Prelude.Int.{ℤ, pos, negsuc, opposite, ltb_int, ◌-ℤ◌}
use arcella_lib.Prelude.Text.{codes, text_eq, to_lower}
use arcella_lib.Ldap.Account.{ten_thousandth}
use arcella_lib.Prelude.{
  ◌++◌, ◌==◌, ◌||◌, ◌&&◌, ◌∷◌, ◌%◌, ◌/◌, ◌*◌, ◌+◌, if◌then◌else◌, map, [], List, some, none, Option,
  not, false, true, Bool, ℕ,
}

pub record ConfigLdapClient : Type 0 where
  pub url : List ℕ
  pub user : List ℕ
  pub base : List ℕ

-- The attributes of an entry that are read; `[]` for one that is not there.
pub record Entry : Type 0 where
  pub user_account_control : List ℕ
  pub account_expires : List ℕ

pub data Scope : Type 0 where
  base_object single_level whole_subtree : Scope

-- the fields of `goLdap.SearchRequest` that are set
pub record SearchRequest : Type 0 where
  pub base_dn : List ℕ
  pub scope : Scope
  pub attributes : List (List ℕ)
  pub filter : List ℕ
  pub size_limit : ℕ

-- `EscapeFilter` escapes what is special in a filter. `Dial` succeeds with a new connection, a search answers entries, or `none` stands for an error. A
-- search that takes too long is an error too.
pub record Directory : Type 0 where
  pub parse : List ℕ → Option (List ℕ × List ℕ)
  pub dial : ℕ → Option ℕ
  pub bind : ℕ → Bool
  pub escape_filter : List ℕ → List ℕ
  pub search : ℕ → SearchRequest → Option (List Entry)

pub record Client : Type 0 where
  pub config : ConfigLdapClient
  pub conn : Option ℕ

-- `dial` for the n-th time: the URL has a host and the scheme ldap or ldaps, the library connects, and
-- with a user it binds
unfoldable pub supported : List ℕ → Bool
unfolding to_lower
supported scheme =
    text_eq (map to_lower scheme) (codes "ldaps") || text_eq (map to_lower scheme) (codes "ldap")

abbrev pub bound : ConfigLdapClient → Directory → Option ℕ → Option ℕ
bound config d none = none
bound config d (some lconn) = if text_eq config.user [] || d.bind lconn then some lconn else none

unfoldable pub dial_parsed : ConfigLdapClient → Directory → ℕ → Option (List ℕ × List ℕ) → Option ℕ
unfolding supported
dial_parsed config d n none = none
dial_parsed config d n (some (scheme, host)) =
    if text_eq host [] then none else if supported scheme then bound config d (d.dial n) else none

unfoldable pub dial : ConfigLdapClient → Directory → ℕ → Option ℕ
unfolding dial_parsed
dial config d n = dial_parsed config d n (d.parse config.url)

abbrev pub connected : Client → Option ℕ → Client × Bool
connected c none = (c, false)
connected c (some lconn) = (record c { conn = some lconn }, true)

-- `connectLocked`; the Boolean says whether the error is nil
unfoldable pub connect_locked : Client → Directory → ℕ → Client × Bool
unfolding dial
connect_locked c d n = elim c.conn [
  | some conn ↦ (c, true)
  | none ↦ connected c (dial c.config d n)
]

-- `searchWithTimeout` from the second attempt on, with the client that the reconnection left
abbrev pub search_again : Directory → SearchRequest → Client × Bool → Client × Option (List Entry)
search_again d req (c, false) = (c, none)
search_again d req (c, true) = elim c.conn [
  | none ↦ (c, none)
  | some reconn ↦ elim (d.search reconn req) [
    | some entries ↦ (c, some entries)
    | none ↦ (record c { conn = none }, none)
  ]
]

unfoldable pub search_with_timeout :
    Client → Directory → SearchRequest → ℕ → Client × Option (List Entry)
unfolding connect_locked
search_with_timeout c d req n = elim c.conn [
  | none ↦ (c, none)
  | some conn ↦ elim (d.search conn req) [
    | some entries ↦ (c, some entries)
    | none ↦ search_again d req (connect_locked (record c { conn = none }) d n)
  ]
]

-- bit 1 of a two's complement number: `uac & ufAccountDisable != 0`
unfoldable pub is_disabled : ℤ → Bool
is_disabled (pos n) = n / 2 % 2 == 1
is_disabled (negsuc n) = n / 2 % 2 == 0

-- milliseconds in nanoseconds
abbrev pub nanoseconds : ℤ → ℤ
nanoseconds (pos n) = pos (n * 1000000)
nanoseconds (negsuc n) = opposite ((n + 1) * 1000000)

abbrev pub is_never : ℤ → Bool
is_never (pos n) = n == 0 || n == 9223372036854775807
is_never (negsuc n) = false

-- a file time in the past; `now` counts nanoseconds since 1970
unfoldable pub is_past : ℤ → ℤ → Bool
is_past now v =
    if is_never v then false else ltb_int (nanoseconds (ten_thousandth v -ℤ pos 11644473600000)) now

pub data Verdict : Type 0 where
  verified empty_username no_answer not_found disabled expired : Verdict

abbrev pub holds : (ℤ → Bool) → Option ℤ → Bool
holds p none = false
holds p (some v) = p v

-- `VerifyUser` on the first entry; `parse_int` is `strconv.ParseInt`
unfoldable pub judge : (List ℕ → Option ℤ) → ℤ → Entry → Verdict
unfolding is_disabled is_past
judge parse_int now entry =
    if holds is_disabled (parse_int entry.user_account_control)
    then disabled
    else if not (text_eq entry.account_expires [])
        && holds (is_past now) (parse_int entry.account_expires)
    then expired
    else verified

unfoldable pub judge_all : (List ℕ → Option ℤ) → ℤ → Option (List Entry) → Verdict
unfolding judge
judge_all parse_int now none = no_answer
judge_all parse_int now (some []) = not_found
judge_all parse_int now (some (entry ∷ _)) = judge parse_int now entry

-- the request of `VerifyUser`
unfoldable pub search_request : ConfigLdapClient → Directory → List ℕ → SearchRequest
search_request config d username = record {
  base_dn = config.base;
  scope = whole_subtree;
  attributes = codes "userAccountControl" ∷ codes "accountExpires" ∷ [];
  filter = codes "(sAMAccountName=" ++ (d.escape_filter username ++ codes ")");
  size_limit = 5;
}

unfoldable pub verify_connected :
    (List ℕ → Option ℤ) → ℤ → Directory → List ℕ → Client × Bool → Client × Verdict
unfolding search_with_timeout judge_all search_request
verify_connected parse_int now d username (c, false) = (c, no_answer)
verify_connected parse_int now d username (c, true) =
    let found = search_with_timeout c d (search_request c.config d username) 1 in
    (found.0, judge_all parse_int now found.1)

unfoldable pub verify_user :
    (List ℕ → Option ℤ) → ℤ → Client → Directory → List ℕ → Client × Verdict
unfolding connect_locked verify_connected
verify_user parse_int now c d username =
    if text_eq username []
    then (c, empty_username)
    else verify_connected parse_int now d username (connect_locked c d 0)

unfoldable pub close : Client → Client
close c = record c { conn = none }
