-- ===== src/Ldap/Client/Users.antt =====
-- ldap/client.go: what a verification comes to.
use arcella_lib.Prelude.Text.{codes, text_eq, text_eq_iff}
use arcella_lib.Prelude.Int.{ℤ, pos}
use arcella_lib.Ldap.Account.{account_number}
use arcella_lib.Ldap.Client.{
  text_eq, Client, Directory, Entry, verified, disabled, judge, judge_all, is_disabled, is_past,
  holds, dial, verify_user, ConfigLdapClient, SearchRequest, search_request, whole_subtree,
}
use arcella_lib.Prelude.{
  ◌++◌, arith, true, refl, ◌∷◌, ◌⊎◌, ◌≢◌, ◌≡◌, if◌then◌else◌, [], List, some, none, Option, false,
  Bool, ℕ,
}

-- A search for the user below the base of the configuration, by the account name.
pub record AsksFor (config : ConfigLdapClient) (d : Directory) (username : List ℕ)
    (req : SearchRequest) : Type 0 where
  pub below : req.base_dn ≡ config.base
  pub whole : req.scope ≡ whole_subtree
  pub named : req.filter ≡ codes "(sAMAccountName=" ++ (d.escape_filter username ++ codes ")")
  pub reads : req.attributes ≡ codes "userAccountControl" ∷ codes "accountExpires" ∷ []
  pub at_most : req.size_limit ≡ 5

abbrev pub IsGood : (List ℕ → Option ℤ) → ℤ → Entry → Type 0
IsGood parse_int now entry =
    (holds is_disabled (parse_int entry.user_account_control) ≡ false)
    × ((entry.account_expires ≡ [])
        ⊎ (holds (is_past now) (parse_int entry.account_expires) ≡ false))

-- The directory has answered a search for the user with an entry, the first of those found, that is good.
abbrev pub IsAnswered : (List ℕ → Option ℤ) → ℤ → ConfigLdapClient → Directory → List ℕ → Type 0
IsAnswered parse_int now config d username =
    (conn : ℕ) × (req : SearchRequest) × (entry : Entry) × (entries : List Entry) × AsksFor config d
      username req
    × (d.search conn req ≡ some (entry ∷ entries))
    × IsGood parse_int now entry

-- If the search over the connection that is held fails, and a new one can be dialed and answers, then
-- a user with a name is judged by that answer, and the client holds the new connection.
pub verify_user_reconnects :
    (parse_int : List ℕ → Option ℤ) (now : ℤ) (c : Client) (d : Directory) (username : List ℕ)
    (old new : ℕ) (entries : List Entry)
    → username ≢ []
    → c.conn ≡ some old
    → d.search old (search_request c.config d username) ≡ none
    → dial c.config d 1 ≡ some new
    → d.search new (search_request c.config d username) ≡ some entries
    → verify_user parse_int now c d username
      ≡ (record c { conn = some new }, judge_all parse_int now (some entries))
unfolding verify_user
verify_user_reconnects parse_int now c d username old new entries named e lost dialed found =
    let is_named : text_eq username [] ≡ false = ground (arith, text_eq_iff username []) in
    rw (is_named, e, lost, dialed, found) refl

is_disabled-account_number :
    (is_off not_required no_expiry smartcard : Bool)
    → is_disabled (pos (account_number is_off not_required no_expiry smartcard)) ≡ is_off
unfolding is_disabled
is_disabled-account_number true not_required no_expiry smartcard = ground arith
is_disabled-account_number false not_required no_expiry smartcard = ground arith

-- Of the accounts with the flags that the labels of userAccountControl name, exactly the disabled ones
-- are refused as disabled, and the others are verified unless they expire.
pub judge-account_number :
    (parse_int : List ℕ → Option ℤ) (now : ℤ) (entry : Entry)
    (is_off not_required no_expiry smartcard : Bool)
    → parse_int entry.user_account_control
      ≡ some (pos (account_number is_off not_required no_expiry smartcard))
    → entry.account_expires ≡ []
    → judge parse_int now entry ≡ (if is_off then disabled else verified)
unfolding judge is_disabled
judge-account_number parse_int now entry is_off not_required no_expiry smartcard e never =
    rw (e, never)
      (ground (arith, is_disabled-account_number is_off not_required no_expiry smartcard))
