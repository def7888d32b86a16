-- ===== src/Ldap/Account.antt =====
-- ldap/utils.go: account flags, group types, times and the attribute dispatch.
use arcella_lib.Prelude.Text.{itoa, codes, text_eq, to_lower}
use arcella_lib.Prelude.Int.{◌-ℤ◌, opposite, ℤ, pos, negsuc}
use arcella_lib.Ldap.Guid.{convert_to_dashed_string}
use arcella_lib.Ldap.Sid.{decode_sid}
use arcella_lib.Prelude.{
  ◌++◌, ◌≢◌, ◌≡◌, arith, false, true, refl, ◌||◌, ◌∷◌, ◌/◌, ◌+◌, if◌then◌else◌, map, [], List, some,
  none, Option, Bool, ℕ,
}

-- A `switch` on a text with texts as its cases; without a match the text itself.
unfoldable pub choose : List (List ℕ × List ℕ) → List ℕ → List ℕ
choose [] s = s
choose ((k, v) ∷ cases) s = if text_eq s k then v else choose cases s

abbrev user_account_controls : List (List ℕ × List ℕ)
user_account_controls =
    (codes "512", codes "Enabled Account")
    ∷ (codes "514", codes "Disabled Account")
    ∷ (codes "544", codes "Enabled, Password Not Required")
    ∷ (codes "546", codes "Disabled, Password Not Required")
    ∷ (codes "66048", codes "Enabled, Password Doesn't Expire")
    ∷ (codes "66050", codes "Disabled, Password Doesn't Expire")
    ∷ (codes "66080", codes "Enabled, Password Doesn't Expire & Not Required")
    ∷ (codes "66082", codes "Disabled, Password Doesn't Expire & Not Required")
    ∷ (codes "262656", codes "Enabled, Smartcard Required")
    ∷ (codes "262658", codes "Disabled, Smartcard Required")
    ∷ (codes "262688", codes "Enabled, Smartcard Required, Password Not Required")
    ∷ (codes "262690", codes "Disabled, Smartcard Required, Password Not Required")
    ∷ (codes "328192", codes "Enabled, Smartcard Required, Password Doesn't Expire")
    ∷ (codes "328194", codes "Disabled, Smartcard Required, Password Doesn't Expire")
    ∷ (codes "328224", codes "Enabled, Smartcard Required, Password Doesn't Expire & Not Required")
    ∷ (codes "328226", codes "Disabled, Smartcard Required, Password Doesn't Expire & Not Required")
    ∷ []

unfoldable pub get_user_account_control : List ℕ → List ℕ
unfolding choose
get_user_account_control s = choose user_account_controls s

abbrev group_types : List (List ℕ × List ℕ)
group_types =
    (codes "2", codes "Global group")
    ∷ (codes "4", codes "Domain local group")
    ∷ (codes "8", codes "Universal group")
    ∷ (codes "-2147483648", codes "Security group")
    ∷ (codes "-2147483646", codes "Global Security Group")
    ∷ (codes "-2147483644", codes "Local Security Group")
    ∷ (codes "-2147483643", codes "BuiltIn Group")
    ∷ (codes "-2147483640", codes "Universal Security Group")
    ∷ []

unfoldable pub get_group_type : List ℕ → List ℕ
unfolding choose
get_group_type s = choose group_types s

pub record EntryAttribute : Type 0 where
  pub name : List ℕ
  pub values : List (List ℕ)
  pub byte_values : List (List ℕ)

-- package time: a time for a text in a zone, and its two texts; strconv.ParseInt and the text of a
-- number of Unix milliseconds
pub record Times : Type 1 where
  pub Time : Type 0
  pub parse_in_novosibirsk : List ℕ → Option Time
  pub parse : List ℕ → Option Time
  pub format : Time → List ℕ
  pub format_t : Time → List ℕ
  pub parse_int : List ℕ → Option ℤ
  pub unix_milli : ℤ → Time

-- Go's `v / 10000` rounds towards zero, and so does the division of the magnitude.
abbrev pub ten_thousandth : ℤ → ℤ
ten_thousandth (pos n) = pos (n / 10000)
ten_thousandth (negsuc n) = opposite ((n + 1) / 10000)

module _ (t : Times) where
  unfoldable pub get_date_from_string : List ℕ → List ℕ
  get_date_from_string s = elim (t.parse_in_novosibirsk s) [ some time ↦ t.format time | none ↦ s ]

  unfoldable pub get_date_from_string_t : List ℕ → List ℕ
  get_date_from_string_t s = elim (t.parse s) [ some time ↦ t.format_t time | none ↦ s ]

  unfoldable pub get_ts_from_long : List ℕ → List ℕ
  get_ts_from_long s =
      if text_eq s [] || (text_eq s (codes "0") || text_eq s (codes "9223372036854775807"))
      then s
      else elim (t.parse_int s) [
        | some val ↦ t.format (t.unix_milli (ten_thousandth val -ℤ pos 11644473600000))
        | none ↦ s
      ]

  -- `attribute.Values[0]`; `none` is the panic on an attribute with no value
  abbrev pub first : (List ℕ → List ℕ) → List (List ℕ) → Option (List (List ℕ))
  first f [] = none
  first f (v ∷ _) = some (f v ∷ [])

  -- the guarded first of `ByteValues`
  abbrev pub first_bytes : (List ℕ → List ℕ) → List (List ℕ) → Option (List (List ℕ))
  first_bytes f [] = some ([] ∷ [])
  first_bytes f (v ∷ _) = some (f v ∷ [])

  unfoldable pub convert_attribute_to_string_array : EntryAttribute → Bool → Option (List (List ℕ))
  unfolding to_lower get_date_from_string get_date_from_string_t get_ts_from_long
      get_user_account_control get_group_type convert_to_dashed_string decode_sid
  convert_attribute_to_string_array a with_t =
      let name = map to_lower a.name in
      if text_eq name (codes "thumbnailphoto")
      then some ([] ∷ [])
      else if text_eq name (codes "objectguid")
      then first_bytes convert_to_dashed_string a.byte_values
      else if text_eq name (codes "objectsid")
      then first_bytes decode_sid a.byte_values
      else if text_eq name (codes "useraccountcontrol")
      then first get_user_account_control a.values
      else if text_eq name (codes "whencreated") || text_eq name (codes "whenchanged")
      then first (if with_t then get_date_from_string_t else get_date_from_string) a.values
      else if text_eq name (codes "pwdlastset")
          || (text_eq name (codes "lastlogon")
              || (text_eq name (codes "lastlogontimestamp")
                  || text_eq name (codes "accountexpires")))
      then first get_ts_from_long a.values
      else if text_eq name (codes "grouptype")
      then first get_group_type a.values
      else some a.values

  -- A panic needs an attribute without values: with at least one the conversion returns.
  pub convert_attribute_returns :
      (a : EntryAttribute) (with_t : Bool)
      → a.values ≢ []
      → convert_attribute_to_string_array a with_t ≢ none
  unfolding convert_attribute_to_string_array
  convert_attribute_returns a with_t h = ground arith

-- The flags of userAccountControl besides NORMAL_ACCOUNT: ACCOUNTDISABLE, PASSWD_NOTREQD,
-- DONT_EXPIRE_PASSWORD and SMARTCARD_REQUIRED.
abbrev pub flag : Bool → ℕ → ℕ
flag true n = n
flag false n = 0

abbrev pub account_number : Bool → Bool → Bool → Bool → ℕ
account_number disabled not_required no_expiry smartcard =
    0x200
    + flag disabled 0x2
    + flag not_required 0x20
    + flag no_expiry 0x10000
    + flag smartcard 0x40000

abbrev pub password_label : Bool → Bool → List ℕ
password_label true true = codes ", Password Doesn't Expire & Not Required"
password_label true false = codes ", Password Not Required"
password_label false true = codes ", Password Doesn't Expire"
password_label false false = []

abbrev pub details : Bool → Bool → Bool → List ℕ
details false false false = codes " Account"
details not_required no_expiry smartcard =
    (if smartcard then codes ", Smartcard Required" else [])
    ++ password_label not_required no_expiry

-- The label of a decimal userAccountControl value states exactly the flags of the number, for each
-- of the sixteen combinations of the four flags with NORMAL_ACCOUNT.
pub get_user_account_control-label :
    (disabled not_required no_expiry smartcard : Bool)
    → get_user_account_control (itoa (account_number disabled not_required no_expiry smartcard))
      ≡ (if disabled then codes "Disabled" else codes "Enabled")
        ++ details not_required no_expiry smartcard
unfolding get_user_account_control itoa
get_user_account_control-label false false false false = refl
get_user_account_control-label false false false true = refl
get_user_account_control-label false false true false = refl
get_user_account_control-label false false true true = refl
get_user_account_control-label false true false false = refl
get_user_account_control-label false true false true = refl
get_user_account_control-label false true true false = refl
get_user_account_control-label false true true true = refl
get_user_account_control-label true false false false = refl
get_user_account_control-label true false false true = refl
get_user_account_control-label true false true false = refl
get_user_account_control-label true false true true = refl
get_user_account_control-label true true false false = refl
get_user_account_control-label true true false true = refl
get_user_account_control-label true true true false = refl
get_user_account_control-label true true true true = refl
