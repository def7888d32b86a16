-- ===== src/Ldap/Tests.antt =====
-- Directory values on small inputs.
use arcella_lib.Prelude.Int.{ℤ, pos}
use arcella_lib.Prelude.Text.{text_eq, codes, itoa, itoa_hex}
use arcella_lib.Ldap.Guid
use arcella_lib.Ldap.Guid.{
  guid_to_octet_string, convert_to_dashed_string, is_guid_valid_size, escape,
}
use arcella_lib.Ldap.Sid
use arcella_lib.Ldap.Sid.{Identifier, decode_sid, layout, show}
use arcella_lib.Ldap.Client
use arcella_lib.Ldap.Account.{Times, EntryAttribute, convert_attribute_to_string_array}
use arcella_lib.Prelude.{
  ◌==◌, if◌then◌else◌, Option, ◌++◌, ◌∷◌, ◌≡◌, arith, [], List, some, none, false, true, refl, ℕ,
}

abbrev guid : List ℕ
guid = 1 ∷ 2 ∷ 3 ∷ 4 ∷ 5 ∷ 6 ∷ 7 ∷ 8 ∷ 9 ∷ 10 ∷ 11 ∷ 12 ∷ 13 ∷ 14 ∷ 15 ∷ 255 ∷ []

dashed_test : convert_to_dashed_string guid ≡ codes "04030201-0605-0807-090A-0B0C0D0E0FFF"
unfolding convert_to_dashed_string Guid.hex_byte
dashed_test = refl

guid_to_octet_string-convert_example :
    guid_to_octet_string (convert_to_dashed_string guid) ≡ escape guid
guid_to_octet_string-convert_example = Guid.guid_to_octet_string-convert guid (omega arith)

abbrev admin : Identifier
admin = record { revision = 1; authority = 5; subs = 21 ∷ 3623811015 ∷ 500 ∷ [] }

show_test : show admin ≡ codes "S-1-5-21-3623811015-500"
unfolding itoa itoa_hex
show_test = refl

decode_sid-layout_example : decode_sid (layout admin ++ []) ≡ show admin
decode_sid-layout_example = Sid.decode_sid-layout admin [] (omega arith) (omega arith)

-- A stand-in for package time.
abbrev times : Times
times = record {
  Time = ℤ;
  parse_in_novosibirsk = λ s. none;
  parse = λ s. none;
  format = λ t. codes "2024-03-04 12:18:04";
  format_t = λ t. codes "2024-03-04T12:18:04.000Z";
  parse_int = λ s. some (pos 133540282840000000);
  unix_milli = λ n. n;
}

abbrev attribute : EntryAttribute
attribute = record {
  name = codes "userAccountControl";
  values = codes "514" ∷ [];
  byte_values = [];
}

attribute_test :
    convert_attribute_to_string_array times attribute false ≡ some (codes "Disabled Account" ∷ [])
unfolding convert_attribute_to_string_array
attribute_test = refl

-- the client
abbrev parse_control : List ℕ → Option ℤ
parse_control s =
    if text_eq s (codes "514")
    then some (pos 514)
    else if text_eq s (codes "512")
    then some (pos 512)
    else none

abbrev entry : Client.Entry
entry = record { user_account_control = codes "512"; account_expires = [] }

abbrev entry_off : Client.Entry
entry_off = record { user_account_control = codes "514"; account_expires = [] }

abbrev directory : Client.Directory
directory = record {
  parse = λ url. some (codes "ldaps", codes "dc");
  dial = λ n. some 2;
  bind = λ conn. true;
  escape_filter = λ name. name;
  search = λ conn req.
      if conn == 1
      then none
      else if text_eq req.filter (codes "(sAMAccountName=ada)")
      then some (entry ∷ [])
      else some [];
}

abbrev held : Client.Client
held = record {
  config = record { url = codes "ldaps://dc"; user = []; base = codes "dc=x" };
  conn = some 1;
}

bob_unknown :
    (Client.verify_user parse_control (pos 0) held directory (codes "bob")).1 ≡ Client.not_found
unfolding Client.verify_user
bob_unknown = refl

dials : Client.dial held.config directory 1 ≡ some 2
unfolding Client.dial
dials = refl
