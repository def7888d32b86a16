-- ===== src/Web/Ntlm/Tests.antt =====
-- The NTLM middleware on small inputs.
use arcella_lib.Prelude.Dict
use arcella_lib.Prelude.Dict.{string_eq}
use arcella_lib.Prelude.Text.{codes, text_eq}
use arcella_lib.Prelude.Base64
use arcella_lib.Web.Ntlm.{
  Context, ntlm_auth_challenge, ntlm_middleware, path_matches, put16, put32, get_ntlm_field,
}
use arcella_lib.Web.Ntlm.Access
use arcella_lib.Web.Ntlm.Access.{Refused, Admitted}
use arcella_lib.Web.Ntlm.Fields.{utf16}
use arcella_lib.Ldap.Client.{Client, Directory}
use arcella_lib.Prelude.Int.{ℤ, pos}
use arcella_lib.Prelude.{
  ◌++◌, ◌∷◌, ◌⊎◌, ◌≡◌, replicate, [], List, some, none, Option, true, Bool, refl, ℕ,
}

-- The constant that the second middleware of its kind writes out.
challenge_lem :
    Base64.encode ntlm_auth_challenge
    ≡ codes "TlRMTVNTUAACAAAAAAAAACgAAAABgggAAAIAAgAAAAAAAAAAAAAAAA=="
unfolding Base64.encode ntlm_auth_challenge
challenge_lem = refl

abbrev blank : Context
blank = record { headers = []; keys = []; aborted = none }

-- a message of type 3 with the domain D and the user bob
abbrev packet : List ℕ
unfolding put16 put32
packet =
    codes "NTLMSSP"
    ++ (0
        ∷ (put32 3
            ++ (replicate 18 0
                ++ (put16 2
                    ++ (put16 2
                        ++ (put32 46
                            ++ (put16 6 ++ (put16 6 ++ (put32 48 ++ utf16 (codes "Dbob"))))))))))

abbrev header : List ℕ
header = codes "NTLM " ++ Base64.encode packet

abbrev only_bob : List ℕ → List ℕ → Bool
only_bob username domain = text_eq username (codes "bob")

abbrev served : Context → Context
served c = record c { aborted = some 200 }

bob_enters :
    ntlm_middleware served (some only_bob) (codes "/a") (codes "/a/b") header blank ≡ record {
      headers =
          (
            "Access-Control-Allow-Headers",
            codes
                "Authorization,Content-Type, Content-Range, Content-Disposition, Content-Description,Origin, X-Requested-With, sessionId",
          )
          ∷ ("Access-Control-Allow-Origin", codes "*")
          ∷ [];
      keys = ("username", codes "bob") ∷ ("domain", codes "D") ∷ [];
      aborted = some 200;
    }
unfolding ntlm_middleware get_ntlm_field Base64.encode Base64.decode put16 put32 Dict.insert
bob_enters = refl

ntlm_middleware_cases_example :
    let r = ntlm_middleware served (some only_bob) (codes "/a") (codes "/a/b") header blank in
    Refused blank r ⊎ Admitted served (some only_bob) header blank r
unfolding path_matches
ntlm_middleware_cases_example =
    Access.ntlm_middleware_cases served (some only_bob) (codes "/a") (codes "/a/b") header blank
      refl

abbrev directory : Directory
directory = record {
  parse = λ u. some (codes "ldap", codes "h");
  dial = λ n. some 7;
  bind = λ conn. true;
  escape_filter = λ name. name;
  search =
      λ conn req. some (record { user_account_control = codes "512"; account_expires = [] } ∷ []);
}

abbrev client : Client
client = record { config = record { url = codes "ldap://h"; user = []; base = [] }; conn = none }

abbrev parsed_512 : List ℕ → Option ℤ
parsed_512 s = some (pos 512)
