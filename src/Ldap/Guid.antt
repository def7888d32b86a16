-- ===== src/Ldap/Guid.antt =====
-- ldap/utils.go: GUIDs, as the directory stores them and as text.
use arcella_lib.Prelude.Text.{hex_upper, is_alnum, keep, keep_all}
use arcella_lib.Prelude.{
  leb, ◌==◌, ◌||◌, ◌++◌, ◌∷◌, ◌≡◌, ◌<◌, ◌≤◌, ◌%◌, ◌/◌, ◌*◌, if◌then◌else◌, drop, take, length,
  arith, [], List, not, true, Bool, refl, ℕ,
}

abbrev pub dash : ℕ
dash = b'-'

-- `%02X` of `b & 255`
unfoldable pub hex_byte : ℕ → List ℕ
unfolding hex_upper
hex_byte b = hex_upper (b % 256 / 16) ∷ hex_upper (b % 256 % 16) ∷ []

abbrev is_guid_stripped : ℕ → Bool
is_guid_stripped c = not (c == b'{' || (c == b'}' || c == dash))

-- guidStripReplacer
unfoldable pub guid_strip : List ℕ → List ℕ
unfolding keep
guid_strip guid = keep is_guid_stripped guid

-- `IsGUIDValidSize`
unfoldable pub is_guid_valid_size : List ℕ → Bool
unfolding is_alnum keep
is_guid_valid_size guid = length (keep is_alnum guid) == 32

abbrev pub idxs : List ℕ
idxs = 3 ∷ 2 ∷ 1 ∷ 0 ∷ 5 ∷ 4 ∷ 7 ∷ 6 ∷ 8 ∷ 9 ∷ 10 ∷ 11 ∷ 12 ∷ 13 ∷ 14 ∷ 15 ∷ []

-- the loop of `GuidToOctetString` over the indices
unfoldable pub octets : List ℕ → List ℕ → List ℕ
octets strip [] = []
octets strip (idx ∷ idxs) = b'\\' ∷ (take 2 (drop (idx * 2) strip) ++ octets strip idxs)

unfoldable pub guid_to_octet_string : List ℕ → List ℕ
unfolding guid_strip octets
guid_to_octet_string guid =
    let strip = guid_strip guid in if length strip == 32 then octets strip idxs else []

unfoldable pub convert_to_dashed_string : List ℕ → List ℕ
convert_to_dashed_string
      (b0 ∷ b1 ∷ b2 ∷ b3 ∷ b4 ∷ b5 ∷ b6 ∷ b7 ∷ b8 ∷ b9 ∷ b10 ∷ b11 ∷ b12 ∷ b13 ∷ b14 ∷ b15 ∷ _) =
    hex_byte b3
    ++ (hex_byte b2
        ++ (hex_byte b1
            ++ (hex_byte b0
                ++ (dash
                    ∷ (hex_byte b5
                        ++ (hex_byte b4
                            ++ (dash
                                ∷ (hex_byte b7
                                    ++ (hex_byte b6
                                        ++ (dash
                                            ∷ (hex_byte b8
                                                ++ (hex_byte b9
                                                    ++ (dash
                                                        ∷ (hex_byte b10
                                                            ++ (hex_byte b11
                                                            ++ (hex_byte b12
                                                            ++ (hex_byte b13
                                                            ++ (hex_byte b14
                                                            ++ hex_byte b15))))))))))))))))))
convert_to_dashed_string _ = []

-- The escaped bytes of an LDAP filter, in order.
unfoldable pub escape : List ℕ → List ℕ
unfolding hex_byte
escape [] = []
escape (b ∷ s) = b'\\' ∷ (hex_byte b ++ escape s)

hex_upper-stripped : (d : ℕ) → d < 16 → is_guid_stripped (hex_upper d) ≡ true
unfolding hex_upper
hex_upper-stripped d lt = ground arith

hex_upper-alnum : (d : ℕ) → d < 16 → is_alnum (hex_upper d) ≡ true
unfolding hex_upper is_alnum
hex_upper-alnum d lt = ground arith

guid_strip-hex_byte :
    (b : ℕ) (s : List ℕ) → guid_strip (hex_byte b ++ s) ≡ hex_byte b ++ guid_strip s
unfolding guid_strip hex_byte
guid_strip-hex_byte b s =
    keep_all is_guid_stripped _ _ s (hex_upper-stripped (b % 256 / 16) (omega arith))
      (hex_upper-stripped (b % 256 % 16) (omega arith))

guid_strip-hex_byte_last : (b : ℕ) → guid_strip (hex_byte b) ≡ hex_byte b
unfolding guid_strip hex_byte
guid_strip-hex_byte_last b = rw (
  hex_upper-stripped (b % 256 / 16) (omega arith),
  hex_upper-stripped (b % 256 % 16) (omega arith),
)

guid_strip-dash : (s : List ℕ) → guid_strip (dash ∷ s) ≡ guid_strip s
unfolding guid_strip keep
guid_strip-dash s = refl

guid_strip-convert :
    (b0 b1 b2 b3 b4 b5 b6 b7 b8 b9 b10 b11 b12 b13 b14 b15 : ℕ) (rest : List ℕ)
    → guid_strip (
        convert_to_dashed_string (
          b0 ∷ b1 ∷ b2 ∷ b3 ∷ b4 ∷ b5 ∷ b6 ∷ b7 ∷ b8 ∷ b9 ∷ b10 ∷ b11 ∷ b12 ∷ b13 ∷ b14 ∷ b15
          ∷ rest))
      ≡ hex_byte b3
        ++ (hex_byte b2
            ++ (hex_byte b1
                ++ (hex_byte b0
                    ++ (hex_byte b5
                        ++ (hex_byte b4
                            ++ (hex_byte b7
                                ++ (hex_byte b6
                                    ++ (hex_byte b8
                                        ++ (hex_byte b9
                                            ++ (hex_byte b10
                                                ++ (hex_byte b11
                                                    ++ (hex_byte b12
                                                        ++ (hex_byte b13
                                                            ++ (hex_byte b14
                                                            ++ hex_byte b15))))))))))))))
unfolding convert_to_dashed_string
guid_strip-convert b0 b1 b2 b3 b4 b5 b6 b7 b8 b9 b10 b11 b12 b13 b14 b15 rest =
    simp (guid_strip-hex_byte, guid_strip-dash, guid_strip-hex_byte_last)

-- The octet string that is made of the text of a stored GUID escapes its first 16 bytes in the order
-- in which the directory stores them, whatever follows them.
pub guid_to_octet_string-convert :
    (guid : List ℕ)
    → 16 ≤ length guid
    → guid_to_octet_string (convert_to_dashed_string guid) ≡ escape (take 16 guid)
unfolding guid_to_octet_string escape
guid_to_octet_string-convert
      (b0 ∷ b1 ∷ b2 ∷ b3 ∷ b4 ∷ b5 ∷ b6 ∷ b7 ∷ b8 ∷ b9 ∷ b10 ∷ b11 ∷ b12 ∷ b13 ∷ b14 ∷ b15 ∷ rest)
      h =
    rw (guid_strip-convert, guid_to_octet_string) (unfold hex_byte octets escape in refl)
guid_to_octet_string-convert _ h = absurd (omega arith)

keep_alnum-hex_byte :
    (b : ℕ) (s : List ℕ) → keep is_alnum (hex_byte b ++ s) ≡ hex_byte b ++ keep is_alnum s
unfolding hex_byte
keep_alnum-hex_byte b s =
    keep_all is_alnum _ _ s (hex_upper-alnum (b % 256 / 16) (omega arith))
      (hex_upper-alnum (b % 256 % 16) (omega arith))

keep_alnum-last : (b : ℕ) → keep is_alnum (hex_byte b) ≡ hex_byte b
unfolding hex_byte keep
keep_alnum-last b =
    rw (hex_upper-alnum (b % 256 / 16) (omega arith), hex_upper-alnum (b % 256 % 16) (omega arith))

-- The text of a stored GUID of at least 16 bytes passes the size test; of fewer bytes there is no
-- text, and the empty text does not pass.
pub is_guid_valid_size-convert :
    (guid : List ℕ) → is_guid_valid_size (convert_to_dashed_string guid) ≡ leb 16 (length guid)
unfolding is_guid_valid_size convert_to_dashed_string
is_guid_valid_size-convert
      (b0 ∷ b1 ∷ b2 ∷ b3 ∷ b4 ∷ b5 ∷ b6 ∷ b7 ∷ b8 ∷ b9 ∷ b10 ∷ b11 ∷ b12 ∷ b13 ∷ b14 ∷ b15 ∷ rest) =
    simp (keep_alnum-hex_byte, keep_alnum-last) (unfold hex_byte in ground arith)
is_guid_valid_size-convert _ = refl
