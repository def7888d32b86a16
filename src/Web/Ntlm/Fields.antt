-- ===== src/Web/Ntlm/Fields.antt =====
-- web/gin/middleware/ntlm/ntlm.go: the fields of a message of type 3, as a client lays them out.
use arcella_lib.Prelude.Text.{keep}
use arcella_lib.Web.Ntlm.{put16, put32, remove_zeros, get16, get_ntlm_field}
use arcella_lib.Prelude.{
  drop-append_left, take-append_left, length-append, drop-drop, ◌∙◌, ◌||◌, ◌-◌, ltb, drop, take,
  false, ap, sym, ◌++◌, ◌∷◌, ◌≡◌, ◌<◌, ◌*◌, ◌+◌, length, arith, [], List, some, refl, ℕ,
}

-- The UTF-16LE of characters below 256.
abbrev pub utf16 : List ℕ → List ℕ
utf16 [] = []
utf16 (c ∷ s) = c ∷ 0 ∷ utf16 s

abbrev pub IsAscii : List ℕ → Type 0
IsAscii [] = Unit {0}
IsAscii (c ∷ s) = (0 < c) × (c < 128) × IsAscii s

length-utf16 : (s : List ℕ) → length (utf16 s) ≡ 2 * length s
length-utf16 [] = refl
length-utf16 (c ∷ s) = omega (arith, length-utf16 s)

remove_zeros-utf16 : (s : List ℕ) → IsAscii s → remove_zeros (utf16 s) ≡ s
unfolding remove_zeros keep
remove_zeros-utf16 [] h = refl
remove_zeros-utf16 (c ∷ s) (nonzero, lt, h) = ground (arith, remove_zeros-utf16 s h)

get16-put16 : (n : ℕ) (s : List ℕ) → n < 65536 → get16 (put16 n ++ s) ≡ n
unfolding put16
get16-put16 n s lt = omega arith

-- length, allocated length and offset of a field
abbrev pub descriptor : ℕ → ℕ → ℕ → List ℕ
descriptor len allocated offset = put16 len ++ (put16 allocated ++ put32 offset)

module _ (front middle text back : List ℕ) (allocated : ℕ) where
  abbrev offset : ℕ
  offset = length front + 8 + length middle

  -- a message with the descriptor behind `front`
  abbrev pub message : List ℕ
  message =
      front ++ (descriptor (2 * length text) allocated offset ++ (middle ++ (utf16 text ++ back)))

  drop-message :
      drop (length front) message
      ≡ descriptor (2 * length text) allocated offset ++ (middle ++ (utf16 text ++ back))
  drop-message = drop-append_left front _

  length_field : 2 * length text < 65536 → get16 (drop (length front) message) ≡ 2 * length text
  unfolding put16 put32
  length_field small = rw drop-message (omega arith)

  offset_field : offset < 65536 → get16 (drop (length front + 4) message) ≡ offset
  unfolding put16 put32
  offset_field near = rw (← drop-drop (length front) 4 message, drop-message) (omega arith)

  drop-offset : drop offset message ≡ utf16 text ++ back
  unfolding put16 put32
  drop-offset =
      ap (λ (n : ℕ). drop n message) (omega arith)
      ∙ sym (drop-drop (length front) (8 + length middle) message)
      ∙ ap (drop (8 + length middle)) drop-message
      ∙ sym (drop-drop 8 (length middle) _)
      ∙ drop-append_left middle (utf16 text ++ back)

  length-message : length message ≡ offset + (2 * length text + length back)
  unfolding put16 put32
  length-message = omega (
    arith,
    length-append front
        (descriptor (2 * length text) allocated offset ++ (middle ++ (utf16 text ++ back))),
    length-append middle (utf16 text ++ back),
    length-append (utf16 text) back,
    length-utf16 text,
  )

  take-text : take (2 * length text) (utf16 text ++ back) ≡ utf16 text
  take-text = rw (← length-utf16 text) (take-append_left (utf16 text) back)

  -- Where the descriptor behind `front` gives the length and the offset of an ASCII text in UTF-16LE,
  -- and both fit 16 bits, the field read there is the text, whatever surrounds the two.
  pub get_ntlm_field-utf16 :
      IsAscii text
      → 2 * length text < 65536
      → offset < 65536
      → get_ntlm_field message (length front) ≡ some text
  unfolding get_ntlm_field
  get_ntlm_field-utf16 h small near =
      let inside : ltb (length message) (length front + 8) ≡ false =
        ground (arith, length-message) in
      let fits : ltb (length message) offset || ltb (length message - offset) (2 * length text)
          ≡ false =
        ground (arith, length-message) in
      rw (inside, length_field small, offset_field near, fits, drop-offset, take-text)
        (ap some (remove_zeros-utf16 text h))
