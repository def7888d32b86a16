-- ===== src/Utils/Strings/Pieces.antt =====
-- utils/utilsString.go: what Trim, GetSubStr and SubStr return.
use mathlib.Core.List.{append-nil, append_assoc}
use native.Mathlib.Nat.{add-zero, suc-add}
use arcella_lib.Prelude.Text.{keep, has_prefix}
use arcella_lib.Utils.Strings.{
  is_space, words_of, add_to, break, non_empty, fields, join, trim, index, slice_to, end_in,
  between, get_sub_str, flat, mark, sub_str,
}
use arcella_lib.Prelude.{
  ◌||◌, ◌<◌, ◌≤◌, length-append, take-append_left, drop-drop, drop-append_left, ◌==◌, ◌≢◌,
  Option-cases, Option, ◌∙◌, ◌&&◌, ◌++◌, ◌∷◌, ◌≡◌, ◌-◌, ◌+◌, if◌then◌else◌, Bool-cases, leb, ltb,
  drop, take, length, arith, inr, inl, [], List, some, not, true, Bool, ap, sym, refl, suc, zero, ℕ,
}

abbrev pub visible : ℕ → Bool
visible c = not (is_space c)

join-add_to : (c : ℕ) (ws : List (List ℕ)) → join (add_to c ws) ≡ c ∷ join ws
join-add_to c [] = refl
join-add_to c (w ∷ ws) = refl

join-break : (ws : List (List ℕ)) → join (break ws) ≡ join ws
join-break [] = refl
join-break ([] ∷ ws) = refl
join-break ((c ∷ w) ∷ ws) = refl

join-non_empty : (ws : List (List ℕ)) → join (non_empty ws) ≡ join ws
join-non_empty [] = refl
join-non_empty ([] ∷ ws) = refl
join-non_empty ((c ∷ w) ∷ ws) = refl

join-words_of : (s : List ℕ) → join (words_of s) ≡ keep visible s
unfolding keep
join-words_of [] = refl
join-words_of (c ∷ s) = elim (Bool-cases (is_space c)) [
  | inl space ↦ rw space (join-break (words_of s) ∙ join-words_of s)
  | inr other ↦ rw other (join-add_to c (words_of s) ∙ ap (◌∷◌ c) (join-words_of s))
]

-- Trim removes every white space of an ASCII text, the inner ones too, and nothing else.
pub trim-keep : (s : List ℕ) → trim s ≡ keep visible s
unfolding trim fields
trim-keep s = join-non_empty (words_of s) ∙ join-words_of s

has_prefix-append : (p s : List ℕ) → has_prefix p s ≡ true → s ≡ p ++ drop (length p) s
unfolding has_prefix
has_prefix-append [] s e = refl
has_prefix-append (c ∷ p) [] e = absurd (ground arith)
has_prefix-append (c ∷ p) (d ∷ s) e =
    let here : c ≡ d = ground arith in
    let rest : has_prefix p s ≡ true = ground arith in
    ap (λ (t : List ℕ). d ∷ t) (has_prefix-append p s rest)
    ∙ ap (λ (x : ℕ). x ∷ (p ++ drop (length p) s)) (sym here)

zero_is : (i : ℕ) → ◌≡◌ {A = Option ℕ} (some 0) (some i) → 0 ≡ i
zero_is i e = ground arith

-- An index that is found is the place of the pattern.
index-append :
    (s p : List ℕ) (i : ℕ)
    → index s p ≡ some i
    → (pre post : List ℕ) × (s ≡ pre ++ (p ++ post)) × (length pre ≡ i)
unfolding index
index-append [] p i e = elim (Bool-cases (has_prefix p [])) [
  | inl found ↦ ([], drop (length p) [], has_prefix-append p [] found, ground arith)
  | inr missing ↦ absurd (ground arith)
]
index-append (c ∷ s) p i e = elim (Bool-cases (has_prefix p (c ∷ s))) [
  | inl found ↦ ([], drop (length p) (c ∷ s), has_prefix-append p (c ∷ s) found, ground arith)
  | inr later ↦ elim (Option-cases (index s p)) [
    | inl missing ↦ absurd (ground arith)
    | inr (j, found) ↦
        let (pre, post, split, at) = index-append s p j found in
        (c ∷ pre, post, ap (◌∷◌ c) split, ground arith)
  ]
]

drop-append_at : (n : ℕ) (xs ys : List ℕ) → length xs ≡ n → drop n (xs ++ ys) ≡ ys
drop-append_at n xs ys e = rw (← e) (drop-append_left xs ys)

take-append_at : (n : ℕ) (xs ys : List ℕ) → length xs ≡ n → take n (xs ++ ys) ≡ xs
take-append_at n xs ys e = rw (← e) (take-append_left xs ys)

take-length : (xs : List ℕ) → take (length xs) xs ≡ xs
take-length [] = refl
take-length (x ∷ xs) = ap (◌∷◌ x) (take-length xs)

-- the text up to the end pattern
slice_to-append :
    (s q : List ℕ)
    → slice_to s (end_in s q) ≢ []
    → (post : List ℕ) × (s ≡ slice_to s (end_in s q) ++ (q ++ post))
slice_to-append s [] ne = ([], sym (ap (λ (t : List ℕ). t ++ []) (take-length s) ∙ append-nil s))
slice_to-append s (c ∷ q) ne = elim (Option-cases (index s (c ∷ q))) [
  | inl missing ↦ absurd (ne (ap (slice_to s) missing))
  | inr (j, found) ↦
      let (pre, post, split, at) = index-append s (c ∷ q) j found in
      let cut : slice_to s (end_in s (c ∷ q)) ≡ pre =
        ap (slice_to s) found ∙ ap (take j) split ∙ take-append_at j pre ((c ∷ q) ++ post) at in
      (post, split ∙ ap (λ (t : List ℕ). t ++ ((c ∷ q) ++ post)) (sym cut))
]

-- A text that GetSubStr finds stands in the content between the two patterns.
pub get_sub_str-append :
    (content starts_with ends_with : List ℕ)
    → get_sub_str content starts_with ends_with ≢ []
    → (pre post : List ℕ) × (content
        ≡ pre
          ++ (starts_with ++ (get_sub_str content starts_with ends_with ++ (ends_with ++ post))))
unfolding get_sub_str
get_sub_str-append content p q ne = elim (Option-cases (index content p)) [
  | inl missing ↦ absurd (ne (ap (between content p q) missing))
  | inr (i, found) ↦
      let (pre, rest, split, at) = index-append content p i found in
      let s = drop (i + length p) content in
      let behind : s ≡ rest =
        sym (drop-drop i (length p) content)
        ∙ ap (λ (t : List ℕ). drop (length p) (drop i t)) split
        ∙ ap (drop (length p)) (drop-append_at i pre (p ++ rest) at)
        ∙ drop-append_left p rest in
      let here : between content p q (index content p) ≡ slice_to s (end_in s q) =
        ap (between content p q) found in
      let (post, e) = slice_to-append s q (λ h. ne (here ∙ h)) in
      (
        pre,
        post,
        split
            ∙ ap (λ (t : List ℕ). pre ++ (p ++ t)) (sym behind ∙ e)
            ∙ ap (λ (t : List ℕ). pre ++ (p ++ (t ++ (q ++ post)))) (sym here),
      )
]

mark_lem :
    (target : ℕ) (cs : List (List ℕ)) (total i found : ℕ)
    → mark target cs total i found ≡ (
        if leb total target && ltb target (total + length cs)
        then i + length (flat (take (target - total) cs))
        else found)
unfolding mark
mark_lem target [] total i found = ground arith
mark_lem target (c ∷ cs) total i found =
    let now = if total == target then i else found in
    let ih = mark_lem target cs (total + 1) (i + length c) now in
    elim (Bool-cases (total == target)) [
      | inl same ↦ let e : target - total ≡ 0 = ground arith in rw e (ground (arith, ih))
      | inr other ↦ elim (Bool-cases (ltb total target)) [
        | inl later ↦
            let k = target - (total + 1) in
            let e : target - total ≡ suc k = ground arith in
            rw e (ground (arith, ih, length-append c (flat (take k cs))))
        | inr past ↦ ground (arith, ih)
      ]
    ]

flat-take_add :
    (a l : ℕ) (cs : List (List ℕ))
    → flat (take (a + l) cs) ≡ flat (take a cs) ++ flat (take l (drop a cs))
flat-take_add zero l cs = ap (λ (n : ℕ). flat (take n cs)) (omega arith)
flat-take_add (suc a) zero [] = rw add-zero refl
flat-take_add (suc a) (suc l) [] = rw suc-add refl
flat-take_add (suc a) l (c ∷ cs) =
    ap (λ (n : ℕ). flat (take n (c ∷ cs))) (suc-add a l)
    ∙ ap (λ (t : List ℕ). c ++ t) (flat-take_add a l cs)
    ∙ sym (append_assoc c (flat (take a cs)) (flat (take l (drop a cs))))

flat_split : (k : ℕ) (cs : List (List ℕ)) → flat cs ≡ flat (take k cs) ++ flat (drop k cs)
flat_split zero cs = refl
flat_split (suc k) [] = refl
flat_split (suc k) (c ∷ cs) =
    ap (λ (t : List ℕ). c ++ t) (flat_split k cs)
    ∙ sym (append_assoc c (flat (take k cs)) (flat (drop k cs)))

flat-take :
    (k : ℕ) (cs : List (List ℕ)) → take (length (flat (take k cs))) (flat cs) ≡ flat (take k cs)
flat-take k cs =
    ap (take (length (flat (take k cs)))) (flat_split k cs)
    ∙ take-append_left (flat (take k cs)) (flat (drop k cs))

drop_past : (n : ℕ) (cs : List (List ℕ)) → length cs ≤ n → drop n cs ≡ []
drop_past zero [] le = refl
drop_past zero (c ∷ cs) le = absurd (omega arith)
drop_past (suc n) [] le = refl
drop_past (suc n) (c ∷ cs) le = drop_past n cs (omega arith)

take_past : (n : ℕ) (cs : List (List ℕ)) → length cs ≤ n → take n cs ≡ cs
take_past zero [] le = refl
take_past zero (c ∷ cs) le = absurd (omega arith)
take_past (suc n) [] le = refl
take_past (suc n) (c ∷ cs) le = ap (◌∷◌ c) (take_past n cs (omega arith))

take_nothing : (n : ℕ) → take {A = List ℕ} n [] ≡ []
take_nothing zero = refl
take_nothing (suc n) = refl

module _ (content : List (List ℕ)) (start len : ℕ) where
  start_byte :
      start < length content → mark start content 0 0 0 ≡ length (flat (take start content))
  start_byte lt =
      let e : start - 0 ≡ start = omega arith in mark_lem start content 0 0 0 ∙ rw e (ground arith)

  end_byte :
      (if leb (length content) (start + len)
        then length (flat content)
        else mark (start + len) content 0 0 0)
      ≡ length (flat (take (start + len) content))
  end_byte =
      let e : start + len - 0 ≡ start + len = omega arith in
      elim (Bool-cases (leb (length content) (start + len))) [
        | inl past ↦ rw past (
            ap (λ (cs : List (List ℕ)). length (flat cs))
              (sym (take_past (start + len) content (ground arith))))
        | inr inside ↦ rw inside (mark_lem (start + len) content 0 0 0 ∙ rw e (ground arith))
      ]

  -- SubStr of a start and a length that are not negative, and whose sum does not overflow, is that number of characters from the start
  -- on, as far as there are any; no character is cut.
  pub sub_str-flat : sub_str content start len ≡ flat (take len (drop start content))
  unfolding sub_str
  sub_str-flat = elim (Bool-cases (ltb (length content) start || start == length content)) [
    | inl outside ↦
        let le : length content ≤ start = ground arith in
        rw (outside, drop_past start content le, take_nothing len) refl
    | inr inside ↦
        let lt : start < length content = ground arith in
        rw
          (
            inside,
            end_byte,
            start_byte lt,
            flat-take (start + len) content,
            flat-take_add start len content,
          )
          (drop-append_left (flat (take start content)) (flat (take len (drop start content))))
  ]
