-- ===== src/PrettyLog/Cutting.antt =====
-- app/v3/log/prettylog/plog.go: where Handle cuts a long message.
use arcella_lib.Prelude.Text.{codes}
use arcella_lib.PrettyLog.{max_str_size, rune_start, byte_at, boundary, write_message}
use arcella_lib.Prelude.{
  ◌==◌, ◌∙◌, ◌++◌, ◌⊎◌, ◌≡◌, ◌<◌, ◌≤◌, ◌+◌, Bool-cases, ltb, take, length, arith, inr, inl, List,
  false, true, ap, refl, suc, zero, ℕ,
}

boundary-le : (message : List ℕ) (end : ℕ) → boundary message end ≤ end
unfolding boundary
boundary-le message zero = omega arith
boundary-le message (suc end) = ground (arith, boundary-le message end)

-- no rune starts between the boundary and the end that was wanted
boundary_greatest :
    (message : List ℕ) (end i : ℕ)
    → boundary message end < i
    → i ≤ end
    → rune_start (byte_at message i) ≡ false
unfolding boundary
boundary_greatest message zero i lt le = absurd (omega arith)
boundary_greatest message (suc end) i lt le =
    elim (Bool-cases (rune_start (byte_at message (suc end)))) [
      | inl found ↦ absurd (ground arith)
      | inr inside ↦ elim (Bool-cases (i == suc end)) [
        | inl last ↦
            let e : i ≡ suc end = ground arith in
            ap (λ (n : ℕ). rune_start (byte_at message n)) e ∙ inside
        | inr before ↦ boundary_greatest message end i (ground arith) (ground arith)
      ]
    ]

boundary-rune_start :
    (message : List ℕ) (end : ℕ)
    → (boundary message end ≡ 0) ⊎ (rune_start (byte_at message (boundary message end)) ≡ true)
unfolding boundary
boundary-rune_start message zero = inl refl
boundary-rune_start message (suc end) = elim (Bool-cases (rune_start (byte_at message (suc end)))) [
  | inl found ↦ inr (rw (found, found) refl)
  | inr inside ↦ rw inside (boundary-rune_start message end)
]

-- In UTF-8, a rune has at most three bytes behind its first.
abbrev pub IsRunes : List ℕ → Type 0
IsRunes message =
    (i : ℕ)
    → i + 3 < length message
    → (rune_start (byte_at message i) ≡ true)
      ⊎ (rune_start (byte_at message (i + 1)) ≡ true)
      ⊎ (rune_start (byte_at message (i + 2)) ≡ true)
      ⊎ (rune_start (byte_at message (i + 3)) ≡ true)

near : (message : List ℕ) → IsRunes message → 900 < length message → 896 < boundary message 900
near message h long = elim (Bool-cases (ltb 896 (boundary message 900))) [
  | inl far ↦ ground arith
  | inr early ↦
      let low : boundary message 900 < 897 = ground arith in
      absurd (elim (h 897 (omega arith)) [
        | inl a ↦ ground (arith, boundary_greatest message 900 897 low (omega arith))
        | inr (inl b) ↦
            ground (arith, boundary_greatest message 900 898 (omega arith) (omega arith))
        | inr (inr (inl c)) ↦
            ground (arith, boundary_greatest message 900 899 (omega arith) (omega arith))
        | inr (inr (inr d)) ↦
            ground (arith, boundary_greatest message 900 900 (omega arith) (omega arith))
      ])
]

-- A message in UTF-8 of more than 900 bytes is written as its first n bytes and three dots, where n is
-- from 897 to 900 and the byte behind them starts a rune, so no rune is cut.
pub write_message-rune_start :
    (message : List ℕ)
    → IsRunes message
    → 900 < length message
    → (n : ℕ) × (896 < n)
      × (n ≤ 900)
      × (rune_start (byte_at message n) ≡ true)
      × (write_message message ≡ take n message ++ codes "...")
unfolding write_message
write_message-rune_start message h long =
    let n = boundary message 900 in
    let is_long : ltb max_str_size (length message) ≡ true = ground arith in
    let starts : rune_start (byte_at message n) ≡ true = elim (boundary-rune_start message 900) [
      | inl cut ↦ absurd (omega (arith, cut, near message h long))
      | inr found ↦ found
    ] in
    (n, near message h long, boundary-le message 900, starts, rw is_long refl)
