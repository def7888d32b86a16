-- ===== src/PrettyLog/Frames.antt =====
-- app/v3/log/prettylog/plog.go: the place of a call, which is looked up once, and the whole of Handle.
use mathlib.Core.Path.{ap₂}
use arcella_lib.Prelude.Dict
use arcella_lib.Prelude.Text.{codes, itoa}
use arcella_lib.Sms.{number_eq}
use arcella_lib.PrettyLog.{
  IndentHandler, Record, level_str, write_gid, write_message, write_groups, write_attr_data,
}
use arcella_lib.Prelude.{
  ◌∙◌, arith, map, Bool, sym, ◌==◌, ◌++◌, ◌∷◌, ◌≡◌, if◌then◌else◌, Option-cases, Bool-cases, inr,
  inl, [], List, some, none, Option, ap, refl, ℕ,
}

pub record FuncDataEntry : Type 0 where
  pub file : List ℕ
  pub func_name : List ℕ
  pub line : List ℕ

-- what `CallersFrames` says of a program counter: name, file and line
pub record Frame : Type 0 where
  pub name : List ℕ
  pub file : List ℕ
  pub line : ℕ

-- the text behind the last `c`, or all of it
abbrev pub tail_from : ℕ → List ℕ → Option (List ℕ)
tail_from c [] = none
tail_from c (x ∷ s) =
    let rest = tail_from c s in
    elim rest [ some t ↦ some t | none ↦ if x == c then some s else none ]

abbrev pub or_whole : List ℕ → Option (List ℕ) → List ℕ
or_whole s none = s
or_whole s (some t) = t

unfoldable pub after_last : ℕ → List ℕ → List ℕ
after_last c s = or_whole s (tail_from c s)

unfoldable pub entry_of : Frame → FuncDataEntry
unfolding after_last itoa
entry_of f = record {
  file = after_last b'/' f.file;
  func_name = after_last b'.' f.name;
  line = itoa f.line;
}

abbrev pub entry_text : FuncDataEntry → List ℕ
entry_text fde = fde.file ++ (codes " " ++ (fde.func_name ++ (codes ":" ++ fde.line)))

abbrev pub Cache : Type 0
Cache = Dict.Dict ℕ FuncDataEntry

some_entry : (a b : FuncDataEntry) → ◌≡◌ {A = Option FuncDataEntry} (some a) (some b) → a ≡ b
some_entry a b e = ground arith

-- the rest of a line behind the groups
abbrev pub ended : List ℕ → Option (List ℕ) → Option (List ℕ)
ended line none = none
ended line (some attrs) = some (line ++ (attrs ++ (10 ∷ [])))

module _ (frames : ℕ → Frame) where
  abbrev pub cached : Cache → ℕ → Option FuncDataEntry → List ℕ × Cache
  cached cache pc (some fde) = (entry_text fde, cache)
  cached cache pc none =
      let fde = entry_of (frames pc) in (entry_text fde, Dict.insert pc fde cache)

  -- `writeFuncData`, with the shared cache
  unfoldable pub write_func_data : Cache → ℕ → List ℕ × Cache
  unfolding entry_of Dict.lookup Dict.insert
  write_func_data cache pc = cached cache pc (Dict.lookup pc cache)

  abbrev pub func_data : Cache → ℕ → List ℕ × Cache
  func_data cache pc = if pc == 0 then ([], cache) else write_func_data cache pc

  -- `Handle`: the bytes of the one call of Write, or `none` for a panic, and the cache
  unfoldable pub handle : IndentHandler → List ℕ → Cache → Record → Option (List ℕ) × Cache
  unfolding write_func_data level_str write_gid write_message write_groups write_attr_data
  handle h stack cache r =
      let place = func_data cache r.pc in
      (
        ended
            (level_str r.level
              ++ (r.time
                  ++ (write_gid h stack
                      ++ (place.0
                          ++ (codes " - " ++ (write_message r.message ++ write_groups h.goas))))))
            (write_attr_data r),
        place.1,
      )

  -- the lines of several records
  unfoldable pub handle_all : IndentHandler → List ℕ → Cache → List Record → List (Option (List ℕ))
  unfolding handle
  handle_all h stack cache [] = []
  handle_all h stack cache (r ∷ rs) =
      let line = handle h stack cache r in line.0 ∷ handle_all h stack line.1 rs

  -- every entry is the one of its program counter
  abbrev pub IsFaithful : Cache → Type 0
  IsFaithful cache =
      (pc : ℕ) (fde : FuncDataEntry) → Dict.lookup pc cache ≡ some fde → fde ≡ entry_of (frames pc)

  empty-IsFaithful : IsFaithful []
  unfolding Dict.lookup
  empty-IsFaithful pc fde e = absurd (ground arith)

  insert-IsFaithful :
      (cache : Cache) (pc j : ℕ) (fde : FuncDataEntry)
      → IsFaithful cache
      → Dict.lookup j (Dict.insert pc (entry_of (frames pc)) cache) ≡ some fde
      → fde ≡ entry_of (frames j)
  insert-IsFaithful cache pc j fde h e =
      let look = sym (Dict.lookup-insert pc j (entry_of (frames pc)) cache) ∙ e in
      elim (Bool-cases (pc == j)) [
        | inl same ↦
            let here : ◌≡◌ {A = Option FuncDataEntry} (some (entry_of (frames pc))) (some fde) =
              ap (λ (b : Bool). if b then some (entry_of (frames pc)) else Dict.lookup j cache)
                (sym same)
              ∙ look in
            let at : pc ≡ j = ground arith in
            sym (some_entry _ _ here) ∙ ap (λ (n : ℕ). entry_of (frames n)) at
        | inr other ↦ h j fde (
            ap (λ (b : Bool). if b then some (entry_of (frames pc)) else Dict.lookup j cache)
              (sym other)
            ∙ look)
      ]

  write_func_data-IsFaithful :
      (cache : Cache) (pc : ℕ)
      → IsFaithful cache
      → ((write_func_data cache pc).0 ≡ entry_text (entry_of (frames pc)))
        × IsFaithful (write_func_data cache pc).1
  unfolding write_func_data
  write_func_data-IsFaithful cache pc h = elim (Option-cases (Dict.lookup pc cache)) [
    | inl missing ↦ rw missing (refl, λ j fde e. insert-IsFaithful cache pc j fde h e)
    | inr (fde, present) ↦ rw present (ap entry_text (h pc fde present), h)
  ]

  func_data-IsFaithful :
      (cache : Cache) (pc : ℕ)
      → IsFaithful cache
      → ((func_data cache pc).0 ≡ (if pc == 0 then [] else entry_text (entry_of (frames pc))))
        × IsFaithful (func_data cache pc).1
  func_data-IsFaithful cache pc h =
      let w = write_func_data-IsFaithful cache pc h in
      elim (Bool-cases (pc == 0)) [ inl unknown ↦ rw unknown (refl, h) | inr known ↦ rw known w ]

  handle-IsFaithful :
      (h : IndentHandler) (stack : List ℕ) (cache : Cache) (r : Record)
      → IsFaithful cache
      → ((handle h stack cache r).0 ≡ (handle h stack [] r).0)
        × IsFaithful (handle h stack cache r).1
  unfolding handle
  handle-IsFaithful h stack cache r v =
      let (place, w) = func_data-IsFaithful cache r.pc v in
      let (bare, _) = func_data-IsFaithful [] r.pc empty-IsFaithful in
      (
        ap
            (λ (text : List ℕ).
              ended
                (level_str r.level
                  ++ (r.time
                      ++ (write_gid h stack
                          ++ (text
                              ++ (codes " - "
                                  ++ (write_message r.message ++ write_groups h.goas))))))
                (write_attr_data r))
            (place ∙ sym bare),
        w,
      )

  -- The cache of places does not show in the log: every record of a sequence is written as the line
  -- that a handler with an empty cache writes of it alone, or panics as it does there.
  pub handle_all-handle :
      (h : IndentHandler) (stack : List ℕ) (rs : List Record) (cache : Cache)
      → IsFaithful cache
      → handle_all h stack cache rs ≡ map (λ r. (handle h stack [] r).0) rs
  unfolding handle_all
  handle_all-handle h stack [] cache v = refl
  handle_all-handle h stack (r ∷ rs) cache v =
      let (line, w) = handle-IsFaithful h stack cache r v in
      ap₂ ◌∷◌ line (handle_all-handle h stack rs (handle h stack cache r).1 w)
