-- ===== src/PrettyLog/Tests.antt =====
-- The handler on small records.
use arcella_lib.Prelude.Dict
use arcella_lib.Prelude.Int.{ℤ, pos}
use arcella_lib.Prelude.Text.{codes, itoa}
use arcella_lib.Sms.{number_eq}
use arcella_lib.PrettyLog.{
  IndentHandler, Record, any_value, nil_value, level_debug, new, with_group, rune_start, byte_at,
  write_message, write_groups, write_attr_data, write_gid, level_str,
}
use arcella_lib.PrettyLog.Cutting
use arcella_lib.PrettyLog.Cutting.{IsRunes}
use arcella_lib.PrettyLog.Frames
use arcella_lib.PrettyLog.Frames.{Frame, handle, handle_all, write_func_data, entry_of, after_last}
use arcella_lib.Prelude.{
  length-replicate, ◌++◌, ◌∷◌, ◌≡◌, ◌<◌, ◌≤◌, replicate, take, arith, inl, map, [], List, some,
  none, true, ap, refl, suc, zero, ℕ,
}

abbrev frames : ℕ → Frame
frames pc = record { name = codes "a/b.(*T).Run"; file = codes "/src/a/b.go"; line = pc }

abbrev entry : Record
entry = record {
  level = level_debug;
  time = codes "T";
  pc = 12;
  message = codes "hi";
  attrs =
      record {
        key = codes "k";
        value = any_value true (some (codes "{}")) (codes "v");
        shown = codes "v";
      }
      ∷ [];
}

abbrev grouped : IndentHandler
unfolding with_group new
grouped = with_group (new none) (codes "g")

line :
    (handle frames grouped (codes "goroutine 7 [running]") [] entry).0
    ≡ some (codes "DBG T [7] b.go Run:12 - hi g:  k={} " ++ (10 ∷ []))
unfolding handle write_func_data level_str write_gid write_message write_groups write_attr_data
    after_last itoa Dict.lookup grouped
line = refl

-- a nil value: at the level of debugging, and at another
abbrev with_nil : ℤ → Record
with_nil level = record entry {
  level = level;
  attrs = record { key = codes "err"; value = nil_value; shown = codes "<nil>" } ∷ [];
}

nil_panics : (handle frames grouped (codes "goroutine 7 [") [] (with_nil level_debug)).0 ≡ none
unfolding handle write_attr_data
nil_panics = refl

nil_written : write_attr_data (with_nil (pos 0)) ≡ some (codes " err=<nil> ")
unfolding write_attr_data
nil_written = refl

handle_all-handle_example :
    handle_all frames grouped (codes "goroutine 7 [") [] (entry ∷ entry ∷ [])
    ≡ map (λ r. (handle frames grouped (codes "goroutine 7 [") [] r).0) (entry ∷ entry ∷ [])
unfolding Dict.lookup
handle_all-handle_example =
    Frames.handle_all-handle frames grouped (codes "goroutine 7 [") (entry ∷ entry ∷ []) []
      (λ pc fde e. absurd (ground arith))

byte_at-replicate : (n i : ℕ) → i < n → byte_at (replicate n 97) i ≡ 97
byte_at-replicate zero i lt = absurd (omega arith)
byte_at-replicate (suc n) zero lt = refl
byte_at-replicate (suc n) (suc i) lt = byte_at-replicate n i (omega arith)

abbrev long : List ℕ
long = replicate 901 97

long-IsRunes : IsRunes long
long-IsRunes i lt =
    let e : byte_at long i ≡ 97 =
      byte_at-replicate 901 i (omega (arith, length-replicate {A = ℕ} 901 97)) in
    inl (ap rune_start e)

write_message-rune_start_example :
    (n : ℕ) × (896 < n)
    × (n ≤ 900)
    × (rune_start (byte_at long n) ≡ true)
    × (write_message long ≡ take n long ++ codes "...")
write_message-rune_start_example =
    Cutting.write_message-rune_start long long-IsRunes
      (omega (arith, length-replicate {A = ℕ} 901 97))
