-- ===== src/PrettyLog.antt =====
-- app/v3/log/prettylog/plog.go: the handler that writes a record of the log as a line of text. The
-- time, frames of the stack and values come as the texts that other libraries make of them.
pub mod Cutting
pub mod Frames
mod Tests
use arcella_lib.Prelude.Int.{ℤ, pos, negsuc, leb_int}
use arcella_lib.Prelude.Text.{codes}
use arcella_lib.Prelude.Parse.{format_int}
use arcella_lib.Prelude.{
  ◌==◌, ◌||◌, ◌&&◌, ◌++◌, ◌∷◌, if◌then◌else◌, leb, ltb, drop, take, length, [], List, some, none,
  Option, false, true, Bool, suc, zero, ℕ,
}

-- a value: nil, or `any_value` with whether it is a struct, its JSON and its text of %+v, or the text of
-- another kind
pub data AttrValue : Type 0 where
  nil_value : AttrValue
  any_value : Bool → Option (List ℕ) → List ℕ → AttrValue
  plain_value : List ℕ → AttrValue

pub record Attr : Type 0 where
  pub key : List ℕ
  pub value : AttrValue
  pub shown : List ℕ

-- `groupOrAttrs`
pub record GroupOrAttrs : Type 0 where
  pub group : List ℕ
  pub attrs : List Attr

pub record IndentHandler : Type 0 where
  pub level : ℤ
  pub goas : List GroupOrAttrs
  pub with_gid : Bool

-- a record of the log, with its time as text
pub record Record : Type 0 where
  pub level : ℤ
  pub time : List ℕ
  pub pc : ℕ
  pub message : List ℕ
  pub attrs : List Attr

abbrev pub level_debug : ℤ
level_debug = negsuc 3

abbrev pub level_or : Option ℤ → ℤ
level_or none = level_debug
level_or (some level) = level

-- `New`, with the level of the options
unfoldable pub new : Option ℤ → IndentHandler
new level = record { level = level_or level; goas = []; with_gid = true }

unfoldable pub without_gid : IndentHandler → IndentHandler
without_gid h = record h { with_gid = false }

unfoldable pub enabled : IndentHandler → ℤ → Bool
enabled h level = leb_int h.level level

abbrev pub with_group_or_attrs : IndentHandler → GroupOrAttrs → IndentHandler
with_group_or_attrs h goa = record h { goas = h.goas ++ (goa ∷ []) }

unfoldable pub with_group : IndentHandler → List ℕ → IndentHandler
with_group h [] = h
with_group h (c ∷ name) = with_group_or_attrs h (record { group = c ∷ name; attrs = [] })

unfoldable pub with_attrs : IndentHandler → List Attr → IndentHandler
with_attrs h [] = h
with_attrs h (a ∷ attrs) = with_group_or_attrs h (record { group = []; attrs = a ∷ attrs })

-- the bytes before the first blank, or all of them
abbrev pub up_to_blank : List ℕ → List ℕ
up_to_blank [] = []
up_to_blank (c ∷ s) = let rest = up_to_blank s in if c == b' ' then [] else c ∷ rest

-- `writeGID`, of the text that `runtime.Stack` gives
unfoldable pub write_gid : IndentHandler → List ℕ → List ℕ
write_gid h stack =
    if h.with_gid then codes " [" ++ (up_to_blank (drop 10 stack) ++ codes "] ") else []

-- the levels with a name; any other is written as its number
unfoldable pub level_str : ℤ → List ℕ
unfolding format_int
level_str (negsuc (suc (suc (suc zero)))) = codes "DBG "
level_str (pos zero) = codes "INF "
level_str (pos (suc (suc (suc (suc zero))))) = codes "WRN "
level_str (pos (suc (suc (suc (suc (suc (suc (suc (suc zero))))))))) = codes "ERR "
level_str level = format_int level ++ codes " "

abbrev pub max_str_size : ℕ
max_str_size = 900

-- `utf8.RuneStart`
abbrev pub rune_start : ℕ → Bool
rune_start b = ltb b 128 || leb 192 b

abbrev pub byte_at : List ℕ → ℕ → ℕ
byte_at [] i = 0
byte_at (b ∷ s) zero = b
byte_at (b ∷ s) (suc i) = byte_at s i

-- the loop that looks for the start of a rune, from the given end down
unfoldable pub boundary : List ℕ → ℕ → ℕ
boundary message zero = zero
boundary message (suc end) =
    let rest = boundary message end in
    if rune_start (byte_at message (suc end)) then suc end else rest

unfoldable pub write_message : List ℕ → List ℕ
unfolding boundary
write_message message =
    if ltb max_str_size (length message)
    then take (boundary message max_str_size) message ++ codes "..."
    else message

abbrev pub group_text : List ℕ → List ℕ
group_text [] = []
group_text (c ∷ group) = codes " " ++ ((c ∷ group) ++ codes ": ")

abbrev pub shown_attrs : List Attr → List ℕ
shown_attrs [] = []
shown_attrs (a ∷ attrs) = a.key ++ (codes "=" ++ (a.shown ++ shown_attrs attrs))

abbrev pub attrs_text : List Attr → List ℕ
attrs_text [] = []
attrs_text (a ∷ attrs) = codes "[" ++ (shown_attrs (a ∷ attrs) ++ codes "] ")

-- `writeGroups`
unfoldable pub write_groups : List GroupOrAttrs → List ℕ
write_groups [] = []
write_groups (goa ∷ goas) = group_text goa.group ++ (attrs_text goa.attrs ++ write_groups goas)

abbrev pub or_text : Option (List ℕ) → List ℕ → List ℕ
or_text none text = text
or_text (some json) text = json

-- A struct is written as JSON at the level of debugging, where the kind of nil panics: `none`.
abbrev pub value_text : Bool → AttrValue → Option (List ℕ)
value_text debugs (plain_value text) = some text
value_text debugs (any_value is_struct json text) =
    if debugs && is_struct then some (or_text json text) else some text
value_text debugs nil_value = if debugs then none else some (codes "<nil>")

abbrev pub before : List ℕ → Option (List ℕ) → Option (List ℕ) → Option (List ℕ)
before key none rest = none
before key (some text) none = none
before key (some text) (some rest) = some (key ++ (codes "=" ++ (text ++ (codes " " ++ rest))))

abbrev pub each_attr : Bool → List Attr → Option (List ℕ)
each_attr debugs [] = some []
each_attr debugs (a ∷ attrs) = before a.key (value_text debugs a.value) (each_attr debugs attrs)

abbrev pub is_debug : ℤ → Bool
is_debug level = leb_int level level_debug && leb_int level_debug level

abbrev pub after_blank : Option (List ℕ) → Option (List ℕ)
after_blank none = none
after_blank (some text) = some (codes " " ++ text)

-- `writeAttrData`
unfoldable pub write_attr_data : Record → Option (List ℕ)
write_attr_data r = elim r.attrs [
  | [] ↦ some []
  | a ∷ attrs ↦ after_blank (each_attr (is_debug r.level) (a ∷ attrs))
]
