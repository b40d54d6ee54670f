-- ===== src/Common/Json.antt =====
-- The values that Python's `json` reads, and the compact text that `json.dumps` writes for texts.
use ring_lang.Common.{
  ℕ, ◌+◌, ◌/◌, ◌%◌, ◌-◌, Bool, true, false, ◌&&◌, List, [], ◌∷◌, ◌++◌, Option, none, some, leb, ltb,
  ◌==◌, if◌then◌else◌, Text, codes, text_eq,
}
use ring_lang.Common.Int.{ℤ, pos, int_eq}
use ring_lang.Common.Decimal.{str_int}

mutual
  pub data Json : Type 0 where
    null : Json
    bool : Bool → Json
    int : ℤ → Json
    -- by its `repr`, which no two floats share
    float : Text → Json
    str : Text → Json
    array : Items → Json
    object : Members → Json

  pub data Items : Type 0 where
    no_items : Items
    item : Json → Items → Items

  -- a dictionary: no name stands twice
  pub data Members : Type 0 where
    no_members : Members
    member : Text → Json → Members → Members

-- `d.get(name)` of a dictionary; a missing name gives `None`, which JSON's `null` is too
unfoldable pub get_member? : Text → Members → Option Json
get_member? name no_members = none
get_member? name (member key value ms) =
    if text_eq name key then some value else get_member? name ms

abbrev pub or_else : Json → Option Json → Json
or_else other none = other
or_else other (some value) = value

unfoldable pub get_member : Text → Members → Json
unfolding get_member?
get_member name ms = or_else null (get_member? name ms)

-- `value == 1`, which `True` and `1.0` are as well
unfoldable pub is_one : Json → Bool
is_one (bool b) = b
is_one (int n) = int_eq n (pos 1)
is_one (float s) = text_eq s (codes "1.0")
is_one _ = false

-- `value == text`
unfoldable pub is_str : Text → Json → Bool
is_str s (str t) = text_eq t s
is_str s _ = false

-- `str(value)`; of a list and of a dictionary only the bracket in front
unfoldable pub py_str : Json → Text
py_str null = codes "None"
py_str (bool true) = codes "True"
py_str (bool false) = codes "False"
py_str (int n) = str_int n
py_str (float s) = s
py_str (str s) = s
py_str (array xs) = codes "["
py_str (object ms) = codes "{"

abbrev pub cons_some : Text → Option (List Text) → Option (List Text)
cons_some s none = none
cons_some s (some ss) = some (s ∷ ss)

-- The texts of a list, if every value is a `str`
unfoldable pub texts_of : Items → Option (List Text)
texts_of no_items = some []
texts_of (item (str s) xs) = cons_some s (texts_of xs)
texts_of (item _ xs) = none

unfoldable pub str_items : List Text → Items
str_items [] = no_items
str_items (s ∷ ss) = item (str s) (str_items ss)

-- `[item, ...]`
unfoldable pub items_of : List Json → Items
items_of [] = no_items
items_of (x ∷ xs) = item x (items_of xs)

hex_digit : ℕ → ℕ
hex_digit d = if ltb d 10 then d + 48 else d + 87

-- `\uXXXX`
hex_escape : ℕ → Text
unfolding hex_digit
hex_escape u =
    b'\\'
    ∷ b'u'
    ∷ hex_digit (u / 4096 % 16)
    ∷ hex_digit (u / 256 % 16)
    ∷ hex_digit (u / 16 % 16)
    ∷ hex_digit (u % 16)
    ∷ []

-- A code point inside a string: `ensure_ascii=True`.
unfoldable pub json_char : ℕ → Text
unfolding hex_escape
json_char c =
    if c == b'"'
    then codes "\\\""
    else if c == b'\\'
    then codes "\\\\"
    else if leb 32 c && leb c 126
    then c ∷ []
    else if c == 10
    then codes "\\n"
    else if c == 13
    then codes "\\r"
    else if c == 9
    then codes "\\t"
    else if c == 12
    then codes "\\f"
    else if c == 8
    then codes "\\b"
    else if ltb c 0x10000
    then hex_escape c
    else hex_escape (0xd800 + (c - 0x10000) / 1024 % 1024) ++ hex_escape (0xdc00 + c % 1024)

unfoldable pub json_chars : Text → Text
unfolding json_char
json_chars [] = []
json_chars (c ∷ s) = json_char c ++ json_chars s

unfoldable pub json_str : Text → Text
unfolding json_chars
json_str s = b'"' ∷ json_chars s ++ b'"' ∷ []

-- A list of texts, with `,` between the items.
unfoldable pub json_tail : List Text → Text
unfolding json_str
json_tail [] = codes "]"
json_tail (s ∷ ss) = b',' ∷ json_str s ++ json_tail ss

unfoldable pub json_list : List Text → Text
unfolding json_tail
json_list [] = codes "[]"
json_list (s ∷ ss) = b'[' ∷ json_str s ++ json_tail ss
