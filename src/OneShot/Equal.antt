-- ===== src/OneShot/Equal.antt =====
-- Python's `==` on the values that `json` reads.
use ring_lang.Common.{
  ℕ, suc, Bool, true, false, ◌&&◌, ◌||◌, not, if◌then◌else◌, ◌==◌, Option, none, some, Text, codes,
  text_eq,
}
use ring_lang.Common.Int.{ℤ, pos, int_eq}
use ring_lang.Common.Json.{
  Json, null, bool, int, float, str, array, object, Items, no_items, item, Members, no_members,
  member, get_member?,
}

abbrev pub is_zero_float : Text → Bool
is_zero_float s = text_eq s (codes "0.0") || text_eq s (codes "-0.0")

-- Floats by their `repr`: zero has two, and a `nan` is equal to nothing.
unfoldable pub same_float : Text → Text → Bool
unfolding text_eq
same_float s t = text_eq s t && not (text_eq s (codes "nan")) || is_zero_float s && is_zero_float t

abbrev pub number_of : Bool → ℤ
number_of b = if b then pos 1 else pos 0

unfoldable pub count_members : Members → ℕ
count_members no_members = 0
count_members (member name x ms) = suc (count_members ms)

abbrev pub if_some : (Json → Bool) → Option Json → Bool
if_some test none = false
if_some test (some y) = test y

-- `float_is s n` says that the float with this `repr` is the integer `n`.
module _ (float_is : Text → ℤ → Bool) where
  unfoldable pub same_integer : ℤ → Json → Bool
  same_integer n (bool b) = int_eq n (number_of b)
  same_integer n (int k) = int_eq n k
  same_integer n (float s) = float_is s n
  same_integer n _ = false

  unfoldable mutual
    unfolding get_member? same_float count_members same_integer

    pub same_json : Json → Json → Bool
    same_json null null = true
    same_json (bool b) y = same_integer (number_of b) y
    same_json (int n) y = same_integer n y
    same_json (float s) (float t) = same_float s t
    same_json (float s) (int n) = float_is s n
    same_json (float s) (bool b) = float_is s (number_of b)
    same_json (str s) (str t) = text_eq s t
    same_json (array xs) (array ys) = same_items xs ys
    same_json (object ms) (object ns) = count_members ms == count_members ns && same_members ms ns
    same_json _ _ = false

    pub same_items : Items → Items → Bool
    same_items no_items no_items = true
    same_items (item x xs) (item y ys) = same_json x y && same_items xs ys
    same_items _ _ = false

    -- each member of the first stands in the second
    pub same_members : Members → Members → Bool
    same_members no_members ns = true
    same_members (member name x ms) ns =
        if_some (same_json x) (get_member? name ns) && same_members ms ns
