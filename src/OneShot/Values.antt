-- ===== src/OneShot/Values.antt =====
-- `.agents/scripts/one_shot_gate.py`: constants, patterns, and the tests on a value that JSON gave.
use Prim.Native.String.{String}
use ring_lang.Common.{
  ℕ, ◌-◌, Bool, true, false, ◌&&◌, ◌||◌, not, List, [], ◌∷◌, ◌++◌, leb, ◌==◌, if◌then◌else◌, Text,
  codes, text_eq, mem_text, any, all, starts_with, is_empty, Result, ok, err, ◌>>◌,
}
use ring_lang.Common.Int.{ℤ, pos, int_eq, ltb_ℤ, leb_ℤ}
use ring_lang.Common.Decimal.{decimal}
use ring_lang.Common.Json.{Json, null, bool, int, float, str, object, Members, no_members, member}
use ring_lang.Common.Regex.{Regex, class, both, at_most, many, exactly, fullmatch}
use ring_lang.AuditLedger.Patterns.{is_digit, is_hex, is_lower}

-- A `ContractError`, or another exception: the `OverflowError` of `float(n)`, or the `AttributeError` of
-- `.get` on a value that is no dictionary. A label in front of its message stands in `under`, the index of a list's entry in
-- `at_entry`.
pub data Failure : Type 0 where
  violation : String → Failure
  overflow attribute_error : Failure
  under : Text → Failure → Failure
  at_entry : ℕ → Failure → Failure

abbrev pub Checked : Type 0 → Type 0
Checked A = Result Failure A

abbrev pub is_upper : ℕ → Bool
is_upper c = leb 65 c && leb c 90

abbrev pub is_letter : ℕ → Bool
is_letter c = is_lower c || is_upper c

unfoldable pub gate_id_re : Regex
gate_id_re =
    let head = λ (c : ℕ). is_letter c || is_digit c in
    both (class head) (at_most 127 (λ c. head c || c == b'.' || c == b'_' || c == b'-'))

unfoldable pub hex_64_re : Regex
hex_64_re = exactly 64 is_hex

unfoldable pub attempt_id_re : Regex
attempt_id_re = exactly 64 (λ c. is_digit c || leb 65 c && leb c 70)

unfoldable pub env_name_re : Regex
env_name_re =
    let head = λ (c : ℕ). is_letter c || c == b'_' in
    both (class head) (many (λ c. head c || is_digit c || c == b'(' || c == b')'))

abbrev pub secret_env_fragments : List Text
secret_env_fragments =
    codes "TOKEN"
    ∷ codes "SECRET"
    ∷ codes "PASSWORD"
    ∷ codes "PASSWD"
    ∷ codes "CREDENTIAL"
    ∷ codes "COOKIE"
    ∷ codes "PRIVATE_KEY"
    ∷ codes "API_KEY"
    ∷ codes "AUTHORIZATION"
    ∷ []

-- `str.upper` of an environment name: its pattern lets ASCII through only
abbrev pub upper_char : ℕ → ℕ
upper_char c = if is_lower c then c - 32 else c

unfoldable pub upper : Text → Text
upper [] = []
upper (c ∷ s) = upper_char c ∷ upper s

-- `fragment in text`
unfoldable pub has_text : Text → Text → Bool
unfolding starts_with
has_text fragment [] = is_empty fragment
has_text fragment (c ∷ s) = starts_with fragment (c ∷ s) || has_text fragment s

unfoldable pub is_secret_name : Text → Bool
unfolding any upper has_text
is_secret_name name = any (λ fragment. has_text fragment (upper name)) secret_env_fragments

-- `x is None`, and the tests of a type with `isinstance` or `type(x) is`
abbrev pub is_null : Json → Bool
is_null null = true
is_null _ = false

abbrev pub is_bool : Json → Bool
is_bool (bool b) = true
is_bool _ = false

abbrev pub is_int : Json → Bool
is_int (int n) = true
is_int _ = false

abbrev pub is_text : Json → Bool
is_text (str s) = true
is_text _ = false

abbrev pub is_object : Json → Bool
is_object (object ms) = true
is_object _ = false

-- `isinstance(x, str) and x`
abbrev pub is_filled : Json → Bool
is_filled (str s) = not (is_empty s)
is_filled _ = false

-- `isinstance(x, str) and RE.fullmatch(x) is not None`
abbrev pub matches : Regex → Json → Bool
matches re (str s) = fullmatch re s
matches re _ = false

-- `x is None or isinstance(x, str)`
abbrev pub is_text_or_null : Json → Bool
is_text_or_null x = is_null x || is_text x

-- `type(x) is int and x >= 0`, and `x > 0`
abbrev pub is_nat : Json → Bool
is_nat (int n) = leb_ℤ (pos 0) n
is_nat _ = false

abbrev pub is_positive : Json → Bool
is_positive (int n) = ltb_ℤ (pos 0) n
is_positive _ = false

-- `math.isfinite` and `x > 0` of a float, by its `repr`
abbrev pub is_finite_float : Text → Bool
is_finite_float s =
    not (text_eq s (codes "inf") || text_eq s (codes "-inf") || text_eq s (codes "nan"))

abbrev pub is_positive_float : Text → Bool
is_positive_float s = not (starts_with (codes "-") s || text_eq s (codes "0.0"))

-- `x == n` for a number `n`: `True` is 1 and `False` is 0
unfoldable pub is_number : ℕ → Json → Bool
unfolding decimal text_eq
is_number n (bool b) = if b then n == 1 else n == 0
is_number n (int k) = int_eq k (pos n)
is_number n (float s) = text_eq s (decimal n ++ codes ".0")
is_number n _ = false

-- The number of a value that is an `int`, the truth of one that is a `bool`.
abbrev pub int_of : Json → ℤ
int_of (int n) = n
int_of _ = pos 0

abbrev pub truth_of : Json → Bool
truth_of (bool b) = b
truth_of _ = false

-- `for key in keys: check(key)`
unfoldable pub each : List Text → (Text → Checked (Unit {0})) → Checked (Unit {0})
each [] check = ok tt
each (key ∷ keys) check = let rest = each keys check in do check key; rest

abbrev pub message : Text → Checked (Unit {0}) → Checked (Unit {0})
message label (err e) = err (under label e)
message label (ok done) = ok done

-- `set(value)` of a dictionary
unfoldable pub names_of : Members → List Text
names_of no_members = []
names_of (member name x ms) = name ∷ names_of ms

-- `set(value) == expected`
unfoldable pub same_names : List Text → List Text → Bool
unfolding all mem_text
same_names xs ys = all (λ x. mem_text x ys) xs && all (λ y. mem_text y xs) ys

unfoldable pub strict_keys : Json → List Text → Checked Members
unfolding same_names names_of
strict_keys (object ms) expected =
    if same_names (names_of ms) expected then ok ms else err (violation "keys differ")
strict_keys _ expected = err (violation "is not an object")
