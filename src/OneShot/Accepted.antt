-- ===== src/OneShot/Accepted.antt =====
-- `.agents/scripts/one_shot_gate.py`: the receipt of an accepted request is valid, part by part.
use mathlib.Core.Path.{subst}
use ring_lang.Common.{
  ℕ, suc, ◌≡◌, refl, ap, sym, true, false, not, ◌&&◌, ◌||◌, List, [], ◌∷◌, Option, none, some, Text,
  codes, text_eq, text_eq_iff, any, all, mem_text, arith, ok, err, and-eq-true, All,
}
use ring_lang.Common.Int.{ℤ, pos, ltb_ℤ}
use ring_lang.Common.Dicts.{Dict, dict_get, text_key}
use ring_lang.Common.Json.{
  Json, int, float, str, array, object, items_of, str_items, member, no_members, get_member,
  get_member?,
}
use ring_lang.OneShot.Values.{
  Failure, violation, Checked, is_finite_float, is_positive_float, strict_keys, same_names,
  names_of, each,
}
use ring_lang.OneShot.Receipts.{
  Limits, check_wall_seconds, is_too_large, validate_limits, limits_receipt,
  validate_limits_receipt, check_limits, to_float,
}
use ring_lang.OneShot.Execution.{
  is_unique_sorted, validate_env, env_names, validate_env_entry, env_name_of, is_env_value,
  all_items, is_argument, is_list_of, entry_result,
}
use ring_lang.OneShot.Outcome.{members_in}
use ring_lang.OneShot.Spec.{
  env_entries, names, is_nil, check_env, check_env_entry, same_texts, is_part, same_dict,
  is_value_of, is_entry_of,
}

-- The `repr` of the float of an integer that is positive, and not too large for one, is that of a positive
-- and finite float.
abbrev pub KeepsPositive : (ℤ → Text) → Type 0
KeepsPositive float_of =
    (n : ℤ)
    → is_too_large n ≡ false
    → ltb_ℤ (pos 0) n ≡ true
    → (is_finite_float (float_of n) && is_positive_float (float_of n)) ≡ true

to_float-valid :
    (float_of : ℤ → Text) (e f : Failure) (x : Json)
    → KeepsPositive float_of
    → check_wall_seconds e x ≡ ok tt
    → check_wall_seconds f (to_float float_of x) ≡ ok tt
unfolding to_float check_wall_seconds
to_float-valid float_of e f (int n) keep h = ground (arith, keep n)
to_float-valid float_of e f (float s) keep h = ground arith
to_float-valid float_of e f x keep h = cc

-- The receipt of valid limits is valid.
pub limits_receipt-valid :
    (float_of : ℤ → Text) (self : Limits)
    → KeepsPositive float_of
    → validate_limits self ≡ ok tt
    → validate_limits_receipt (limits_receipt float_of self)
      ≡ ok (members_in (limits_receipt float_of self))
unfolding validate_limits_receipt limits_receipt validate_limits strict_keys check_limits get_member
    get_member? each same_names names_of any all mem_text text_eq
limits_receipt-valid float_of self keep h = ground (
  arith,
  to_float-valid float_of (violation "wall_seconds must be positive")
      (violation "wall_seconds is invalid") self.wall_seconds keep,
)

all_items-arguments :
    (argv : List Text) → all is_part argv ≡ true → all_items is_argument (str_items argv) ≡ true
unfolding all_items str_items is_argument all
all_items-arguments [] h = refl
all_items-arguments (part ∷ argv) h = ground (arith, all_items-arguments argv)

same_texts-eq : (xs ys : List Text) → same_texts xs ys ≡ true → xs ≡ ys
unfolding same_texts
same_texts-eq [] [] h = refl
same_texts-eq (x ∷ xs) (y ∷ ys) h = ground (arith, text_eq_iff x y, same_texts-eq xs ys)
same_texts-eq [] (y ∷ ys) h = cc
same_texts-eq (x ∷ xs) [] h = cc

-- An entry of an environment that passes
check_env-entry :
    (key value : Text) (env : Dict Text Text)
    → check_env env ≡ ok tt
    → dict_get key env ≡ some value
    → check_env_entry (key, value) ≡ ok tt
unfolding check_env dict_get
check_env-entry key value [] h g = cc
check_env-entry key value ((j, v) ∷ env) h g =
    ground (arith, text_eq_iff key j, check_env-entry key value env)

-- The names in the receipt of an environment whose entries pass
abbrev Passes : Text × Text → Type 0
Passes entry = check_env_entry entry ≡ ok tt

validate_env_entry-ok :
    (key value : Text)
    → check_env_entry (key, value) ≡ ok tt
    → validate_env_entry
        (object (member (codes "name") (str key) (member (codes "value") (str value) no_members)))
      ≡ ok key
unfolding validate_env_entry check_env_entry strict_keys same_names names_of any all mem_text
    text_eq get_member get_member? env_name_of is_env_value
validate_env_entry-ok key value h = ground arith

entry_result-ok :
    (index : ℕ) (check : Checked Text) (name : Text)
    → check ≡ ok name
    → entry_result index check ≡ ok name
entry_result-ok index (ok name) other h = h
entry_result-ok index (err e) other h = cc

env_names-entries :
    (index : ℕ) (env : Dict Text Text)
    → All Passes env
    → env_names index (items_of (env_entries env)) ≡ ok (names env)
unfolding env_names env_entries items_of
env_names-entries index [] h = refl
env_names-entries index ((key, value) ∷ env) (first, more) =
    rw (entry_result-ok index _ key (validate_env_entry-ok key value first))
      (rw (env_names-entries (suc index) env more))

value_of :
    (value : Text) (found : Option Text) → is_value_of value found ≡ true → found ≡ some value
value_of value none h = cc
value_of value (some other) h = ap some (sym ((text_eq_iff value other).0 h))

-- The entries of reviewed pairs that are those of a checked environment pass as well.
reviewed-Passes :
    (env reviewed : Dict Text Text)
    → check_env env ≡ ok tt
    → all (is_entry_of env) reviewed ≡ true
    → All Passes reviewed
unfolding all
reviewed-Passes env [] h a = tt
reviewed-Passes env ((key, value) ∷ reviewed) h a =
    let (here, rest) =
      and-eq-true (is_entry_of env (key, value)) (all (is_entry_of env) reviewed) a in
    (
      check_env-entry key value env h (value_of value (dict_get key env) here),
      reviewed-Passes env reviewed h rest,
    )

argv_valid :
    (argv : List Text)
    → (is_nil argv || not (all is_part argv)) ≡ false
    → is_list_of is_argument (array (str_items argv)) ≡ true
unfolding is_list_of str_items all_items all is_argument
argv_valid [] h = cc
argv_valid (part ∷ argv) h = ground (arith, all_items-arguments argv)

-- The parts of the receipt of what is run.
pub argv-valid :
    (argv reviewed : List Text)
    → (is_nil argv || not (all is_part argv)) ≡ false
    → same_texts argv reviewed ≡ true
    → is_list_of is_argument (array (str_items reviewed)) ≡ true
unfolding is_list_of str_items all_items
argv-valid argv reviewed h s =
    subst (λ (l : List Text). is_list_of is_argument (array (str_items l)) ≡ true)
      (same_texts-eq argv reviewed s) (argv_valid argv h)

pub env-valid :
    (env reviewed : Dict Text Text)
    → is_unique_sorted (names reviewed) ≡ true
    → same_dict env reviewed ≡ true
    → check_env env ≡ ok tt
    → validate_env (array (items_of (env_entries reviewed))) ≡ ok tt
unfolding validate_env same_dict
env-valid env reviewed unique same h =
    let (one, other) =
      and-eq-true (all (is_entry_of reviewed) env) (all (is_entry_of env) reviewed) same in
    rw (env_names-entries 0 reviewed (reviewed-Passes env reviewed h other)) (rw unique)
