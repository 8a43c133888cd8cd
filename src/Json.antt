-- ===== src/Json.antt =====
-- JSON documents, and the library nlohmann::json as a parameter. The library is not part of the
-- repository: its value type is named here by the kinds of value that it documents, its parser and
-- printer are fields, and the code's calls of `at`, `contains` and `is_string` read those values.
use cross_device_manager.Base.{
  ◌≡◌, ◌-◌, ◌%◌, ◌^◌, arith, Bool, true, false, ◌&&◌, Option, none, some, List, [], ◌∷◌, Text,
  text_eq, ◌==◌, all_bytes, text_lt, ltb, if◌then◌else◌,
}
use cross_device_manager.Base.Int.{ℤ, pos, negsuc}

-- A number with a fraction is given by the integer that a conversion makes of it.
mutual
  pub data Json : Type 0 where
    null : Json
    boolean : Bool → Json
    integer : ℤ → Json
    float : ℤ → Json
    string : Text → Json
    array : Items → Json
    object : Fields → Json

  pub data Items : Type 0 where
    no_item : Items
    item : Json → Items → Items

  pub data Fields : Type 0 where
    no_field : Fields
    field : Text → Json → Fields → Fields

-- An object keeps its fields in the order of the keys; a key that is there stays.
unfoldable pub insert_field : Text → Json → Fields → Fields
unfolding text_lt
insert_field k v no_field = field k v no_field
insert_field k v (field j w fs) =
    let rest = insert_field k v fs in
    if text_lt k j
    then field k v (field j w fs)
    else if k == j
    then field j w fs
    else field j w rest

-- The object of an initializer list.
unfoldable pub fields_of : List (Text × Json) → Fields
unfolding insert_field
fields_of [] = no_field
fields_of ((k, v) ∷ fs) = insert_field k v (fields_of fs)

unfoldable pub items_of : List Json → Items
items_of [] = no_item
items_of (j ∷ js) = item j (items_of js)

unfoldable pub find_field : Text → Fields → Option Json
find_field k no_field = none
find_field k (field j v fs) = if k == j then some v else find_field k fs

-- `none` stands for a `json::exception` here and below.
unfoldable pub at : Text → Json → Option Json
unfolding find_field
at k (object fs) = find_field k fs
at k _ = none

unfoldable pub to_text : Json → Option Text
to_text (string s) = some s
to_text _ = none

unfoldable pub to_bool : Json → Option Bool
to_bool (boolean b) = some b
to_bool _ = none

unfoldable pub to_number : Json → Option ℤ
to_number (integer n) = some n
to_number (float n) = some n
to_number _ = none

-- The conversion of an integer to `std::int64_t`.
unfoldable pub to_int64 : ℤ → ℤ
to_int64 (pos n) = let r = n % 2 ^ 64 in if ltb r (2 ^ 63) then pos r else negsuc (2 ^ 64 - 1 - r)
to_int64 (negsuc n) =
    let r = n % 2 ^ 64 in if ltb r (2 ^ 63) then negsuc r else pos (2 ^ 64 - 1 - r)

unfoldable pub to_int : Json → Option ℤ
unfolding to_number to_int64
to_int j = elim (to_number j) [ none ↦ none | some n ↦ some (to_int64 n) ]

-- Is it a number that `std::int64_t` has?
unfoldable pub in_int64 : ℤ → Bool
in_int64 (pos n) = ltb n (2 ^ 63)
in_int64 (negsuc n) = ltb n (2 ^ 63)

pub to_int64-same : (n : ℤ) → in_int64 n ≡ true → to_int64 n ≡ n
unfolding in_int64 to_int64
to_int64-same (pos n) h = ground arith
to_int64-same (negsuc n) h = ground arith

-- What the printer writes and the parser reads back: sorted keys, text in UTF-8 and integers of
-- 64 bits.
unfoldable pub fits_64 : ℤ → Bool
fits_64 (pos n) = ltb n 18446744073709551616
fits_64 (negsuc n) = ltb n 9223372036854775808

pub fits_int64 : (n : ℤ) → in_int64 n ≡ true → fits_64 n ≡ true
unfolding in_int64 fits_64
fits_int64 (pos n) h = ground arith
fits_int64 (negsuc n) h = ground arith

unfoldable pub starts_above : Text → Fields → Bool
unfolding text_lt
starts_above k no_field = true
starts_above k (field j v fs) = text_lt k j

unfoldable mutual
  unfolding fits_64 starts_above

  pub is_printable : (Text → Bool) → Json → Bool
  is_printable utf8 null = true
  is_printable utf8 (boolean b) = true
  is_printable utf8 (integer n) = fits_64 n
  is_printable utf8 (float n) = false
  is_printable utf8 (string s) = utf8 s
  is_printable utf8 (array js) = items_printable utf8 js
  is_printable utf8 (object fs) = fields_printable utf8 fs

  pub items_printable : (Text → Bool) → Items → Bool
  items_printable utf8 no_item = true
  items_printable utf8 (item j js) = is_printable utf8 j && items_printable utf8 js

  pub fields_printable : (Text → Bool) → Fields → Bool
  fields_printable utf8 no_field = true
  fields_printable utf8 (field k v fs) =
      (utf8 k && starts_above k fs) && (is_printable utf8 v && fields_printable utf8 fs)

unfoldable pub is_ascii : Text → Bool
unfolding all_bytes
is_ascii s = all_bytes (λ c. ltb c 128) s

-- `json::parse` without exceptions, `none` for a discarded value; `dump()` and `dump(2)`.
pub record Library : Type 0 where
  pub parse : Text → Option Json
  pub dump : Json → Text
  pub dump_pretty : Json → Text
  pub utf8 : Text → Bool

-- What the documentation promises: a printed document parses to itself.
pub record IsLawful (L : Library) : Type 0 where
  pub parse-dump : (j : Json) → is_printable L.utf8 j ≡ true → L.parse (L.dump j) ≡ some j
  pub parse-dump_pretty :
      (j : Json) → is_printable L.utf8 j ≡ true → L.parse (L.dump_pretty j) ≡ some j
  -- ASCII is UTF-8.
  pub utf8_ascii : (s : Text) → is_ascii s ≡ true → L.utf8 s ≡ true
