-- ===== src/Tests/Codec.antt =====
-- A concrete JSON library that keeps its promises, for the examples: a document is written as its
-- depth and tokens, and the depth is the fuel that reads the tokens back.
use cross_device_manager.Base.{
  ℕ, zero, suc, ◌+◌, ◌≤◌, ◌≡◌, refl, true, false, Option, none, some, [], ◌∷◌, ◌++◌, Text, length,
  take, drop, arith,
}
use cross_device_manager.Base.Maybe.{◌>>=◌}
use cross_device_manager.Base.Int.{pos, negsuc}
use cross_device_manager.Json.{
  Json, null, boolean, integer, float, string, array, object, Items, no_item, item, Fields,
  no_field, field, Library, IsLawful, is_ascii,
}

abbrev mutual
  encode : Json → Text → Text
  encode null rest = 0 ∷ rest
  encode (boolean false) rest = 1 ∷ rest
  encode (boolean true) rest = 2 ∷ rest
  encode (integer (pos n)) rest = 3 ∷ n ∷ rest
  encode (integer (negsuc n)) rest = 4 ∷ n ∷ rest
  encode (float (pos n)) rest = 5 ∷ n ∷ rest
  encode (float (negsuc n)) rest = 6 ∷ n ∷ rest
  encode (string s) rest = 7 ∷ length s ∷ (s ++ rest)
  encode (array js) rest = 8 ∷ encode_items js rest
  encode (object fs) rest = 9 ∷ encode_fields fs rest

  encode_items : Items → Text → Text
  encode_items no_item rest = 0 ∷ rest
  encode_items (item j js) rest = 1 ∷ encode j (encode_items js rest)

  encode_fields : Fields → Text → Text
  encode_fields no_field rest = 0 ∷ rest
  encode_fields (field k v fs) rest = 1 ∷ length k ∷ (k ++ encode v (encode_fields fs rest))

abbrev mutual
  decode : ℕ → Text → Option (Json × Text)
  decode (suc n) (zero ∷ s) = some (null, s)
  decode (suc n) (suc zero ∷ s) = some (boolean false, s)
  decode (suc n) (suc (suc zero) ∷ s) = some (boolean true, s)
  decode (suc n) (suc (suc (suc zero)) ∷ k ∷ s) = some (integer (pos k), s)
  decode (suc n) (suc (suc (suc (suc zero))) ∷ k ∷ s) = some (integer (negsuc k), s)
  decode (suc n) (suc (suc (suc (suc (suc zero)))) ∷ k ∷ s) = some (float (pos k), s)
  decode (suc n) (suc (suc (suc (suc (suc (suc zero))))) ∷ k ∷ s) = some (float (negsuc k), s)
  decode (suc n) (suc (suc (suc (suc (suc (suc (suc zero)))))) ∷ k ∷ s) =
      some (string (take k s), drop k s)
  decode (suc n) (suc (suc (suc (suc (suc (suc (suc (suc zero))))))) ∷ s) =
      decode_items n s >>= λ x. some (array x.0, x.1)
  decode (suc n) (suc (suc (suc (suc (suc (suc (suc (suc (suc zero)))))))) ∷ s) =
      decode_fields n s >>= λ x. some (object x.0, x.1)
  decode _ _ = none

  decode_items : ℕ → Text → Option (Items × Text)
  decode_items (suc n) (zero ∷ s) = some (no_item, s)
  decode_items (suc n) (suc zero ∷ s) =
      decode n s >>= λ x. decode_items n x.1 >>= λ y. some (item x.0 y.0, y.1)
  decode_items _ _ = none

  decode_fields : ℕ → Text → Option (Fields × Text)
  decode_fields (suc n) (zero ∷ s) = some (no_field, s)
  decode_fields (suc n) (suc zero ∷ k ∷ s) =
      decode n (drop k s) >>= λ x. decode_fields n x.1 >>= λ y. some (field (take k s) x.0 y.0, y.1)
  decode_fields _ _ = none

take-append : (s t : Text) → take (length s) (s ++ t) ≡ s
take-append [] t = refl
take-append (c ∷ s) t = rw (take-append s t)

drop-append : (s t : Text) → drop (length s) (s ++ t) ≡ t
drop-append [] t = refl
drop-append (c ∷ s) t = drop-append s t

-- The depth of a document, which is the fuel that it takes.
abbrev mutual
  depth : Json → ℕ
  depth (array js) = suc (depth_items js)
  depth (object fs) = suc (depth_fields fs)
  depth _ = 1

  depth_items : Items → ℕ
  depth_items no_item = 1
  depth_items (item j js) = suc (depth j + depth_items js)

  depth_fields : Fields → ℕ
  depth_fields no_field = 1
  depth_fields (field k v fs) = suc (depth v + depth_fields fs)

depth-pos : (j : Json) → 1 ≤ depth j
depth-pos null = omega arith
depth-pos (boolean b) = omega arith
depth-pos (integer n) = omega arith
depth-pos (float n) = omega arith
depth-pos (string s) = omega arith
depth-pos (array js) = omega arith
depth-pos (object fs) = omega arith

depth_items-pos : (js : Items) → 1 ≤ depth_items js
depth_items-pos no_item = omega arith
depth_items-pos (item j js) = omega arith

depth_fields-pos : (fs : Fields) → 1 ≤ depth_fields fs
depth_fields-pos no_field = omega arith
depth_fields-pos (field k v fs) = omega arith

mutual
  decode-encode : (j : Json) (n : ℕ) (s : Text) → depth j ≤ n → decode n (encode j s) ≡ some (j, s)
  decode-encode j zero s h = absurd (omega (arith, depth-pos j))
  decode-encode null (suc n) s h = refl
  decode-encode (boolean false) (suc n) s h = refl
  decode-encode (boolean true) (suc n) s h = refl
  decode-encode (integer (pos k)) (suc n) s h = refl
  decode-encode (integer (negsuc k)) (suc n) s h = refl
  decode-encode (float (pos k)) (suc n) s h = refl
  decode-encode (float (negsuc k)) (suc n) s h = refl
  decode-encode (string t) (suc n) s h = rw (take-append t s, drop-append t s)
  decode-encode (array js) (suc n) s h = rw (decode_items-encode_items js n s (omega arith))
  decode-encode (object fs) (suc n) s h = rw (decode_fields-encode_fields fs n s (omega arith))

  decode_items-encode_items :
      (js : Items) (n : ℕ) (s : Text)
      → depth_items js ≤ n
      → decode_items n (encode_items js s) ≡ some (js, s)
  decode_items-encode_items js zero s h = absurd (omega (arith, depth_items-pos js))
  decode_items-encode_items no_item (suc n) s h = refl
  decode_items-encode_items (item j js) (suc n) s h = rw (
    decode-encode j n (encode_items js s) (omega arith),
    decode_items-encode_items js n s (omega arith),
  )

  decode_fields-encode_fields :
      (fs : Fields) (n : ℕ) (s : Text)
      → depth_fields fs ≤ n
      → decode_fields n (encode_fields fs s) ≡ some (fs, s)
  decode_fields-encode_fields fs zero s h = absurd (omega (arith, depth_fields-pos fs))
  decode_fields-encode_fields no_field (suc n) s h = refl
  decode_fields-encode_fields (field k v fs) (suc n) s h =
      let after = encode v (encode_fields fs s) in
      rw (
        take-append k after,
        drop-append k after,
        decode-encode v n (encode_fields fs s) (omega arith),
        decode_fields-encode_fields fs n s (omega arith),
      )

abbrev parse_tokens : Text → Option Json
parse_tokens [] = none
parse_tokens (n ∷ s) = decode n s >>= λ x. some x.0

abbrev print_tokens : Json → Text
print_tokens j = depth j ∷ encode j []

abbrev pub toy_json : Library
toy_json = record {
  parse = parse_tokens;
  dump = print_tokens;
  dump_pretty = print_tokens;
  utf8 = is_ascii;
}

parse-print : (j : Json) → parse_tokens (print_tokens j) ≡ some j
parse-print j = rw (decode-encode j (depth j) [] (omega arith))

pub toy_json-IsLawful : IsLawful toy_json
toy_json-IsLawful = record {
  parse-dump = λ j _. parse-print j;
  parse-dump_pretty = λ j _. parse-print j;
  utf8_ascii = λ s h. h;
}
