-- ===== src/Base/Strings.antt =====
-- `std::string` as the list of its bytes, with the searches that the program uses.
use Prim.Native.Nat.{ℕ, ◌+◌}
use Prim.Native.Char.{code}
use Prim.Native.String.{String}
use mathlib.Core.Path.{◌≡◌, refl}
use mathlib.Core.Bool.{Bool, true, false, not, ◌&&◌, ◌||◌}
use mathlib.Core.Option.{Option, none, some}
use mathlib.Core.List.{List, [], ◌∷◌, ◌++◌, reverse}
use native.Mathlib.Omega.{arith}
use native.Mathlib.Decide.{ℕ_discrete}
use cross_device_manager.Base.Tests.{ltb, Eq, ◌==◌, nat_eq, if◌then◌else◌, eq_refl}

abbrev pub Text : Type 0
Text = List ℕ

-- The bytes of an ASCII literal.
abbrev pub bytes : String → Text
bytes String.[] = []
bytes (String.◌∷◌ c s) = code c ∷ bytes s

pub text_dec : Discrete Text
text_dec = hlevel ℕ_discrete

instance unfoldable pub text_eq : Eq Text
unfolding text_dec ℕ_discrete
text_eq = record { dec = text_dec }

unfoldable pub is_empty : Text → Bool
is_empty [] = true
is_empty (c ∷ s) = false

pub is_empty_nil : (s : Text) → is_empty s ≡ true → s ≡ []
unfolding is_empty
is_empty_nil [] h = refl
is_empty_nil (c ∷ s) h = cc

-- `s.starts_with(p)`
unfoldable pub starts_with : Text → Text → Bool
starts_with s [] = true
starts_with [] (p ∷ ps) = false
starts_with (c ∷ s) (p ∷ ps) = (c == p) && starts_with s ps

pub starts_with-append : (p r : Text) → starts_with (p ++ r) p ≡ true
unfolding starts_with
starts_with-append [] r = refl
starts_with-append (c ∷ p) r = ground (arith, eq_refl c, starts_with-append p r)

-- What follows a prefix.
pub rest_of_prefix : (s p : Text) → starts_with s p ≡ true → (r : Text) × (s ≡ p ++ r)
unfolding starts_with
rest_of_prefix s [] h = (s, refl)
rest_of_prefix [] (p ∷ ps) h = absurd (cc)
rest_of_prefix (c ∷ s) (p ∷ ps) h =
    let hyps : (c ≡ p) × (starts_with s ps ≡ true) = ground arith in
    let (r, e) = rest_of_prefix s ps hyps.1 in (r, cc (hyps.0, e))

-- `s.ends_with(p)`
unfoldable pub ends_with : Text → Text → Bool
unfolding starts_with
ends_with s p = starts_with (reverse s) (reverse p)

-- What follows the last occurrence of a byte, as `find_last_of` and `substr` give it.
unfoldable pub after_last : ℕ → Text → Option Text
after_last c [] = none
after_last c (x ∷ s) = elim (after_last c s) [
  | some r ↦ some r
  | none ↦ if x == c then some s else none
]

-- Every byte of a text passes a test (`std::ranges::all_of`).
unfoldable pub all_bytes : (ℕ → Bool) → Text → Bool
all_bytes p [] = true
all_bytes p (c ∷ s) = p c && all_bytes p s

-- Does a byte occur (`find(c) != npos`)?
unfoldable pub has_byte : ℕ → Text → Bool
has_byte c [] = false
has_byte c (x ∷ s) = (x == c) || has_byte c s

-- The order of `std::less<std::string>`.
unfoldable pub text_lt : Text → Text → Bool
text_lt s [] = false
text_lt [] (d ∷ t) = true
text_lt (c ∷ s) (d ∷ t) = let rest = text_lt s t in if c == d then rest else ltb c d

-- What stands before the first occurrence of a text: `s.substr(0, s.find(p))`, `none` for `npos`.
unfoldable pub before_sub : Text → Text → Option Text
unfolding starts_with
before_sub p [] = if is_empty p then some [] else none
before_sub p (c ∷ s) =
    let later = before_sub p s in
    if starts_with (c ∷ s) p then some [] else elim later [ none ↦ none | some r ↦ some (c ∷ r) ]

-- `std::isspace` in the C locale.
unfoldable pub is_blank : ℕ → Bool
is_blank c = (c == 32) || (not (ltb c 9) && ltb c 14)

-- What `in >> token` reads: the bytes up to the first blank, behind the leading blanks.
unfoldable pub take_token : Text → Text
unfolding is_blank
take_token [] = []
take_token (c ∷ s) = let rest = take_token s in if is_blank c then [] else c ∷ rest

unfoldable pub skip_blanks : Text → Text
unfolding is_blank
skip_blanks [] = []
skip_blanks (c ∷ s) = let rest = skip_blanks s in if is_blank c then rest else c ∷ s

-- `std::tolower` in the C locale.
unfoldable pub to_lower : Text → Text
to_lower [] = []
to_lower (c ∷ s) =
    let rest = to_lower s in (if not (ltb c b'A') && not (ltb b'Z' c) then c + 32 else c) ∷ rest

-- `s.find(p) != npos`
unfoldable pub has_sub : Text → Text → Bool
unfolding before_sub
has_sub p s = elim (before_sub p s) [ none ↦ false | some r ↦ true ]

unfoldable pub concat : List Text → Text
concat [] = []
concat (s ∷ ss) = s ++ concat ss
