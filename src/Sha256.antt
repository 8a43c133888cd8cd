-- ===== src/Sha256.antt =====
-- core/src/sha256.cpp: SHA-256 over bytes, on 32-bit words with their wrap-around.
pub mod Digest
use Prim.Native.Nat.{bit_and, bit_or, bit_xor}
use cross_device_manager.Base.{
  ℕ, zero, suc, ◌+◌, ◌-◌, ◌*◌, ◌/◌, ◌%◌, ◌^◌, Bool, true, false, List, [], ◌∷◌, ◌++◌, Text, bytes,
  take, drop, length, leb, ltb, if◌then◌else◌,
}

-- The eight words of the state.
pub record Words : Type 0 where
  pub a : ℕ
  pub b : ℕ
  pub c : ℕ
  pub d : ℕ
  pub e : ℕ
  pub f : ℕ
  pub g : ℕ
  pub h : ℕ

abbrev round_constants : List ℕ
round_constants =
    0x428a2f98 ∷ 0x71374491 ∷ 0xb5c0fbcf ∷ 0xe9b5dba5 ∷ 0x3956c25b ∷ 0x59f111f1 ∷ 0x923f82a4
    ∷ 0xab1c5ed5 ∷ 0xd807aa98 ∷ 0x12835b01 ∷ 0x243185be ∷ 0x550c7dc3 ∷ 0x72be5d74 ∷ 0x80deb1fe
    ∷ 0x9bdc06a7 ∷ 0xc19bf174 ∷ 0xe49b69c1 ∷ 0xefbe4786 ∷ 0x0fc19dc6 ∷ 0x240ca1cc ∷ 0x2de92c6f
    ∷ 0x4a7484aa ∷ 0x5cb0a9dc ∷ 0x76f988da ∷ 0x983e5152 ∷ 0xa831c66d ∷ 0xb00327c8 ∷ 0xbf597fc7
    ∷ 0xc6e00bf3 ∷ 0xd5a79147 ∷ 0x06ca6351 ∷ 0x14292967 ∷ 0x27b70a85 ∷ 0x2e1b2138 ∷ 0x4d2c6dfc
    ∷ 0x53380d13 ∷ 0x650a7354 ∷ 0x766a0abb ∷ 0x81c2c92e ∷ 0x92722c85 ∷ 0xa2bfe8a1 ∷ 0xa81a664b
    ∷ 0xc24b8b70 ∷ 0xc76c51a3 ∷ 0xd192e819 ∷ 0xd6990624 ∷ 0xf40e3585 ∷ 0x106aa070 ∷ 0x19a4c116
    ∷ 0x1e376c08 ∷ 0x2748774c ∷ 0x34b0bcb5 ∷ 0x391c0cb3 ∷ 0x4ed8aa4a ∷ 0x5b9cca4f ∷ 0x682e6ff3
    ∷ 0x748f82ee ∷ 0x78a5636f ∷ 0x84c87814 ∷ 0x8cc70208 ∷ 0x90befffa ∷ 0xa4506ceb ∷ 0xbef9a3f7
    ∷ 0xc67178f2 ∷ []

abbrev pub initial_state : Words
initial_state = record {
  a = 0x6a09e667;
  b = 0xbb67ae85;
  c = 0x3c6ef372;
  d = 0xa54ff53a;
  e = 0x510e527f;
  f = 0x9b05688c;
  g = 0x1f83d9ab;
  h = 0x5be0cd19;
}

abbrev word_mod : ℕ
word_mod = 2 ^ 32

-- `std::rotr` of a 32-bit word.
unfoldable pub rotr : ℕ → ℕ → ℕ
rotr x n = bit_or (x / 2 ^ n) (x * 2 ^ (32 - n) % word_mod)

abbrev xor3 : ℕ → ℕ → ℕ → ℕ
xor3 x y z = bit_xor (bit_xor x y) z

abbrev complement : ℕ → ℕ
complement x = bit_xor x 0xffffffff

-- The first 16 words of the schedule, the last one first.
unfoldable pub block_words : Text → List ℕ → List ℕ
block_words (p ∷ q ∷ r ∷ s ∷ block) w =
    block_words block ((p * 2 ^ 24 + q * 2 ^ 16 + r * 2 ^ 8 + s) ∷ w)
block_words _ w = w

abbrev nth : ℕ → List ℕ → ℕ
nth n [] = 0
nth zero (x ∷ xs) = x
nth (suc n) (x ∷ xs) = nth n xs

-- The next word of the schedule, from the words before it: `w[i - k]` is the element `k - 1`.
unfoldable pub next_word : List ℕ → ℕ
unfolding rotr
next_word w =
    let s0 = xor3 (rotr (nth 14 w) 7) (rotr (nth 14 w) 18) (nth 14 w / 2 ^ 3) in
    let s1 = xor3 (rotr (nth 1 w) 17) (rotr (nth 1 w) 19) (nth 1 w / 2 ^ 10) in
    (nth 15 w + s0 + nth 6 w + s1) % word_mod

unfoldable pub extend : ℕ → List ℕ → List ℕ
unfolding next_word
extend zero w = w
extend (suc n) w = extend n (next_word w ∷ w)

unfoldable pub round : ℕ → ℕ → Words → Words
unfolding rotr
round constant word s =
    let s1 = xor3 (rotr s.e 6) (rotr s.e 11) (rotr s.e 25) in
    let ch = bit_xor (bit_and s.e s.f) (bit_and (complement s.e) s.g) in
    let temp1 = (s.h + s1 + ch + constant + word) % word_mod in
    let s0 = xor3 (rotr s.a 2) (rotr s.a 13) (rotr s.a 22) in
    let maj = xor3 (bit_and s.a s.b) (bit_and s.a s.c) (bit_and s.b s.c) in
    let temp2 = (s0 + maj) % word_mod in
    record {
      a = (temp1 + temp2) % word_mod;
      b = s.a;
      c = s.b;
      d = s.c;
      e = (s.d + temp1) % word_mod;
      f = s.e;
      g = s.f;
      h = s.g;
    }

unfoldable pub rounds : List ℕ → List ℕ → Words → Words
unfolding round
rounds (k ∷ ks) (w ∷ ws) s = rounds ks ws (round k w s)
rounds _ _ s = s

abbrev reversed : List ℕ → List ℕ → List ℕ
reversed [] acc = acc
reversed (x ∷ xs) acc = reversed xs (x ∷ acc)

unfoldable pub compress : Words → Text → Words
unfolding block_words extend rounds
compress s block =
    let w = reversed (extend 48 (block_words block [])) [] in
    let t = rounds round_constants w s in
    record {
      a = (s.a + t.a) % word_mod;
      b = (s.b + t.b) % word_mod;
      c = (s.c + t.c) % word_mod;
      d = (s.d + t.d) % word_mod;
      e = (s.e + t.e) % word_mod;
      f = (s.f + t.f) % word_mod;
      g = (s.g + t.g) % word_mod;
      h = (s.h + t.h) % word_mod;
    }

-- The loop over whole blocks: the state, and the bytes that are left.
unfoldable pub absorb : ℕ → Words → Text → Words × Text
unfolding compress
absorb zero s input = (s, input)
absorb (suc fuel) s input = elim (leb 64 (length input)) [
  | true ↦ absorb fuel (compress s (take 64 input)) (drop 64 input)
  | false ↦ (s, input)
]

abbrev zeros : ℕ → Text
zeros zero = []
zeros (suc n) = 0 ∷ zeros n

-- A 64-bit number, the highest byte first, before `rest`.
unfoldable pub big_endian : ℕ → ℕ → Text → Text
big_endian zero n rest = rest
big_endian (suc count) n rest = big_endian count (n / 256) (n % 256 ∷ rest)

-- The last one or two blocks: the bytes left, a mark, zeros, and the length in bits.
unfoldable pub tail : Text → ℕ → Text
unfolding big_endian
tail left size =
    let blocks = if ltb 64 (length left + 1 + 8) then 2 else 1 in
    let bit_length = size * 8 % 2 ^ 64 in
    left ++ (0x80 ∷ (zeros (blocks * 64 - (length left + 9)) ++ big_endian 8 bit_length []))

abbrev finish : Words → Text → Words
finish s blocks =
    let once = compress s (take 64 blocks) in
    if ltb 64 (length blocks) then compress once (drop 64 blocks) else once

-- `kHex[n & 0xF]`
unfoldable pub hex_digit : ℕ → ℕ
hex_digit n = let low = n % 16 in if ltb low 10 then b'0' + low else b'a' + (low - 10)

-- `count` digits of a word, the highest first, before `rest`.
unfoldable pub hex_word : ℕ → ℕ → Text → Text
unfolding hex_digit
hex_word zero word rest = rest
hex_word (suc count) word rest = hex_word count (word / 16) (hex_digit word ∷ rest)

unfoldable pub hex_words : List ℕ → Text
unfolding hex_word
hex_words [] = []
hex_words (w ∷ ws) = hex_word 8 w (hex_words ws)

abbrev pub words_of : Words → List ℕ
words_of s = s.a ∷ s.b ∷ s.c ∷ s.d ∷ s.e ∷ s.f ∷ s.g ∷ s.h ∷ []

-- The state after the last block.
unfoldable pub digest : Text → Words
unfolding absorb tail
digest input =
    let (s, left) = absorb (length input) initial_state input in finish s (tail left (length input))

unfoldable pub sha256_hex : Text → Text
unfolding digest hex_words
sha256_hex input = hex_words (words_of (digest input))
