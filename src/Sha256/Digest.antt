-- ===== src/Sha256/Digest.antt =====
-- What a digest looks like, and that the loop over the blocks ends where the last block begins.
use cross_device_manager.Base.{
  ℕ, zero, suc, ◌+◌, ◌-◌, ◌*◌, ◌/◌, ◌≤◌, ◌<◌, ◌≡◌, refl, ap, inl, inr, true, List, [], ◌∷◌, Text,
  arith, take, drop, length, leb, all_bytes, Bool-cases, nat_eq,
}
use cross_device_manager.Base.Result.{ok}
use cross_device_manager.Validation
use cross_device_manager.Validation.{is_id_byte}
use cross_device_manager.Validation.Charset.{snapshot_id_iff}
use cross_device_manager.Sha256.{
  Words, words_of, digest, absorb, hex_digit, hex_word, hex_words, sha256_hex, compress,
}

hex_digit-is_id_byte : (n : ℕ) → is_id_byte (hex_digit n) ≡ true
unfolding hex_digit is_id_byte
hex_digit-is_id_byte n = ground arith

pub hex_word-digits :
    (count word : ℕ) (rest : Text)
    → all_bytes is_id_byte rest ≡ true
    → (length (hex_word count word rest) ≡ count + length rest)
      × (all_bytes is_id_byte (hex_word count word rest) ≡ true)
unfolding hex_word all_bytes
hex_word-digits zero word rest h = (omega arith, h)
hex_word-digits (suc count) word rest h =
    let more : all_bytes is_id_byte (hex_digit word ∷ rest) ≡ true =
      ground (arith, hex_digit-is_id_byte word) in
    let (size, good) = hex_word-digits count (word / 16) (hex_digit word ∷ rest) more in
    (omega (arith, size), good)

hex_words-digits :
    (ws : List ℕ)
    → (length (hex_words ws) ≡ 8 * length ws) × (all_bytes is_id_byte (hex_words ws) ≡ true)
unfolding hex_words all_bytes
hex_words-digits [] = (refl, refl)
hex_words-digits (w ∷ ws) =
    let (size, good) = hex_words-digits ws in
    let (size', good') = hex_word-digits 8 w (hex_words ws) good in
    (omega (arith, size, size'), good')

-- A digest has 64 lowercase hexadecimal digits.
sha256_hex-digits :
    (input : Text)
    → (length (sha256_hex input) ≡ 64) × (all_bytes is_id_byte (sha256_hex input) ≡ true)
unfolding sha256_hex
sha256_hex-digits input = hex_words-digits (words_of (digest input))

-- Every digest passes the check that the daemon makes of a snapshot id.
pub snapshot_id-sha256_hex : (input : Text) → Validation.snapshot_id (sha256_hex input) ≡ ok tt
snapshot_id-sha256_hex input =
    let (size, good) = sha256_hex-digits input in
    (snapshot_id_iff (sha256_hex input)).1
      ((λ e. omega (arith, size, ap length e)), omega (arith, size), good)

length-drop : (n : ℕ) (s : Text) → length (drop n s) ≡ length s - n
length-drop zero s = omega arith
length-drop (suc n) [] = omega arith
length-drop (suc n) (c ∷ s) = omega (arith, length-drop n s)

absorb-rest :
    (fuel : ℕ) (s : Words) (input : Text)
    → length input ≤ fuel
    → length (absorb fuel s input).1 < 64
unfolding absorb
absorb-rest zero s input h = omega arith
absorb-rest (suc fuel) s input h = elim (Bool-cases (leb 64 (length input))) [
  | inl more ↦
      rw (more, absorb)
        (absorb-rest fuel (compress s (take 64 input)) (drop 64 input)
          (ground (arith, length-drop 64 input)))
  | inr done ↦ rw (done, absorb) (ground arith)
]
