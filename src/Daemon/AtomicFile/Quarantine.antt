-- ===== src/Daemon/AtomicFile/Quarantine.antt =====
-- Evidence is kept: a corrupt file is moved to a name that was free, and the search for one ends.
use mathlib.Core.List.{append_cancel_left}
use mathlib.Core.Option.{some-injective}
use cross_device_manager.Base.{
  ℕ, zero, suc, ◌+◌, ◌≤◌, ◌<◌, ◌≡◌, ◌≢◌, refl, ap, subst, ◌∙◌, ◌⊎◌, inl, inr, true, false, none,
  some, [], ◌∷◌, ◌++◌, Text, arith, bytes, text_eq, length, length-append, Option-cases, Bool-cases,
  sym,
}
use cross_device_manager.Base.Int.{decimal}
use cross_device_manager.Base.Int.Decimal.{decimal-injective}
use cross_device_manager.Base.Dict.{lookup, erase, contains, lookup-erase}
use cross_device_manager.Daemon.AtomicFile.{Files, numbered, free_name, quarantine_file, rename}
use cross_device_manager.Daemon.AtomicFile.Atomicity.{lookup-rename}

length-erase-le : (k : Text) (d : Files) → length (erase k d) ≤ length d
unfolding erase
length-erase-le k [] = omega arith
length-erase-le k ((j, v) ∷ d) = ground (arith, length-erase-le k d)

length-erase-lt : (k : Text) (d : Files) → contains k d ≡ true → length (erase k d) < length d
unfolding erase contains lookup
length-erase-lt k [] h = absurd (cc)
length-erase-lt k ((j, v) ∷ d) h = ground (arith, length-erase-lt k d, length-erase-le k d)

contains-erase : (j k : Text) (d : Files) → j ≢ k → contains j (erase k d) ≡ contains j d
unfolding contains
contains-erase j k d h = ground (arith, lookup-erase j k d)

numbered-injective : (base : Text) (m n : ℕ) → numbered base m ≡ numbered base n → m ≡ n
unfolding numbered
numbered-injective base zero zero e = refl
numbered-injective base zero (suc n) e =
    absurd (omega (arith, ap length e, length-append base (bytes "." ++ decimal (suc n))))
numbered-injective base (suc m) zero e =
    absurd (omega (arith, ap length e, length-append base (bytes "." ++ decimal (suc m))))
numbered-injective base (suc m) (suc n) e = decimal-injective (suc m) (suc n) (
    append_cancel_left (bytes ".") (decimal (suc m)) (decimal (suc n))
      (append_cancel_left base (bytes "." ++ decimal (suc m)) (bytes "." ++ decimal (suc n)) e))

-- As many names as there are rounds, all taken, are as many files at least.
taken_le :
    (base : Text) (k n : ℕ) (d : Files)
    → ((i : ℕ) → i < k → contains (numbered base (n + i)) d ≡ true)
    → k ≤ length d
taken_le base zero n d h = omega arith
taken_le base (suc k) n d h =
    let here = length-erase-lt (numbered base (n + 0)) d (h 0 (omega arith)) in
    let rest = taken_le base k (suc n) (erase (numbered base (n + 0)) d) (λ i lt.
      contains-erase (numbered base (suc n + i)) (numbered base (n + 0)) d
        (λ e. omega (arith, numbered-injective base (suc n + i) (n + 0) e))
      ∙ subst (λ (m : ℕ). contains (numbered base m) d ≡ true) (omega arith)
          (h (suc i) (omega arith))) in
    omega arith

free_name-none :
    (fuel : ℕ) (base : Text) (n : ℕ) (d : Files)
    → free_name fuel base n d ≡ none
    → (i : ℕ) → i < fuel
    → contains (numbered base (n + i)) d ≡ true
unfolding free_name
free_name-none zero base n d e i h = elim h [ ]
free_name-none (suc fuel) base n d e zero h =
    let shift : n ≡ n + 0 = omega arith in
    subst (λ (m : ℕ). contains (numbered base m) d ≡ true) shift (ground arith)
free_name-none (suc fuel) base n d e (suc i) h =
    let shift : suc n + i ≡ n + suc i = omega arith in
    subst (λ (m : ℕ). contains (numbered base m) d ≡ true) shift
      (free_name-none fuel base (suc n) d (ground arith) i (omega arith))

free_name_free :
    (fuel : ℕ) (base : Text) (n : ℕ) (d : Files) (bad : Text)
    → free_name fuel base n d ≡ some bad
    → contains bad d ≡ false
unfolding free_name
free_name_free zero base n d bad e = absurd (cc)
free_name_free (suc fuel) base n d bad e = ground (arith, free_name_free fuel base (suc n) d bad)

free_name-numbered :
    (fuel : ℕ) (base : Text) (n : ℕ) (d : Files) (bad : Text)
    → free_name fuel base n d ≡ some bad
    → (i : ℕ) × (bad ≡ numbered base i)
unfolding free_name
free_name-numbered zero base n d bad e = absurd (cc)
free_name-numbered (suc fuel) base n d bad e = elim (Bool-cases (contains (numbered base n) d)) [
  | inl t ↦ free_name-numbered fuel base (suc n) d bad (rw (t, free_name) at e)
  | inr f ↦ (n, sym (some-injective _ _ (rw (f, free_name) at e)))
]

free_name_total :
    (base : Text) (d : Files) → (bad : Text) × (free_name (suc (length d)) base 0 d ≡ some bad)
free_name_total base d = elim (Option-cases (free_name (suc (length d)) base 0 d)) [
  | inr found ↦ found
  | inl lost ↦ absurd (
      omega
        (arith, taken_le base (suc (length d)) 0 d (free_name-none (suc (length d)) base 0 d lost)))
]

-- The names that a quarantine tries.
abbrev pub bad_name : Text → ℕ → ℕ → Text
bad_name name now n = numbered (name ++ (bytes ".bad-" ++ decimal now)) n

-- A quarantine of a file that is there, whose rename does not fail, gives a name that was free, under
-- which the content now stands; the old name is gone, and every other name holds what it held.
pub quarantine_file_total :
    (now : ℕ) (name content j : Text) (files : Files)
    → lookup name files ≡ some content
    → (bad : Text) × (after : Files) × (quarantine_file none now name files ≡ some (bad, after))
      × ((n : ℕ) × (bad ≡ bad_name name now n))
      × (contains bad files ≡ false)
      × (lookup bad after ≡ some content)
      × (lookup name after ≡ none)
      × ((j ≡ bad) ⊎ ((j ≡ name) ⊎ (lookup j after ≡ lookup j files)))
unfolding quarantine_file contains
quarantine_file_total now name content j files h =
    let base = name ++ (bytes ".bad-" ++ decimal now) in
    let (bad, e) = free_name_total base files in
    let moved = λ (k : Text). lookup-rename name bad content files k h in
    let free = free_name_free (suc (length files)) base 0 files bad e in
    (
      bad,
      rename name bad files,
      rw (e, quarantine_file) refl,
      free_name-numbered (suc (length files)) base 0 files bad e,
      free,
      ground (arith, moved bad),
      ground (arith, moved name, free),
      ground (arith, moved j),
    )

-- Where the rename fails, the files stay as they are.
pub quarantine_file_failed :
    (now : ℕ) (message name : Text) (files : Files)
    → (bad : Text) × (quarantine_file (some message) now name files ≡ some (bad, files))
unfolding quarantine_file
quarantine_file_failed now message name files =
    let (bad, e) = free_name_total (name ++ (bytes ".bad-" ++ decimal now)) files in
    (bad, rw (e, quarantine_file) refl)
