-- ===== src/Linux/CriticalityProber.antt =====
-- platform/linux/src/linux_criticality_prober.cpp: the facts of the guard, from the table of mounts and
-- from sysfs. The file system is a parameter.
pub mod Leaves
pub mod Sorted
pub mod Guarded
use cross_device_manager.Base.{
  ℕ, zero, suc, ◌+◌, ◌-◌, ◌*◌, ◌/◌, ◌%◌, ◌^◌, Bool, true, false, not, ◌&&◌, ◌||◌, Option, none,
  some, List, [], ◌∷◌, ◌++◌, Text, bytes, text_eq, nat_eq, ◌==◌, ltb, leb, is_empty, starts_with,
  text_lt, length, drop, if◌then◌else◌,
}
use mathlib.Core.List.{reverse}
use cross_device_manager.Base.Result.{Result, ok, make_error, io}
use cross_device_manager.Models.{CriticalityFacts}
use cross_device_manager.Daemon.AtomicFile.{join_path}
use cross_device_manager.Keys.{last_segment}
use cross_device_manager.SnapshotDiff.{words, lines}

-- What the iteration over a directory gives.
pub data Listing : Type 0 where
  absent unreadable : Listing
  named : List Text → Listing

-- `fs::canonical`, the directories, the first line of a file (empty if it does not open), and the
-- whole of one.
pub record SystemFiles : Type 0 where
  pub canonical : Text → Option Text
  pub listing : Text → Listing
  pub first_line : Text → Text
  pub contents : Text → Option Text

-- The value of the digits that a text starts with, if there is one.
unfoldable pub hex_run : Option ℕ → Text → Option ℕ
hex_run read [] = read
hex_run read (c ∷ s) =
    let digit : ℕ → Option ℕ = λ d. some ((elim read [ none ↦ 0 | some v ↦ v ]) * 16 + d) in
    let decimal = hex_run (digit (c - b'0')) s in
    let lower = hex_run (digit (c - b'a' + 10)) s in
    let upper = hex_run (digit (c - b'A' + 10)) s in
    if leb b'0' c && leb c b'9'
    then decimal
    else if leb b'a' c && leb c b'f'
    then lower
    else if leb b'A' c && leb c b'F'
    then upper
    else read

-- The unsigned number of 64 bits that `std::hex` reads: what is too large gives the largest.
unfoldable pub read_hex : Text → ℕ
unfolding starts_with hex_run
read_hex word =
    let minus = starts_with word (bytes "-") in
    let body = if minus || starts_with word (bytes "+") then drop 1 word else word in
    let digits =
      if starts_with body (bytes "0x") || starts_with body (bytes "0X")
      then drop 2 body
      else body in
    elim (hex_run none digits) [
      | none ↦ 0
      | some v ↦ if leb (2 ^ 64) v then 2 ^ 64 - 1 else if minus then (2 ^ 64 - v) % 2 ^ 64 else v
    ]

-- The word at a place.
abbrev word_at : List Text → ℕ → Option Text
word_at [] n = none
word_at (w ∷ ws) zero = some w
word_at (w ∷ ws) (suc n) = word_at ws n

unfoldable pub bit_set : Text → ℕ → Bool
unfolding words read_hex
bit_set hex_words bit = elim (word_at (reverse (words [] hex_words)) (bit / 64)) [
  | none ↦ false
  | some word ↦ (read_hex word / 2 ^ (bit % 64)) % 2 == 1
]

-- The loop over so many codes, from one on.
unfoldable pub bits_set : Text → ℕ → ℕ → Bool
unfolding bit_set
bits_set key_bits code zero = true
bits_set key_bits code (suc n) = bit_set key_bits code && bits_set key_bits (suc code) n

-- The top row of letters, from `KEY_Q` to `KEY_P`.
unfoldable pub is_keyboard : Text → Bool
unfolding is_empty bits_set
is_keyboard key_bits = not (is_empty key_bits) && bits_set key_bits 16 10

unfoldable pub is_pointer : Text → Bool
unfolding is_empty bit_set
is_pointer rel_bits = not (is_empty rel_bits) && (bit_set rel_bits 0 && bit_set rel_bits 1)

-- The paths that a loop over names appends.
unfoldable pub append_all : (Text → List Text) → List Text → List Text
append_all paths_of [] = []
append_all paths_of (name ∷ names) = paths_of name ++ append_all paths_of names

abbrev pub slaves_of : Text → Text → Text
slaves_of class_block name = join_path (join_path class_block name) (bytes "slaves")

-- `std::ranges::sort`, then `unique` with `erase`.
unfoldable pub insert_unique : Text → List Text → List Text
unfolding text_lt
insert_unique v [] = v ∷ []
insert_unique v (x ∷ xs) =
    let later = insert_unique v xs in
    if v == x then x ∷ xs else if text_lt v x then v ∷ x ∷ xs else x ∷ later

unfoldable pub sort_unique : List Text → List Text
unfolding insert_unique
sort_unique [] = []
sort_unique (v ∷ vs) = insert_unique v (sort_unique vs)

-- The source and the target of a line.
unfoldable pub mount_of : Text → Option (Text × Text)
unfolding words
mount_of line = elim (words [] line) [ source ∷ target ∷ rest ↦ some (source, target) | _ ↦ none ]

module _ (F : SystemFiles) where
  abbrev own_path : Text → Text → List Text
  own_path class_block name = elim (F.canonical (join_path class_block name)) [
    | none ↦ []
    | some real ↦ real ∷ []
  ]

  -- On fuel: the slaves of a block device have slaves.
  unfoldable pub expand_block : ℕ → Text → Text → List Text
  unfolding append_all join_path
  expand_block zero class_block name = []
  expand_block (suc fuel) class_block name = elim (F.listing (slaves_of class_block name)) [
    | absent ↦ own_path class_block name
    | unreadable ↦ []
    | named [] ↦ own_path class_block name
    | named (slave ∷ slaves) ↦ append_all (expand_block fuel class_block) (slave ∷ slaves)
  ]

  -- What the source of a mount is, in the end.
  abbrev pub backing : ℕ → Text → Text → List Text
  backing fuel class_block source =
      if starts_with source (bytes "/")
      then elim (F.canonical source) [
        | none ↦ []
        | some node ↦ expand_block fuel class_block (last_segment node)
      ]
      else []

  -- One line of the table.
  unfoldable pub collect_mount :
      ℕ → Text → Option (Text × Text) → CriticalityFacts → CriticalityFacts
  unfolding expand_block starts_with last_segment
  collect_mount fuel class_block none facts = facts
  collect_mount fuel class_block (some (source, target)) facts =
      let paths = backing fuel class_block source in
      if target == bytes "/"
      then record facts { root_backing_paths = facts.root_backing_paths ++ paths }
      else if (target == bytes "/boot") || (target == bytes "/boot/efi")
      then record facts { boot_backing_paths = facts.boot_backing_paths ++ paths }
      else facts

  unfoldable pub collect_storage_facts : ℕ → Text → List Text → CriticalityFacts → CriticalityFacts
  unfolding mount_of collect_mount
  collect_storage_facts fuel class_block [] facts = facts
  collect_storage_facts fuel class_block (line ∷ rest) facts =
      collect_storage_facts fuel class_block rest
        (collect_mount fuel class_block (mount_of line) facts)

  -- One entry of the directory of inputs.
  unfoldable pub collect_input : Text → Text → CriticalityFacts → CriticalityFacts
  unfolding starts_with is_keyboard is_pointer join_path
  collect_input class_input name facts =
      if not (starts_with name (bytes "input"))
      then facts
      else elim (F.canonical (join_path class_input name)) [
        | none ↦ facts
        | some real ↦
            let key_bits = F.first_line (join_path real (bytes "capabilities/key")) in
            let rel_bits = F.first_line (join_path real (bytes "capabilities/rel")) in
            record facts {
              keyboard_paths =
                  if is_keyboard key_bits
                  then facts.keyboard_paths ++ real ∷ []
                  else facts.keyboard_paths;
              pointer_paths =
                  if is_pointer rel_bits
                  then facts.pointer_paths ++ real ∷ []
                  else facts.pointer_paths;
            }
      ]

  abbrev collect_inputs : Text → List Text → CriticalityFacts → CriticalityFacts
  collect_inputs class_input [] facts = facts
  collect_inputs class_input (name ∷ names) facts =
      collect_inputs class_input names (collect_input class_input name facts)

  unfoldable pub collect_input_facts : Text → CriticalityFacts → CriticalityFacts
  unfolding collect_input
  collect_input_facts class_input facts = elim (F.listing class_input) [
    | named names ↦ collect_inputs class_input names facts
    | _ ↦ facts
  ]

  abbrev pub no_facts : CriticalityFacts
  no_facts = record {
    root_backing_paths = [];
    boot_backing_paths = [];
    keyboard_paths = [];
    pointer_paths = [];
  }

  abbrev pub sorted_facts : CriticalityFacts → CriticalityFacts
  sorted_facts facts = record {
    root_backing_paths = sort_unique facts.root_backing_paths;
    boot_backing_paths = sort_unique facts.boot_backing_paths;
    keyboard_paths = sort_unique facts.keyboard_paths;
    pointer_paths = sort_unique facts.pointer_paths;
  }

  unfoldable pub probe : ℕ → Text → Text → Result CriticalityFacts
  unfolding sort_unique collect_storage_facts collect_input_facts lines join_path
  probe fuel sysfs_root mounts_path = elim (F.contents mounts_path) [
    | none ↦ make_error io (bytes "cannot read " ++ mounts_path)
    | some mounts ↦ ok (
        sorted_facts (
          collect_input_facts (join_path sysfs_root (bytes "class/input")) (
            collect_storage_facts fuel (join_path sysfs_root (bytes "class/block"))
              (lines [] mounts) no_facts)))
  ]
