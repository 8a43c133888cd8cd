-- ===== src/Tests/Clients.antt =====
-- Examples for the lists and labels of the clients and for the Linux backends.
use cross_device_manager.Base.{
  ℕ, zero, suc, ◌+◌, ◌-◌, ◌≤◌, ◌<◌, ◌≡◌, refl, Bool, true, false, not, ◌&&◌, Option, none, some,
  List, [], ◌∷◌, ◌++◌, Text, bytes, nat_eq, text_eq, option_eq, ◌==◌, arith, length, is_empty,
  starts_with, to_lower, any_of, All, Elem, inl, inr, sym, subst, if_cases, if◌then◌else◌,
}
use mathlib.Core.Option.{some-injective}
use cross_device_manager.Base.Int.{pos}
use cross_device_manager.Base.Result.{Error, io}
use cross_device_manager.Snapshot.{RestoreOutcome}
use cross_device_manager.DevicePresentation.{short_vendor}
use cross_device_manager.BackendWording.{devmgrd, fwupd, backend_eq, kind_eq}
use cross_device_manager.App.BackendStatus.{observe}
use cross_device_manager.App.BackendStatus.Transitions.{
  starts, kind_of, error_kind, is_some, Reach-observe,
}
use cross_device_manager.App.DeviceList.{DeviceListVm, Facade, fetched, selected_device_id, rebuild}
use cross_device_manager.App.DeviceList.Shown.{count_rows, count_matches, rebuild-count_matches}
use cross_device_manager.App.DeviceList.Selection.{selected_device_id-rebuild}
use cross_device_manager.App.StatusLine.{set_message}
use cross_device_manager.App.BackendStatus.{info}
use cross_device_manager.App.StatusLine.Cleared.{
  System, start, IsCleared, Reach-IsCleared, sets, later,
}
use cross_device_manager.Tui.Selection.{
  snap_to_selectable, any_selectable, snap_to_selectable-any_selectable,
}
use cross_device_manager.Daemon.Containment.{elements}
use cross_device_manager.Daemon.Containment.Below.{Plain}
use cross_device_manager.Linux.CabResolver.{
  RemoteRef, CabFile, FileSystem, candidate_path, size_cap, hard_cap_bytes, find_remote,
  relative_escape, resolve_and_open_cab,
}
use cross_device_manager.Linux.CabResolver.Opened.{
  resolve_and_open_cab-size_cap, relative_escape-below,
}
use cross_device_manager.Tests.Toy.{stick}

bracketed : short_vendor (bytes "Advanced Micro Devices, Inc. [AMD]") ≡ bytes "AMD"
unfolding short_vendor nat_eq
bracketed = refl

two_suffixes : short_vendor (bytes "Chicony Electronics Co., Ltd") ≡ bytes "Chicony Electronics"
unfolding short_vendor nat_eq text_eq
two_suffixes = refl

abbrev outcome : RestoreOutcome
outcome = record {
  snapshot_id = bytes "ab12";
  safety_snapshot_id = bytes "cd34";
  items =
      record {
        subject = bytes "a.conf";
        action = bytes "modprobe-write";
        status = bytes "failed";
        detail = [];
      }
      ∷ [];
}

abbrev down : Option Error
down = some (record { code = io; message = bytes "no reply" })

Reach-observe_example :
    (kind_of ((observe fwupd down cross_device_manager.App.BackendStatus.start).1.entries fwupd)
      ≡ error_kind down)
    × ((observe fwupd down cross_device_manager.App.BackendStatus.start).1.entries devmgrd ≡ none)
    × (is_some (observe fwupd down cross_device_manager.App.BackendStatus.start).0
        ≡ (is_some down && not (none == error_kind down)))
unfolding backend_eq
Reach-observe_example = Reach-observe fwupd devmgrd down starts refl

abbrev vm : DeviceListVm
vm = record {
  filter = bytes "Stick";
  rows = bytes "old" ∷ [];
  row_ids = some (bytes "stick") ∷ [];
  row_status = [];
  row_name = [];
  row_criticality = [];
  snapshot = [];
  haystacks = [];
  facts = none;
  snapshot_valid = false;
  rebuild_queued = false;
  selected = pos 0;
}

abbrev facade : Facade
facade = record { devices = stick [] ∷ []; facts = none; unavailable = false }

rebuild-count_matches_example :
    count_rows (bytes "stick") (rebuild facade vm).row_ids
    ≡ count_matches
        (bytes "stick")
        (to_lower vm.filter)
        (fetched facade vm).snapshot
        (fetched facade vm).haystacks
rebuild-count_matches_example = rebuild-count_matches facade vm (bytes "stick")

selected_device_id-rebuild_example : selected_device_id (rebuild facade vm) ≡ some (bytes "stick")
unfolding selected_device_id count_matches fetched cross_device_manager.Base.has_sub
    cross_device_manager.Base.concat nat_eq text_eq
selected_device_id-rebuild_example =
    selected_device_id-rebuild facade vm (bytes "stick") 0 refl refl

abbrev odd_rows : ℕ → Bool
odd_rows n = n == 1

snap_to_selectable-any_selectable_example :
    (snap_to_selectable (pos 5) 3 (pos 1) odd_rows < 3)
    × (odd_rows (snap_to_selectable (pos 5) 3 (pos 1) odd_rows) ≡ true)
unfolding any_selectable nat_eq
snap_to_selectable-any_selectable_example =
    snap_to_selectable-any_selectable (pos 5) 3 (pos 1) odd_rows refl

abbrev toy_files : FileSystem
toy_files = record {
  Fd = Text;
  weakly_canonical =
      λ p. some (if p == bytes "/var/cabs" then bytes "/var/cabs" else bytes "/var/cabs/a.cab");
  open_file = λ p. some p;
  regular_size = λ fd. some 4096;
}

abbrev remote : RemoteRef
remote = record { id = bytes "lvfs"; kind = bytes "directory"; filename_cache = bytes "/var/cabs" }

abbrev cab : CabFile Text
cab = record { fd = bytes "/tmp/a.cab"; size_bytes = 4096 }

abbrev locations : List Text
locations = bytes "https://example.org/a.cab" ∷ bytes "file:///tmp/a.cab" ∷ []

resolve_and_open_cab-size_cap_example :
    (loc : Text) × Elem loc locations
    × (toy_files.open_file (candidate_path loc (remote ∷ []) (bytes "lvfs")) ≡ some cab.fd)
    × (toy_files.regular_size cab.fd ≡ some cab.size_bytes)
    × (1 ≤ cab.size_bytes)
    × (cab.size_bytes ≤ size_cap 4000)
    × (size_cap 4000 ≤ hard_cap_bytes)
unfolding resolve_and_open_cab nat_eq
resolve_and_open_cab-size_cap_example =
    resolve_and_open_cab-size_cap toy_files locations (remote ∷ []) (bytes "lvfs") 4000 cab refl

cache-Plain :
    (r : RemoteRef) (q : Text)
    → find_remote (remote ∷ []) (bytes "lvfs") ≡ some r
    → toy_files.weakly_canonical r.filename_cache ≡ some q
    → All Plain (elements q)
unfolding elements cross_device_manager.Daemon.Containment.is_absolute starts_with nat_eq text_eq
    is_empty find_remote cross_device_manager.Base.find_if
cache-Plain r q known real =
    let here : remote ≡ r = some-injective _ _ known in
    let found : some (bytes "/var/cabs") ≡ some q =
      subst (λ x. toy_files.weakly_canonical x.filename_cache ≡ some q) (sym here) real in
    subst (λ t. All Plain (elements t)) (some-injective _ q found)
      ((refl, refl, refl), ((refl, refl, refl), ((refl, refl, refl), tt)))

relative_escape-below_example :
    (r : RemoteRef) × (find_remote (remote ∷ []) (bytes "lvfs") ≡ some r)
    × (canon : Text) × (canon_root : Text) × (toy_files.weakly_canonical (bytes "/var/cabs/a.cab")
        ≡ some canon)
    × (toy_files.weakly_canonical r.filename_cache ≡ some canon_root)
    × ((rest : List Text) × (elements canon ≡ elements canon_root ++ rest))
unfolding starts_with nat_eq relative_escape text_eq cross_device_manager.Base.bool_eq
    cross_device_manager.Daemon.Containment.is_absolute
    cross_device_manager.Daemon.AtomicFile.join_path
relative_escape-below_example =
    relative_escape-below toy_files (bytes "a.cab") (bytes "/var/cabs/a.cab") (remote ∷ [])
      (bytes "lvfs") cache-Plain refl refl refl

abbrev shown : System
shown = record start {
  line = set_message 100 4000 (bytes "usb device added: stick") info start.line;
}

Reach-IsCleared_example : IsCleared shown
Reach-IsCleared_example = Reach-IsCleared (
    later cross_device_manager.App.StatusLine.Cleared.starts
      (sets 100 4000 (bytes "usb device added: stick") info refl (omega arith)))
