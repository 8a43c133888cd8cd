-- ===== src/Tests/Cli.antt =====
-- Examples for the recovery tool, with a daemon that lists two snapshots and keeps a log of its changes.
use cross_device_manager.Base.{
  ℕ, ◌≤◌, ◌≡◌, refl, Bool, true, false, Option, none, some, List, [], ◌∷◌, ◌++◌, Text, bytes,
  text_eq, ◌==◌, is_empty, any_of,
}
use cross_device_manager.Base.Int.{pos}
use cross_device_manager.Base.Result.{ok}
use cross_device_manager.Snapshot.{SnapshotMeta, manual, healthy}
use cross_device_manager.Cli.{Channel, Printers, Console, exit}
use cross_device_manager.Cli.Texts.{matches_of}
use cross_device_manager.Cli.Commands.{do_delete, restore_of, run}
use cross_device_manager.Cli.Exit.{Ends, run-Ends}
use cross_device_manager.Cli.Calls.{mutates, run_read_only}
use cross_device_manager.Cli.Target.{target, called, mutation-target}
use cross_device_manager.Tests.Codec.{toy_json}

abbrev meta : Text → SnapshotMeta
meta id = record {
  id = id;
  parent = none;
  created_at_utc = pos 0;
  trigger = manual;
  reason = record { verb = []; subject = bytes "before the update" };
  health = healthy;
  entry_count = 0;
  modprobe_file_count = 0;
}

abbrev metas : List SnapshotMeta
metas = meta (bytes "ab12") ∷ meta (bytes "ac34") ∷ []

abbrev toy_channel : Channel (List Text)
toy_channel = record {
  snapshot_list = λ w. (ok metas, w);
  snapshot_create = λ label w. (ok (bytes "ef56"), bytes "create" ∷ w);
  snapshot_diff = λ a b w. (ok (record { base_id = a; target_id = b; entries = [] }), w);
  snapshot_restore = λ id w. (
    ok (record { snapshot_id = id; safety_snapshot_id = bytes "ef56"; items = [] }),
    bytes "restore" ∷ id ∷ w,
  );
  snapshot_delete = λ id w. (ok tt, bytes "delete" ∷ id ∷ w);
}

abbrev printers : Printers
printers = record { local_time = λ seconds. none; json = toy_json }

abbrev quiet : Console (List Text)
quiet = record { world = []; out = []; log = [] }

abbrev preview : List Text
preview = bytes "snapshot" ∷ bytes "restore" ∷ bytes "ab" ∷ bytes "--preview" ∷ []

run-Ends_example : Ends quiet (run toy_channel printers preview quiet)
run-Ends_example = run-Ends toy_channel printers preview quiet

run_read_only_example : (run toy_channel printers preview quiet).1.world ≡ []
unfolding mutates text_eq
run_read_only_example =
    run_read_only toy_channel printers (λ w. w ≡ []) (λ w i. i) (λ a b w i. i) preview quiet refl
      refl

mutation-target_example :
    ((do_delete toy_channel printers (bytes "ab" ∷ []) quiet).1.world
      ≡ called toy_channel printers toy_channel.snapshot_delete
          (target (bytes "ab") (toy_channel.snapshot_list []))
          [])
    × ((restore_of toy_channel printers (false, bytes "ab" ∷ []) quiet).1.world
        ≡ called toy_channel printers toy_channel.snapshot_restore
            (target (bytes "ab") (toy_channel.snapshot_list []))
            [])
unfolding is_empty
mutation-target_example = mutation-target toy_channel printers (bytes "ab") quiet refl

one_match : target (bytes "ab") (toy_channel.snapshot_list []) ≡ some (bytes "ab12")
unfolding matches_of cross_device_manager.Base.nat_eq
one_match = refl

ambiguous :
    (run toy_channel printers (bytes "snapshot" ∷ bytes "delete" ∷ bytes "a" ∷ []) quiet).0 ≡ exit 2
unfolding run text_eq cross_device_manager.Base.nat_eq
ambiguous = refl
