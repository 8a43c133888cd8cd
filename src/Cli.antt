-- ===== src/Cli.antt =====
-- cli/src/cli.cpp: the recovery tool. The channel to the daemon, whose methods may change the daemon's
-- side, is a parameter, as are `localtime_r` with `strftime` and the JSON printer.
pub mod Errors
pub mod Texts
pub mod Commands
pub mod Calls
pub mod Target
pub mod Exit
use cross_device_manager.Base.{ℕ, Text, List, Option}
use cross_device_manager.Base.Result.{Result}
use cross_device_manager.Json.{Library}
use cross_device_manager.Base.Int.{ℤ}
use cross_device_manager.Snapshot.{SnapshotMeta, RestoreOutcome}
use cross_device_manager.SnapshotDiff.{SnapshotDiff}

-- The methods of `IPrivilegedChannel` that the tool calls, on what the channel reaches.
pub record Channel (W : Type 0) : Type 0 where
  pub snapshot_list : W → Result (List SnapshotMeta) × W
  pub snapshot_create : Text → W → Result Text × W
  pub snapshot_diff : Text → Text → W → Result SnapshotDiff × W
  pub snapshot_restore : Text → W → Result RestoreOutcome × W
  pub snapshot_delete : Text → W → Result (Unit {0}) × W

-- `none` if `localtime_r` or `strftime` fails; the JSON printer is the library's.
pub record Printers : Type 0 where
  pub local_time : ℤ → Option Text
  pub json : Library

-- What the channel reaches, and the two streams.
pub record Console (W : Type 0) : Type 0 where
  pub world : W
  pub out : Text
  pub log : Text

-- A step gives a value to go on with, or the exit code.
pub data Step (A : Type 0) : Type 0 where
  next : A → Step A
  exit : ℕ → Step A

abbrev pub Command : Type 0 → Type 0 → Type 0
Command W A = Console W → Step A × Console W

module _ {W : Type 0} where
  abbrev pub after : {A B : Type 0} → Step A × Console W → (A → Command W B) → Step B × Console W
  after (next a, c) f = f a c
  after (exit code, c) f = (exit code, c)

  infixl 5 ◌>>=◌ ◌>>◌
  abbrev pub ◌>>=◌ : {A B : Type 0} → Command W A → (A → Command W B) → Command W B
  ◌>>=◌ m f c = after (m c) f

  abbrev pub ◌>>◌ : {A B : Type 0} → Command W A → Command W B → Command W B
  ◌>>◌ m k c = after (m c) (λ _. k)

  abbrev pub pure : {A : Type 0} → A → Command W A
  pure a c = (next a, c)
