-- ===== src/Lib.antt =====
-- devmgr manages devices, drivers and state snapshots on Linux: a privileged daemon (devmgrd) with a
-- D-Bus interface, and graphical, terminal and command-line clients. This library models the daemon's
-- core, the parts of core/ that it stands on, the threads and models that the clients share, and the
-- command line, and proves what makes them safe to run.
--
-- The parts, bottom up.
--   Models, Snapshot: the data of core/include/devmgr/core/models.hpp and snapshot_models.hpp.
--   Keys: core/src/device_key.cpp, how a stored key finds its device again.
--   Guard: core/src/critical_device_guard.cpp, which disables and unloads are refused.
--   Criticality: core/src/criticality.cpp, the tiers that the clients show.
--   Validation: daemon/include/devmgr/daemon/request_validation.hpp.
--   Json: the values of nlohmann::json; its parser and printer are a parameter (`Library`).
--   Daemon.AtomicFile, Daemon.Disk: daemon/src/atomic_file.cpp over a directory that is an association
--     list; the outcome of each system call is an argument (`Faults`), so a theorem speaks of them all.
--   Daemon.EntryJson, Daemon.StateStore: daemon/src/entry_json.cpp and state_store.cpp.
--   Daemon.Platform: the interfaces of core/include/devmgr/pal as a record over a type of machine
--     states; daemon/src/sysfs_device_probe.cpp over it.
--   Daemon.Enforcement: daemon/src/enforcement_service.cpp.
--   SnapshotDiff, SnapshotHistory, SnapshotJson: core/src/snapshot_diff.cpp, snapshot_history.cpp and
--     snapshot_json.cpp.
--   Sha256: core/src/sha256.cpp, the content ids of the snapshots.
--   Daemon.SnapshotFile, Daemon.SnapshotOrder, Daemon.JsonStore: daemon/src/snapshot_store.cpp, its
--     documents, its order and pruning, and its methods; an implementation of the interface that the
--     snapshot service takes.
--   Daemon.Snapshots: daemon/src/snapshot_service.cpp over the interface of the snapshot store.
--   Daemon.Containment, Daemon.Requests: daemon/src/request_processor.cpp, with the parts of
--     std::filesystem::path that its containment check uses.
--   SnapshotPresentation, DevicePresentation, BackendWording: core/src/snapshot_presentation.cpp,
--     device_presentation.cpp with models.cpp, and backend_wording.cpp.
--   Runtime.DelayedScheduler, Runtime.EventBus: core/src/delayed_scheduler.cpp and
--     core/include/devmgr/runtime/event_bus.hpp, each critical section as one function.
--   App.DeviceService, App.HotplugService, App.DeviceList, App.DisabledOverlay, App.StatusLine,
--     App.BackendStatus: the files of app/src of these names.
--   Cli: cli/src/cli.cpp over the channel to the daemon, which is a parameter.
--   Tui.Selection: tui/src/selection.cpp.
--   Linux.CabResolver, Linux.FwupdContract, Linux.CriticalityProber: platform/linux/src/cab_resolver.cpp,
--     fwupd_contract.cpp and linux_criticality_prober.cpp, which gives the guard its facts.
--
-- How they interact. A request is validated, resolved below the root of sysfs, judged by the guard,
-- authorized, snapshotted and only then acted on; a disable leaves an entry in the state store, which
-- the enforcement re-applies at the next start and on hotplug. `World` holds the four states that this
-- touches: the machine, the state store, the snapshot store and the modprobe directory. A method is a
-- function from the world to a result and the world it leaves (`Op`); an error keeps the state that
-- was reached. The mutexes of the daemon make each method one step, so its threads are left out, and so are log
-- lines. In the clients a hotplug event is debounced on the timer, changes the model of the devices and
-- is published on the bus; there the threads are step relations (the modules Threads and
-- App.StatusLine.Cleared), whose steps are the critical sections in any order.
--
-- Text is a list of bytes, a number is a native one; `std::int64_t` times are integers of `ℤ`. Five
-- loops have no structural bound and run on fuel: the search for a free quarantine name, on one more
-- than the number of files; the walk from HEAD and the depth of a snapshot, on one more than the
-- number of snapshots; and the blocks of a hash, on the length of the input. Each of these is enough, as
-- the loop leaves one item less to look at in each round. The fifth goes through the slaves of a block
-- device: its fuel is an argument, and is enough if it is above a measure that goes down to the slaves.
--
-- Not modelled: the D-Bus and polkit adaptors, the graphical interface and the rendering of the
-- terminal one, which are glue; the backends of platform/linux other than the three named, which are
-- parameters of the daemon; and, so far, the view models of the modules, the updates and the snapshots,
-- the facade of the clients and the task scheduler.
pub mod Base
pub mod Models
pub mod Keys
pub mod Guard
pub mod Criticality
pub mod Validation
pub mod Snapshot
pub mod Sha256
pub mod DevicePresentation
pub mod BackendWording
pub mod SnapshotDiff
pub mod SnapshotPresentation
pub mod SnapshotHistory
pub mod SnapshotJson
pub mod Json
pub mod Daemon
pub mod Runtime
pub mod App
pub mod Cli
pub mod Tui
pub mod Linux
pub mod Tests
