-- ===== src/Daemon/Requests/Devices.antt =====
-- What a disable and an enable leave in the store.
use cross_device_manager.Base.{
  bytes, refl, [], ◌≡◌, inl, inr, false, Option, none, some, Text, arith, ◌==◌, text_eq, eq_refl,
  if◌then◌else◌, find_if,
}
use cross_device_manager.Base.Result.{ok, Result-cases}
use cross_device_manager.Base.Dict.{lookup}
use cross_device_manager.Models.{DeviceKey, DisabledDeviceEntry, key_eq}
use cross_device_manager.Daemon.StateStore.Persistence.{upsert_persists}
use cross_device_manager.Daemon.StateStore
use cross_device_manager.Daemon.StateStore.{
  StateStore, state_file, state_document, erase_key, upsert_entry,
}
use cross_device_manager.Daemon.StateStore.Entries.{find_key, find_key-methods}
use cross_device_manager.Daemon.World.{Env, World}
use cross_device_manager.Daemon.Requests.{
  apply_disable, apply_enable, key_to_store, disabled_entry, is_entry_of,
}

module _ (E : Env) (w : World E) (canonical : Text) where
  -- A disable that succeeds has told the controller, which may answer with the driver that it unbound.
  -- Under the device's key it has left an entry with that key and the path, not suspended, of the time
  -- after the call, and with the mechanism `unbind` and that driver, or else `authorized` and none. The
  -- state file on disk is the list in memory.
  pub apply_disable_persists :
      (apply_disable E canonical w).0 ≡ ok tt
      → let after = (apply_disable E canonical w).1 in
        (applied : Option Text) × (entry : DisabledDeviceEntry) × (E.platform.set_enabled canonical
            false [] w.machine
          ≡ (ok applied, after.machine))
        × (find_key (key_to_store E canonical w.machine) after.state.entries ≡ some entry)
        × (entry.key ≡ key_to_store E canonical w.machine)
        × (entry.last_sysfs_path ≡ canonical)
        × (entry.guard_suspended ≡ false)
        × (entry.mechanism
            ≡ (elim applied [ none ↦ bytes "authorized" | some driver ↦ bytes "unbind" ]))
        × (entry.last_driver ≡ (elim applied [ none ↦ [] | some driver ↦ driver ]))
        × (entry.disabled_at_utc ≡ E.platform.now_utc after.machine)
        × (lookup state_file after.state.disk.files
            ≡ some (E.json.dump_pretty (state_document after.state.entries)))
  unfolding apply_disable disabled_entry
  apply_disable_persists h =
      let controlled = E.platform.set_enabled canonical false [] w.machine in
      let key = key_to_store E canonical w.machine in
      elim (Result-cases controlled.0) [
        | inr (x, e) ↦ absurd (ground arith)
        | inl (applied, e) ↦
            let entry = disabled_entry E key canonical applied controlled.1 in
            let stored : (StateStore.upsert E.json entry w.state).0 ≡ ok tt = ground arith in
            (
              applied,
              entry,
              ground arith,
              ground (arith, (find_key-methods E.json entry key key false w.state).0, eq_refl key),
              refl,
              refl,
              refl,
              ground arith,
              ground arith,
              ground arith,
              ground (arith, upsert_persists E.json entry w.state stored),
            )
      ]

  -- An enable takes the first entry of the device, by path or by key, out of the store before it asks
  -- the controller: the entry is gone however the controller answers. The entries under other keys
  -- stay, also one of the same device.
  pub find_key-apply_enable :
      (e : DisabledDeviceEntry) (k : DeviceKey)
      → find_if (is_entry_of E canonical w.machine) w.state.entries ≡ some e
      → find_key k (apply_enable E canonical w).1.state.entries
        ≡ (if e.key == k then none else find_key k w.state.entries)
  unfolding apply_enable
  find_key-apply_enable e k found =
      ground (arith, (find_key-methods E.json e e.key k false w.state).1)
