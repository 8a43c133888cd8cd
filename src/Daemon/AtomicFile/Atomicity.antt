-- ===== src/Daemon/AtomicFile/Atomicity.antt =====
-- A write takes effect whole or not at all, and touches nothing else.
use cross_device_manager.Base.{
  ◌≡◌, ◌≢◌, refl, ◌⊎◌, inl, inr, none, some, Text, arith, Option-cases, Bool-cases, ◌==◌, text_eq,
  if◌then◌else◌, [], ◌∷◌,
}
use cross_device_manager.Base.Result.{Result, ok, err, io}
use cross_device_manager.Base.Dict.{lookup, insert, erase, lookup-insert, lookup-erase}
use cross_device_manager.Daemon.AtomicFile.{
  Files, Faults, tmp_name, rename, publish, sync_and_publish, atomic_write_file,
}

pub tmp_name-ne : (name : Text) → tmp_name name ≢ name
unfolding tmp_name
tmp_name-ne [] e = cc
tmp_name-ne (c ∷ s) e = tmp_name-ne s (cc)

pub lookup-rename :
    (from to content : Text) (files : Files) (j : Text)
    → lookup from files ≡ some content
    → lookup j (rename from to files)
      ≡ (if j == to then some content else if j == from then none else lookup j files)
unfolding rename
lookup-rename from to content files j h =
    rw (h, rename)
      (rw (lookup-insert j to content (erase from files)) (rw (lookup-erase j from files)))

-- What the write must leave under a name `j`: the new content if it is the written one, and else
-- what was there.
abbrev pub Written : Text → Files → Text → Text → Files → Type 0
Written j files name content after =
    lookup j after ≡ (if j == name then some content else lookup j files)

abbrev pub Unwritten : Text → Files → Files → Type 0
Unwritten j files after = lookup j after ≡ lookup j files

-- Success leaves the new content, an error of code `Io` the old or the new one.
abbrev pub Atomic : Text → Files → Text → Text → Result (Unit {0}) × Files → Type 0
Atomic j files name content (ok _, after) = Written j files name content after
Atomic j files name content (err e, after) =
    (e.code ≡ io) × (Unwritten j files after ⊎ Written j files name content after)

module _ (j : Text) (name : Text) (h : j ≢ tmp_name name) (files : Files) where
  Unwritten-erase :
      (before : Files) → Unwritten j files before → Unwritten j files (erase (tmp_name name) before)
  Unwritten-erase before u = ground (arith, lookup-erase j (tmp_name name) before)

  Unwritten-insert : (v : Text) → Unwritten j files (insert (tmp_name name) v files)
  Unwritten-insert v = ground (arith, lookup-insert j (tmp_name name) v files)

  module _ (content : Text) (before : Files) (u : Unwritten j files before)
      (e : lookup (tmp_name name) before ≡ some content) where
    Written-rename : Written j files name content (rename (tmp_name name) name before)
    Written-rename = ground (arith, lookup-rename (tmp_name name) name content before j e)

    publish-Atomic :
        (faults : Faults) (dir : Text)
        → Atomic j files name content (publish faults dir name before)
    unfolding publish
    publish-Atomic faults dir = elim (Option-cases faults.rename_error) [
      | inr (m, f) ↦ rw (f, publish) (refl, inl (Unwritten-erase before u))
      | inl f ↦ elim (Option-cases faults.dir_sync) [
        | inr (m, g) ↦ rw (f, publish) (rw (g, publish) (refl, inr Written-rename))
        | inl g ↦ rw (f, publish) (rw (g, publish) Written-rename)
      ]
    ]

    sync-Atomic :
        (faults : Faults) (dir : Text)
        → Atomic j files name content (sync_and_publish faults dir name before)
    unfolding sync_and_publish
    sync-Atomic faults dir = elim (Option-cases faults.file_sync) [
      | inr (m, f) ↦ rw (f, sync_and_publish) (refl, inl (Unwritten-erase before u))
      | inl f ↦ rw (f, sync_and_publish) (publish-Atomic faults dir)
    ]

-- Whatever the system calls answer, a write that reports success has put the content under the name
-- and kept what the other names hold; one that fails has code `Io`, and has put all of the content
-- there or none. Only the temporary name is not spoken of.
pub atomic_write_file-Atomic :
    (j : Text) (faults : Faults) (dir name content : Text) (files : Files)
    → j ≢ tmp_name name
    → Atomic j files name content (atomic_write_file faults dir name content files)
unfolding atomic_write_file
atomic_write_file-Atomic j faults dir name content files h = elim (Bool-cases faults.cannot_open) [
  | inl f ↦ rw f (refl, inl refl)
  | inr f ↦ elim (Option-cases faults.short_write) [
    | inr (m, g) ↦
        rw (f, g) (refl, inl (Unwritten-erase j name h files _ (Unwritten-insert j name h files m)))
    | inl g ↦
        rw (f, g)
          (sync-Atomic j name h files content _ (Unwritten-insert j name h files content)
            (ground (arith, lookup-insert (tmp_name name) (tmp_name name) content files)) faults
            dir)
  ]
]
