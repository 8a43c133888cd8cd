-- ===== src/Linux/CabResolver/Opened.antt =====
-- What is known of a firmware file that was opened.
use cross_device_manager.Base.{
  ℕ, ◌≤◌, ◌≡◌, refl, sym, ap, ◌∙◌, inl, inr, false, ◌||◌, Option, none, some, List, [], ◌∷◌, ◌++◌,
  Text, bytes, arith, text_eq, nat_eq, ltb, ◌==◌, is_empty, starts_with, Bool-cases, Option-cases,
  All, Elem,
}
use cross_device_manager.Base.Result.{ok, value_or}
use cross_device_manager.Daemon.Containment.{elements, lexically_relative}
use cross_device_manager.Daemon.Containment.Below.{Plain, lexically_relative_below}
use cross_device_manager.Linux.CabResolver.{
  RemoteRef, CabFile, FileSystem, hard_cap_bytes, file_scheme, find_remote, candidate_path,
  size_cap, escapes_root, outside, relative_escape, validate, open_and_validate,
  resolve_and_open_cab,
}

size_cap_bound : (expected : ℕ) → size_cap expected ≤ hard_cap_bytes
unfolding size_cap
size_cap_bound expected = ground arith

module _ (F : FileSystem) where
  -- The location that a file was opened for.
  abbrev pub Chosen : List RemoteRef → Text → ℕ → CabFile F.Fd → Text → Type 0
  Chosen remotes remote_id expected cab loc =
      (is_empty (candidate_path loc remotes remote_id) ≡ false)
      × (relative_escape F loc (candidate_path loc remotes remote_id) remotes remote_id ≡ false)
      × (open_and_validate F (candidate_path loc remotes remote_id) expected ≡ ok cab)

  chosen :
      (locs : List Text) (remotes : List RemoteRef) (remote_id : Text) (expected : ℕ)
      (cab : CabFile F.Fd)
      → resolve_and_open_cab F locs remotes remote_id expected ≡ ok cab
      → (loc : Text) × Elem loc locs × Chosen remotes remote_id expected cab loc
  unfolding resolve_and_open_cab
  chosen [] remotes remote_id expected cab h = absurd (cc)
  chosen (loc ∷ locs) remotes remote_id expected cab h =
      let path = candidate_path loc remotes remote_id in
      elim (Bool-cases (is_empty path)) [
        | inl e ↦
            let (l, i, c) =
              chosen locs remotes remote_id expected cab (rw (e, resolve_and_open_cab) at h) in
            (l, inr i, c)
        | inr e ↦ elim (Bool-cases (relative_escape F loc path remotes remote_id)) [
          | inl x ↦ absurd (cc (rw (e, x, resolve_and_open_cab) at h))
          | inr x ↦ (loc, inl refl, (e, x, rw (e, x, resolve_and_open_cab) at h))
        ]
      ]

  -- The size of a file that passes the checks.
  validated :
      (path : Text) (expected : ℕ) (fd : F.Fd) (cab : CabFile F.Fd)
      → validate F path expected fd ≡ ok cab
      → (cab.fd ≡ fd)
        × (F.regular_size fd ≡ some cab.size_bytes)
        × (1 ≤ cab.size_bytes)
        × (cab.size_bytes ≤ size_cap expected)
  unfolding validate
  validated path expected fd cab h = elim (Option-cases (F.regular_size fd)) [
    | inl e ↦ absurd (cc (rw (e, validate) at h))
    | inr (size, e) ↦ elim (Bool-cases ((size == 0) || ltb (size_cap expected) size)) [
      | inl x ↦ absurd (cc (rw (e, x, validate) at h))
      | inr x ↦
          let same : ok (record { fd = fd; size_bytes = size }) ≡ ok cab =
            rw (e, x, validate) at h in
          let one : record { fd = fd; size_bytes = size } ≡ cab = ap (λ r. value_or r cab) same in
          let of_size : size ≡ cab.size_bytes = ap (λ c. c.size_bytes) one in
          (
            ap (λ c. c.fd) (sym one),
            e ∙ ap some of_size,
            ground (arith, of_size, x),
            ground (arith, of_size, x),
          )
    ]
  ]

  -- A file that is opened is the one that the operating system opened under the path of one of the
  -- locations; it is a regular file of at least one byte, and of at most the cap, which is never above
  -- 512 MiB.
  pub resolve_and_open_cab-size_cap :
      (locs : List Text) (remotes : List RemoteRef) (remote_id : Text) (expected : ℕ)
      (cab : CabFile F.Fd)
      → resolve_and_open_cab F locs remotes remote_id expected ≡ ok cab
      → (loc : Text) × Elem loc locs
        × (F.open_file (candidate_path loc remotes remote_id) ≡ some cab.fd)
        × (F.regular_size cab.fd ≡ some cab.size_bytes)
        × (1 ≤ cab.size_bytes)
        × (cab.size_bytes ≤ size_cap expected)
        × (size_cap expected ≤ hard_cap_bytes)
  unfolding open_and_validate
  resolve_and_open_cab-size_cap locs remotes remote_id expected cab h =
      let (loc, i, (full, inside, opened)) = chosen locs remotes remote_id expected cab h in
      let path = candidate_path loc remotes remote_id in
      elim (Option-cases (F.open_file path)) [
        | inl e ↦ absurd (cc (rw (e, open_and_validate) at opened))
        | inr (fd, e) ↦
            let (same, size, low, high) =
              validated path expected fd cab (rw (e, open_and_validate) at opened) in
            (
              loc,
              i,
              e ∙ ap some (sym same),
              ap F.regular_size same ∙ size,
              low,
              high,
              size_cap_bound expected,
            )
      ]

  -- A path that does not escape lies below the root, where both are resolved.
  escapes_root-below :
      (path root : Text)
      → ((q : Text) → F.weakly_canonical root ≡ some q → All Plain (elements q))
      → escapes_root F path root ≡ false
      → (canon : Text) × (canon_root : Text) × (F.weakly_canonical path ≡ some canon)
        × (F.weakly_canonical root ≡ some canon_root)
        × ((rest : List Text) × (elements canon ≡ elements canon_root ++ rest))
  unfolding escapes_root
  escapes_root-below path root plain h = elim (Option-cases (F.weakly_canonical path)) [
    | inl e ↦ absurd (cc (rw (e, escapes_root) at h))
    | inr (canon, e) ↦ elim (Option-cases (F.weakly_canonical root)) [
      | inl r ↦ absurd (cc (rw (e, r, escapes_root) at h))
      | inr (canon_root, r) ↦
          let both : (is_empty (lexically_relative canon canon_root)
                || starts_with (lexically_relative canon canon_root) (bytes ".."))
              ≡ false =
            rw (e, r, escapes_root) at h in
          (
            canon,
            canon_root,
            e,
            r,
            lexically_relative_below canon canon_root (plain canon_root r) (ground arith)
                (ground arith),
          )
    ]
  ]

  outside-below :
      (path : Text) (o : Option RemoteRef)
      → ((r : RemoteRef) (q : Text)
          → o ≡ some r
          → F.weakly_canonical r.filename_cache ≡ some q
          → All Plain (elements q))
      → outside F path o ≡ false
      → (r : RemoteRef) × (o ≡ some r)
        × (canon : Text) × (canon_root : Text) × (F.weakly_canonical path ≡ some canon)
        × (F.weakly_canonical r.filename_cache ≡ some canon_root)
        × ((rest : List Text) × (elements canon ≡ elements canon_root ++ rest))
  outside-below path none plain h = absurd (cc)
  outside-below path (some r) plain h =
      let (canon, canon_root, e, f, below) =
        escapes_root-below path r.filename_cache (λ q. plain r q refl) h in
      (r, refl, canon, canon_root, e, f, below)

  -- A relative location that passes the check belongs to a known remote, and its path, resolved, lies
  -- below the directory of that remote, if that directory, resolved, has neither `.` nor `..` nor an
  -- empty name among its elements.
  pub relative_escape-below :
      (loc path : Text) (remotes : List RemoteRef) (remote_id : Text)
      → ((r : RemoteRef) (q : Text)
          → find_remote remotes remote_id ≡ some r
          → F.weakly_canonical r.filename_cache ≡ some q
          → All Plain (elements q))
      → starts_with loc (bytes "/") ≡ false
      → starts_with loc file_scheme ≡ false
      → relative_escape F loc path remotes remote_id ≡ false
      → (r : RemoteRef) × (find_remote remotes remote_id ≡ some r)
        × (canon : Text) × (canon_root : Text) × (F.weakly_canonical path ≡ some canon)
        × (F.weakly_canonical r.filename_cache ≡ some canon_root)
        × ((rest : List Text) × (elements canon ≡ elements canon_root ++ rest))
  unfolding relative_escape
  relative_escape-below loc path remotes remote_id plain a b h =
      outside-below path (find_remote remotes remote_id) plain (rw (a, b, relative_escape) at h)
