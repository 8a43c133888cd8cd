-- ===== src/Guard/Paths.antt =====
-- `is_under` is the order of path prefixes.
use cross_device_manager.Base.{
  ◌≡◌, ◌↔◌, refl, ◌≢◌, ◌⊎◌, inl, inr, true, false, [], ◌∷◌, ◌++◌, Text, arith, ℕ, is_empty,
  starts_with, starts_with-append, rest_of_prefix, length-append, append-nil, append_assoc, ◌==◌,
  nat_eq,
}
use cross_device_manager.Guard.{is_under, byte_at_is}

-- The path is the prefix, or goes on below it after a `/`.
abbrev pub Under : Text → Text → Type 0
Under path prefix = (path ≡ prefix) ⊎ ((r : Text) × (path ≡ prefix ++ (b'/' ∷ r)))

byte_at_is-append : (p r : Text) (c x : ℕ) → byte_at_is (p ++ (x ∷ r)) p c ≡ (x == c)
unfolding byte_at_is
byte_at_is-append [] r c x = refl
byte_at_is-append (y ∷ p) r c x = byte_at_is-append p r c x

byte_at_is_end : (p : Text) (c : ℕ) → byte_at_is p p c ≡ false
unfolding byte_at_is
byte_at_is_end [] c = refl
byte_at_is_end (y ∷ p) c = byte_at_is_end p c

pub is_under_self : (p : Text) → p ≢ [] → is_under p p ≡ true
unfolding is_under is_empty
is_under_self [] h = absurd (h refl)
is_under_self (c ∷ p) h = ground (arith, rw append-nil at (starts_with-append (c ∷ p) []))

pub is_under_below : (p r : Text) → p ≢ [] → is_under (p ++ (b'/' ∷ r)) p ≡ true
unfolding is_under is_empty nat_eq
is_under_below [] r h = absurd (h refl)
is_under_below (c ∷ p) r h = ground (
  arith,
  starts_with-append (c ∷ p) (b'/' ∷ r),
  length-append (c ∷ p) (b'/' ∷ r),
  byte_at_is-append (c ∷ p) r b'/' b'/',
)

Under-split : (p r : Text) → is_under (p ++ r) p ≡ true → Under (p ++ r) p
unfolding is_under
Under-split p [] h = inl (append-nil p)
Under-split p (x ∷ r) h =
    let e : x ≡ b'/' = ground (arith, length-append p (x ∷ r), byte_at_is-append p r b'/' x) in
    inr (r, rw e refl)

pub is_under_prefix :
    (path prefix : Text)
    → is_under path prefix ≡ true
    → (prefix ≢ []) × (starts_with path prefix ≡ true)
unfolding is_under is_empty
is_under_prefix path [] h = ground arith
is_under_prefix path (c ∷ p) h = ground arith

pub is_under_sound :
    (path prefix : Text) → is_under path prefix ≡ true → (prefix ≢ []) × Under path prefix
is_under_sound path prefix h =
    let (nonempty, starts) = is_under_prefix path prefix h in
    let (r, e) = rest_of_prefix path prefix starts in
    (nonempty, rw e (Under-split prefix r (rw e at h)))

-- What lies under a part of the tree lies under all that the part lies under.
Under-trans : (a b c : Text) → Under a b → Under b c → Under a c
Under-trans a b c (inl e) h = rw e h
Under-trans a b c (inr (r, e)) (inl f) = inr (r, rw (e, f))
Under-trans a b c (inr (r, e)) (inr (s, f)) =
    inr (s ++ (b'/' ∷ r), rw (e, f) (append_assoc c (b'/' ∷ s) (b'/' ∷ r)))

pub is_under_complete :
    (path prefix : Text) → prefix ≢ [] → Under path prefix → is_under path prefix ≡ true
is_under_complete a b h (inl e) = rw e (is_under_self b h)
is_under_complete a b h (inr (r, e)) = rw e (is_under_below b r h)

pub is_under_trans :
    (a b c : Text) → is_under a b ≡ true → is_under b c ≡ true → is_under a c ≡ true
is_under_trans a b c h k =
    let (_, ab) = is_under_sound a b h in
    let (nonempty, bc) = is_under_sound b c k in
    is_under_complete a c nonempty (Under-trans a b c ab bc)

-- Only the prefix itself, and what lies below it, is under a prefix; nothing is under the empty one.
pub is_under_iff :
    (path prefix : Text) → (is_under path prefix ≡ true) ↔ ((prefix ≢ []) × Under path prefix)
is_under_iff path prefix = (is_under_sound path prefix, λ h. is_under_complete path prefix h.0 h.1)
