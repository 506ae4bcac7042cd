-- ===== src/Lock/Exclusion.antt =====
-- The well-formed lock lists: what holds of the list between any two calls of lock.c.
use ndk_sw_bachelor_thesis.Common.{
  ℕ, zero, suc, ◌≡◌, refl, sym, ◌∙◌, ◌≢◌, inl, inr, bit_and, bit_or, Bool, true, false, none, some,
  List, [], ◌∷◌, str_eq_iff, arith, Bool-cases, Option-cases, ◌==◌,
}
use ndk_sw_bachelor_thesis.Common.Bits.{
  bit_not32, or_disjoint, and_disjoint, and_comm_zero, zero-bit_and,
}
use ndk_sw_bachelor_thesis.Lock.{
  LockItem, LockRequest, Scan, busy, free, conflicts, is_own, behind, scan, grant_at, revoke_at,
  find_own, nfb_lock_try_lock, nfb_lock_unlock, nfb_lock_release,
}

-- Two items of one component belong to two applications and share no feature.
abbrev pub Apart : LockItem → List LockItem → Type 0
Apart item [] = Unit {0}
Apart item (other ∷ items) =
    (item.path ≡ other.path → (bit_and item.features other.features ≡ 0) × (item.app ≢ other.app))
    × Apart item items

abbrev pub Exclusive : List LockItem → Type 0
Exclusive [] = Unit {0}
Exclusive (item ∷ items) = Apart item items × Exclusive items

-- No item of the component holds a requested feature.
abbrev pub Clear : LockRequest → List LockItem → Type 0
Clear lock [] = Unit {0}
Clear lock (item ∷ items) =
    (item.path ≡ lock.path → bit_and item.features lock.features ≡ 0) × Clear lock items

abbrev pub OwnAt : ℕ → LockRequest → List LockItem → ℕ → Type 0
OwnAt app lock [] i = ⊥
OwnAt app lock (item ∷ items) zero = (item.path ≡ lock.path) × (item.app ≡ app)
OwnAt app lock (item ∷ items) (suc i) = OwnAt app lock items i

abbrev pub NoOwn : ℕ → LockRequest → List LockItem → Type 0
NoOwn app lock [] = Unit {0}
NoOwn app lock (item ∷ items) = (item.path ≡ lock.path → item.app ≢ app) × NoOwn app lock items

-- What each end of the loop says of the list.
abbrev pub Scanned : ℕ → LockRequest → List LockItem → Scan → Type 0
Scanned app lock items busy = Unit {0}
Scanned app lock items (free none) = Clear lock items × NoOwn app lock items
Scanned app lock items (free (some i)) = Clear lock items × OwnAt app lock items i

pub conflict_false :
    (item : LockItem) (lock : LockRequest)
    → conflicts item lock ≡ false
    → item.path ≡ lock.path
    → bit_and item.features lock.features ≡ 0
unfolding conflicts
conflict_false item lock e p = ground (arith, str_eq_iff item.path lock.path)

pub own_true :
    (app : ℕ) (item : LockItem) (lock : LockRequest)
    → is_own app item lock ≡ true
    → (item.path ≡ lock.path) × (item.app ≡ app)
unfolding is_own
own_true app item lock e = ground (arith, str_eq_iff item.path lock.path)

pub own_false :
    (app : ℕ) (item : LockItem) (lock : LockRequest)
    → is_own app item lock ≡ false
    → item.path ≡ lock.path
    → item.app ≢ app
unfolding is_own
own_false app item lock e p = ground (arith, str_eq_iff item.path lock.path)

behind-Scanned :
    (app : ℕ) (lock : LockRequest) (item : LockItem) (items : List LockItem) (s : Scan)
    → conflicts item lock ≡ false
    → Scanned app lock items s
    → Scanned app lock (item ∷ items) (behind (is_own app item lock) s)
unfolding behind
behind-Scanned app lock item items busy e h = tt
behind-Scanned app lock item items (free (some i)) e h = ((conflict_false item lock e, h.0), h.1)
behind-Scanned app lock item items (free none) e h = elim (Bool-cases (is_own app item lock)) [
  | inl own ↦ rw own ((conflict_false item lock e, h.0), own_true app item lock own)
  | inr other ↦ rw other ((conflict_false item lock e, h.0), (own_false app item lock other, h.1))
]

pub scan-Scanned :
    (app : ℕ) (lock : LockRequest) (items : List LockItem)
    → Scanned app lock items (scan app lock items)
unfolding scan
scan-Scanned app lock [] = (tt, tt)
scan-Scanned app lock (item ∷ items) = elim (Bool-cases (conflicts item lock)) [
  | inl e ↦ rw e tt
  | inr e ↦
      rw e
        (behind-Scanned app lock item items (scan app lock items) e (scan-Scanned app lock items))
]

-- Fewer features keep an item apart from the others.
Apart-shrink :
    (item : LockItem) (mask : ℕ) (items : List LockItem)
    → Apart item items
    → Apart (record item { features = bit_and item.features mask }) items
Apart-shrink item mask [] h = tt
Apart-shrink item mask (other ∷ items) h = (
  λ e. (and_disjoint item.features mask other.features (h.0 e).0, (h.0 e).1),
  Apart-shrink item mask items h.1,
)

-- What an item is apart from before an unlock it is apart from after it.
Apart-revoke_at :
    (item : LockItem) (items : List LockItem) (i features : ℕ)
    → Apart item items
    → Apart item (revoke_at items i features)
unfolding revoke_at
Apart-revoke_at item [] i features h = tt
Apart-revoke_at item (other ∷ items) zero features h =
    elim (Bool-cases (bit_and other.features (bit_not32 features) == 0)) [
      | inl gone ↦ rw gone h.1
      | inr left ↦ rw left (
        λ e. (
          and_comm_zero _ item.features (
              and_disjoint other.features (bit_not32 features) item.features
                (and_comm_zero item.features other.features (h.0 e).0)),
          (h.0 e).1,
        ),
        h.1,
      )
    ]
Apart-revoke_at item (other ∷ items) (suc i) features h =
    (h.0, Apart-revoke_at item items i features h.1)

-- An unlock keeps the list exclusive.
pub revoke_at-Exclusive :
    (items : List LockItem) (i features : ℕ)
    → Exclusive items
    → Exclusive (revoke_at items i features)
unfolding revoke_at
revoke_at-Exclusive [] i features h = tt
revoke_at-Exclusive (item ∷ items) zero features h =
    elim (Bool-cases (bit_and item.features (bit_not32 features) == 0)) [
      | inl gone ↦ rw gone h.1
      | inr left ↦ rw left (Apart-shrink item (bit_not32 features) items h.0, h.1)
    ]
revoke_at-Exclusive (item ∷ items) (suc i) features h =
    (Apart-revoke_at item items i features h.0, revoke_at-Exclusive items i features h.1)

-- Features that no item of the component holds may be added to an item of the component.
Apart-widen :
    (app : ℕ) (lock : LockRequest) (item : LockItem) (items : List LockItem)
    → item.path ≡ lock.path
    → Clear lock items
    → Apart item items
    → Apart (record item { features = bit_or item.features lock.features }) items
Apart-widen app lock item [] p c h = tt
Apart-widen app lock item (other ∷ items) p c h = (
  λ e. (
    or_disjoint item.features lock.features other.features (h.0 e).0
        (and_comm_zero other.features lock.features (c.0 (sym e ∙ p))),
    (h.0 e).1,
  ),
  Apart-widen app lock item items p c.1 h.1,
)

Apart-grant_at :
    (app : ℕ) (lock : LockRequest) (item : LockItem) (items : List LockItem) (i : ℕ)
    → (item.path ≡ lock.path → bit_and item.features lock.features ≡ 0)
    → OwnAt app lock items i
    → Apart item items
    → Apart item (grant_at items i lock.features)
unfolding grant_at
Apart-grant_at app lock item [] i c o h = tt
Apart-grant_at app lock item (other ∷ items) zero c o h = (
  λ e. (
    and_comm_zero _ item.features (
        or_disjoint other.features lock.features item.features
          (and_comm_zero item.features other.features (h.0 e).0)
          (and_comm_zero item.features lock.features (c (e ∙ o.0)))),
    (h.0 e).1,
  ),
  h.1,
)
Apart-grant_at app lock item (other ∷ items) (suc i) c o h =
    (h.0, Apart-grant_at app lock item items i c o h.1)

grant_at-Exclusive :
    (app : ℕ) (lock : LockRequest) (items : List LockItem) (i : ℕ)
    → Clear lock items
    → OwnAt app lock items i
    → Exclusive items
    → Exclusive (grant_at items i lock.features)
unfolding grant_at
grant_at-Exclusive app lock [] i c o h = tt
grant_at-Exclusive app lock (item ∷ items) zero c o h =
    (Apart-widen app lock item items o.0 c.1 h.0, h.1)
grant_at-Exclusive app lock (item ∷ items) (suc i) c o h =
    (Apart-grant_at app lock item items i c.0 o h.0, grant_at-Exclusive app lock items i c.1 o h.1)

-- A new item has no features yet and belongs to an application that has no item there.
new-Apart :
    (app : ℕ) (lock : LockRequest) (items : List LockItem)
    → NoOwn app lock items
    → Apart (record { app = app; path = lock.path; features = 0 }) items
new-Apart app lock [] n = tt
new-Apart app lock (other ∷ items) n =
    (λ e. (zero-bit_and other.features, λ a. n.0 (sym e) (sym a)), new-Apart app lock items n.1)

pub Exclusive-nil : Exclusive []
Exclusive-nil = tt

try_lock_cases :
    (memory : Bool) (app : ℕ) (lock : LockRequest) (items : List LockItem) (s : Scan)
    → scan app lock items ≡ s
    → Scanned app lock items s
    → Exclusive items
    → Exclusive (nfb_lock_try_lock memory app lock items).1
unfolding nfb_lock_try_lock
try_lock_cases memory app lock items busy e c h = rw (e, nfb_lock_try_lock) h
try_lock_cases memory app lock items (free (some i)) e c h =
    rw (e, nfb_lock_try_lock) (grant_at-Exclusive app lock items i c.0 c.1 h)
try_lock_cases false app lock items (free none) e c h = rw (e, nfb_lock_try_lock) h
try_lock_cases true app lock items (free none) e c h =
    rw (e, nfb_lock_try_lock)
      (grant_at-Exclusive app lock (_ ∷ items) 0 ((λ _. zero-bit_and lock.features), c.0)
        (refl, refl) (new-Apart app lock items c.1, h))

-- `nfb_lock_try_lock` keeps the list exclusive, whatever it returns.
pub try_lock-Exclusive :
    (memory : Bool) (app : ℕ) (lock : LockRequest) (items : List LockItem)
    → Exclusive items
    → Exclusive (nfb_lock_try_lock memory app lock items).1
try_lock-Exclusive memory app lock items =
    try_lock_cases memory app lock items (scan app lock items) refl (scan-Scanned app lock items)

-- `nfb_lock_unlock` keeps the list exclusive.
pub unlock-Exclusive :
    (app : ℕ) (lock : LockRequest) (items : List LockItem)
    → Exclusive items
    → Exclusive (nfb_lock_unlock app lock items).1
unfolding nfb_lock_unlock
unlock-Exclusive app lock items h = elim (Option-cases (find_own app lock items)) [
  | inl e ↦ rw (e, nfb_lock_unlock) h
  | inr (i, e) ↦ rw (e, nfb_lock_unlock) (revoke_at-Exclusive items i lock.features h)
]

Apart-release :
    (item : LockItem) (app : ℕ) (items : List LockItem)
    → Apart item items
    → Apart item (nfb_lock_release app items)
unfolding nfb_lock_release
Apart-release item app [] h = tt
Apart-release item app (other ∷ items) h = elim (Bool-cases (other.app == app)) [
  | inl e ↦ rw e (Apart-release item app items h.1)
  | inr e ↦ rw e (h.0, Apart-release item app items h.1)
]

-- `nfb_lock_release` keeps the list exclusive.
pub release-Exclusive :
    (app : ℕ) (items : List LockItem) → Exclusive items → Exclusive (nfb_lock_release app items)
unfolding nfb_lock_release
release-Exclusive app [] h = tt
release-Exclusive app (item ∷ items) h = elim (Bool-cases (item.app == app)) [
  | inl e ↦ rw e (release-Exclusive app items h.1)
  | inr e ↦ rw e (Apart-release item app items h.0, release-Exclusive app items h.1)
]
