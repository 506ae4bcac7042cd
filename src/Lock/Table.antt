-- ===== src/Lock/Table.antt =====
-- lock.c against its abstract view: the table that says which application holds which feature bit
-- of which component.
use ndk_sw_bachelor_thesis.Common.{
  ℕ, zero, suc, ◌≡◌, refl, sym, ◌∙◌, ap, ◌≢◌, ◌↔◌, inl, inr, bit_and, Bool, true, false, ◌&&◌, ◌||◌,
  none, some, List, [], ◌∷◌, String, str_eq, str_eq_iff, ok, err, ebusy, arith, Bool-cases, ◌==◌,
}
use ndk_sw_bachelor_thesis.Common.Bits.{bit, bit-or, bit-lt-two, shared_bit, common_bit, bit_zero}
use ndk_sw_bachelor_thesis.Lock.{
  LockItem, LockRequest, Scan, busy, free, behind, conflicts, scan, grant_at, nfb_lock_try_lock,
}
use ndk_sw_bachelor_thesis.Lock.Exclusion.{Apart, Exclusive, OwnAt, Scanned, scan-Scanned}

-- The item grants bit `j` of component `path` to `app`.
abbrev pub grants : LockItem → ℕ → String → ℕ → Bool
grants item app path j = item.app == app && str_eq item.path path && bit item.features j == 1

abbrev pub holds : List LockItem → ℕ → String → ℕ → Bool
holds [] app path j = false
holds (item ∷ items) app path j = grants item app path j || holds items app path j

-- The request asks for bit `j` of component `path` on behalf of `app`.
abbrev pub asks : ℕ → LockRequest → ℕ → String → ℕ → Bool
asks owner lock app path j = owner == app && str_eq lock.path path && bit lock.features j == 1

holds-grant_at :
    (owner : ℕ) (lock : LockRequest) (items : List LockItem) (i app : ℕ) (path : String) (j : ℕ)
    → OwnAt owner lock items i
    → holds (grant_at items i lock.features) app path j
      ≡ (holds items app path j || asks owner lock app path j)
unfolding grant_at
holds-grant_at owner lock [] i app path j o = elim o [ ]
holds-grant_at owner lock (item ∷ items) zero app path j o = ground (
  arith,
  bit-or item.features lock.features j,
  bit-lt-two item.features j,
  bit-lt-two lock.features j,
  str_eq_iff item.path path,
  str_eq_iff lock.path path,
)
holds-grant_at owner lock (item ∷ items) (suc i) app path j o =
    ground (arith, holds-grant_at owner lock items i app path j o)

grants_parts :
    (item : LockItem) (app : ℕ) (path : String) (j : ℕ)
    → grants item app path j ≡ true
    → (item.app ≡ app) × (item.path ≡ path) × (bit item.features j ≡ 1)
grants_parts item app path j g = ground (arith, str_eq_iff item.path path)

Apart-excludes :
    (item : LockItem) (items : List LockItem) (a b : ℕ) (path : String) (j : ℕ)
    → Apart item items
    → grants item a path j ≡ true
    → holds items b path j ≡ true
    → ⊥
Apart-excludes item [] a b path j h g k = cc
Apart-excludes item (other ∷ items) a b path j h g k = elim (Bool-cases (grants other b path j)) [
  | inl o ↦
      let x = grants_parts item a path j g in
      let y = grants_parts other b path j o in
      shared_bit item.features other.features j x.2 y.2 (h.0 (x.1 ∙ sym y.1)).0
  | inr o ↦ Apart-excludes item items a b path j h.1 g (rw o at k)
]

-- In an exclusive list a feature bit of a component has one holder.
pub one_holder :
    (items : List LockItem) (a b : ℕ) (path : String) (j : ℕ)
    → Exclusive items
    → holds items a path j ≡ true
    → holds items b path j ≡ true
    → a ≡ b
one_holder [] a b path j h p q = cc
one_holder (item ∷ items) a b path j h p q = ground (
  arith,
  Apart-excludes item items a b path j h.0,
  Apart-excludes item items b a path j h.0,
  one_holder items a b path j h.1,
)

grants_cases :
    (memory : Bool) (owner : ℕ) (lock : LockRequest) (items : List LockItem) (s : Scan)
    → scan owner lock items ≡ s
    → Scanned owner lock items s
    → (app : ℕ) (path : String) (j : ℕ) → (nfb_lock_try_lock memory owner lock items).0 ≡ ok
    → holds (nfb_lock_try_lock memory owner lock items).1 app path j
      ≡ (holds items app path j || asks owner lock app path j)
unfolding nfb_lock_try_lock
grants_cases memory owner lock items busy e c app path j k = absurd (ground arith)
grants_cases memory owner lock items (free (some i)) e c app path j k =
    rw (e, nfb_lock_try_lock) (holds-grant_at owner lock items i app path j c.1)
grants_cases false owner lock items (free none) e c app path j k = absurd (ground arith)
grants_cases true owner lock items (free none) e c app path j k =
    rw (e, nfb_lock_try_lock)
      (holds-grant_at owner lock (fresh ∷ items) 0 app path j (refl, refl)
        ∙ ap (λ b. b || asks owner lock app path j) (ground (arith, bit_zero j)))
  where
    fresh : LockItem
    fresh = record { app = owner; path = lock.path; features = 0 }

-- A granted request adds the bits that it asks for to the table, and nothing else.
pub try_lock_grants :
    (memory : Bool) (owner : ℕ) (lock : LockRequest) (items : List LockItem) (app : ℕ)
    (path : String) (j : ℕ)
    → (nfb_lock_try_lock memory owner lock items).0 ≡ ok
    → holds (nfb_lock_try_lock memory owner lock items).1 app path j
      ≡ (holds items app path j || asks owner lock app path j)
try_lock_grants memory owner lock items =
    grants_cases memory owner lock items (scan owner lock items) refl
      (scan-Scanned owner lock items)

-- A request that is turned down changes nothing.
pub try_lock_refused :
    (memory : Bool) (owner : ℕ) (lock : LockRequest) (items : List LockItem)
    → (nfb_lock_try_lock memory owner lock items).0 ≢ ok
    → (nfb_lock_try_lock memory owner lock items).1 ≡ items
unfolding nfb_lock_try_lock
try_lock_refused memory owner lock items e = ground arith

conflict_true :
    (item : LockItem) (lock : LockRequest)
    → conflicts item lock ≡ true
    → (item.path ≡ lock.path) × (bit_and item.features lock.features ≢ 0)
unfolding conflicts
conflict_true item lock e = ground (arith, str_eq_iff item.path lock.path)

abbrev pub Held : LockRequest → List LockItem → Type 0
Held lock items =
    (app : ℕ) × (j : ℕ) × (holds items app lock.path j ≡ true) × (bit lock.features j ≡ 1)

scan_busy :
    (owner : ℕ) (lock : LockRequest) (items : List LockItem)
    → scan owner lock items ≡ busy
    → Held lock items
unfolding scan behind
scan_busy owner lock [] e = absurd (ground arith)
scan_busy owner lock (item ∷ items) e = elim (Bool-cases (conflicts item lock)) [
  | inl c ↦
      let (p, ne) = conflict_true item lock c in
      let (j, x, y) = common_bit item.features lock.features ne in
      (item.app, j, ground (arith, str_eq_iff item.path lock.path), y)
  | inr c ↦
      let (app, j, h, b) = scan_busy owner lock items (ground arith) in (app, j, ground arith, b)
]

held_busy :
    (owner : ℕ) (lock : LockRequest) (items : List LockItem) (app j : ℕ)
    → holds items app lock.path j ≡ true
    → bit lock.features j ≡ 1
    → scan owner lock items ≡ busy
unfolding scan behind conflicts
held_busy owner lock [] app j h b = cc
held_busy owner lock (item ∷ items) app j h b = elim (Bool-cases (grants item app lock.path j)) [
  | inl g ↦
      let x = grants_parts item app lock.path j g in
      ground (arith, str_eq_iff item.path lock.path, shared_bit item.features lock.features j x.2 b)
  | inr g ↦ ground (arith, held_busy owner lock items app j (rw g at h) b)
]

-- A request is answered with EBUSY exactly when some application, the caller included, holds one
-- of the requested bits of the component.
pub busy_iff :
    (memory : Bool) (owner : ℕ) (lock : LockRequest) (items : List LockItem)
    → (nfb_lock_try_lock memory owner lock items).0 ≡ err ebusy ↔ Held lock items
unfolding nfb_lock_try_lock
busy_iff memory owner lock items = (
  λ e. scan_busy owner lock items (ground arith),
  λ h. rw (held_busy owner lock items h.0 h.1 h.2 h.3, nfb_lock_try_lock),
)
