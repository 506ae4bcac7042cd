-- ===== src/Lock/Unlock.antt =====
-- What `nfb_lock_unlock` and `nfb_lock_release` of lock.c take from the table of holders.
use mathlib.Core.Option
use ndk_sw_bachelor_thesis.Common.{
  ℕ, zero, suc, ◌<◌, ◌^◌, ◌≡◌, refl, sym, ◌∙◌, ◌≢◌, inl, inr, bit_and, false, ◌&&◌, not, Option,
  none, some, List, [], ◌∷◌, String, str_eq_iff, arith, Bool-cases, ◌==◌,
}
use ndk_sw_bachelor_thesis.Common.Bits.{bit, bit_not32, bit-and, bit-not32, bit-lt-two, bit_zero}
use ndk_sw_bachelor_thesis.Lock.{
  LockItem, LockRequest, is_own, revoke_at, find_own, nfb_lock_unlock, nfb_lock_release,
}
use ndk_sw_bachelor_thesis.Lock.Exclusion.{Apart, Exclusive, OwnAt, NoOwn, own_true, own_false}
use ndk_sw_bachelor_thesis.Lock.Table.{holds, asks}

-- Behind an item of an application its list has no other item of that application and component.
Apart-not_holds :
    (item : LockItem) (items : List LockItem) (app : ℕ) (path : String) (j : ℕ)
    → Apart item items
    → item.app ≡ app
    → item.path ≡ path
    → holds items app path j ≡ false
Apart-not_holds item [] app path j h a p = refl
Apart-not_holds item (other ∷ items) app path j h a p = ground (
  arith,
  Apart-not_holds item items app path j h.1 a p,
  str_eq_iff other.path path,
  λ (e : other.path ≡ path) (x : other.app ≡ app). (h.0 (p ∙ sym e)).1 (a ∙ sym x),
)

Apart-own :
    (item : LockItem) (owner : ℕ) (lock : LockRequest) (items : List LockItem) (i : ℕ)
    → Apart item items
    → OwnAt owner lock items i
    → item.path ≡ lock.path
    → item.app ≢ owner
Apart-own item owner lock [] i h o p e = o
Apart-own item owner lock (other ∷ items) zero h o p e = (h.0 (p ∙ sym o.0)).1 (e ∙ sym o.1)
Apart-own item owner lock (other ∷ items) (suc i) h o p e =
    Apart-own item owner lock items i h.1 o p e

-- What is left of an item's bit.
left_bit :
    (x f j : ℕ)
    → f < 2 ^ 32
    → j < 32
    → (bit (bit_and x (bit_not32 f)) j == 1) ≡ (bit x j == 1 && not (bit f j == 1))
left_bit x f j hf hj =
    ground (arith, bit-and x (bit_not32 f) j, bit-not32 f j hf hj, bit-lt-two x j, bit-lt-two f j)

gone_bit :
    (x f j : ℕ)
    → f < 2 ^ 32
    → j < 32
    → bit_and x (bit_not32 f) ≡ 0
    → (bit x j == 1 && not (bit f j == 1)) ≡ false
gone_bit x f j hf hj e = sym (left_bit x f j hf hj) ∙ rw e (rw (bit_zero j))

holds-revoke_at :
    (owner : ℕ) (lock : LockRequest) (items : List LockItem) (i app : ℕ) (path : String) (j : ℕ)
    → lock.features < 2 ^ 32
    → j < 32
    → Exclusive items
    → OwnAt owner lock items i
    → holds (revoke_at items i lock.features) app path j
      ≡ (holds items app path j && not (asks owner lock app path j))
unfolding revoke_at
holds-revoke_at owner lock [] i app path j hf hj h o = elim o [ ]
holds-revoke_at owner lock (item ∷ items) zero app path j hf hj h o = ground (
  arith,
  left_bit item.features lock.features j hf hj,
  gone_bit item.features lock.features j hf hj,
  Apart-not_holds item items app path j h.0,
  str_eq_iff item.path path,
  str_eq_iff lock.path path,
)
holds-revoke_at owner lock (item ∷ items) (suc i) app path j hf hj h o = ground (
  arith,
  holds-revoke_at owner lock items i app path j hf hj h.1 o,
  Apart-own item owner lock items i h.0 o,
  str_eq_iff item.path path,
  str_eq_iff lock.path path,
)

-- What each result of the search says of the list.
abbrev Found : ℕ → LockRequest → List LockItem → Option ℕ → Type 0
Found owner lock items none = NoOwn owner lock items
Found owner lock items (some i) = OwnAt owner lock items i

Found-later :
    (owner : ℕ) (lock : LockRequest) (item : LockItem) (items : List LockItem) (o : Option ℕ)
    → is_own owner item lock ≡ false
    → Found owner lock items o
    → Found owner lock (item ∷ items) (Option.map suc o)
Found-later owner lock item items none e h = (own_false owner item lock e, h)
Found-later owner lock item items (some i) e h = h

find_own-Found :
    (owner : ℕ) (lock : LockRequest) (items : List LockItem)
    → Found owner lock items (find_own owner lock items)
unfolding find_own
find_own-Found owner lock [] = tt
find_own-Found owner lock (item ∷ items) = elim (Bool-cases (is_own owner item lock)) [
  | inl own ↦ rw own (own_true owner item lock own)
  | inr other ↦ rw other (
      Found-later owner lock item items (find_own owner lock items) other
        (find_own-Found owner lock items))
]

unlock_cases :
    (owner : ℕ) (lock : LockRequest) (items : List LockItem) (o : Option ℕ)
    → find_own owner lock items ≡ o
    → Found owner lock items o
    → lock.features < 2 ^ 32
    → Exclusive items
    → (app : ℕ) (path : String) (j : ℕ) → j < 32
    → holds (nfb_lock_unlock owner lock items).1 app path j
      ≡ (holds items app path j && not (asks owner lock app path j))
unfolding nfb_lock_unlock
unlock_cases owner lock items none e f hf h app path j hj =
    rw (e, nfb_lock_unlock) (no_own_keeps items f)
  where
    no_own_keeps :
        (rest : List LockItem)
        → NoOwn owner lock rest
        → holds rest app path j ≡ (holds rest app path j && not (asks owner lock app path j))
    no_own_keeps [] n = refl
    no_own_keeps (item ∷ rest) n =
        ground
          (arith, no_own_keeps rest n.1, n.0, str_eq_iff item.path path, str_eq_iff lock.path path)
unlock_cases owner lock items (some i) e f hf h app path j hj =
    rw (e, nfb_lock_unlock) (holds-revoke_at owner lock items i app path j hf hj h f)

-- An unlock takes from the table exactly the bits that the caller names and holds: nobody else
-- loses anything, and the caller keeps its other bits. This covers the answer ENODEV too. The
-- premises are that the list is exclusive and that the request and the bit are of 32 bits.
pub unlock_takes :
    (owner : ℕ) (lock : LockRequest) (items : List LockItem)
    → lock.features < 2 ^ 32
    → Exclusive items
    → (app : ℕ) (path : String) (j : ℕ) → j < 32
    → holds (nfb_lock_unlock owner lock items).1 app path j
      ≡ (holds items app path j && not (asks owner lock app path j))
unlock_takes owner lock items =
    unlock_cases owner lock items (find_own owner lock items) refl (find_own-Found owner lock items)

-- A closing application loses every lock, and no other application loses any.
pub release_takes :
    (owner : ℕ) (items : List LockItem) (app : ℕ) (path : String) (j : ℕ)
    → holds (nfb_lock_release owner items) app path j
      ≡ (holds items app path j && not (owner == app))
unfolding nfb_lock_release
release_takes owner [] app path j = refl
release_takes owner (item ∷ items) app path j = ground (arith, release_takes owner items app path j)
