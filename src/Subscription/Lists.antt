-- ===== src/Subscription/Lists.antt =====
-- Lists of subscriptions as channel.c keeps them: membership, and `list_del_init`.
use ndk_sw_bachelor_thesis.Common.{
  ℕ, ◌+◌, ◌≡◌, refl, Bool, true, false, ◌||◌, ◌&&◌, not, List, [], ◌∷◌, ◌++◌, arith, length, ◌==◌,
}
use ndk_sw_bachelor_thesis.Channel.{list_del}

abbrev pub is_in : ℕ → List ℕ → Bool
is_in s [] = false
is_in s (t ∷ ts) = t == s || is_in s ts

abbrev pub Distinct : List ℕ → Type 0
Distinct [] = Unit {0}
Distinct (t ∷ ts) = (is_in t ts ≡ false) × Distinct ts

pub in-append : (s t : ℕ) (ts : List ℕ) → is_in s (ts ++ (t ∷ [])) ≡ (is_in s ts || t == s)
in-append s t [] = ground arith
in-append s t (u ∷ ts) = ground (arith, in-append s t ts)

pub Distinct-append :
    (t : ℕ) (ts : List ℕ) → is_in t ts ≡ false → Distinct ts → Distinct (ts ++ (t ∷ []))
Distinct-append t [] e d = (refl, tt)
Distinct-append t (u ∷ ts) e d =
    (ground (arith, in-append u t ts), Distinct-append t ts (ground arith) d.1)

pub in-list_del :
    (s t : ℕ) (ts : List ℕ) → Distinct ts → is_in s (list_del t ts) ≡ (is_in s ts && not (t == s))
unfolding list_del
in-list_del s t [] d = refl
in-list_del s t (u ∷ ts) d = ground (arith, in-list_del s t ts d.1)

pub Distinct-list_del : (t : ℕ) (ts : List ℕ) → Distinct ts → Distinct (list_del t ts)
unfolding list_del
Distinct-list_del t [] d = tt
Distinct-list_del t (u ∷ ts) d = ground (arith, Distinct-list_del t ts d.1, in-list_del u t ts d.1)

pub length-list_del :
    (t : ℕ) (ts : List ℕ) → is_in t ts ≡ true → length (list_del t ts) + 1 ≡ length ts
unfolding list_del
length-list_del t [] e = absurd (ground arith)
length-list_del t (u ∷ ts) e = ground (arith, length-list_del t ts)
