-- ===== src/Common/Ledger.antt =====
-- What is live after a run that acquires and gives back resources, and whether it gave back what was not live.
use Prim.Native.Nat.{ℕ}
use mathlib.Core.Option.{Option, none, some}
use mathlib.Core.List.{List, [], ◌∷◌}
use ndk_sw_bachelor_thesis.Common.Tests.{◌==◌, if◌then◌else◌}

pub data Entry (A : Type 0) : Type 0 where
  taken given : A → Entry A

-- Resources are told apart by their numbers.
module _ {A : Type 0} (number : A → ℕ) where
  -- Takes a resource off the live ones; `none`: it is not live.
  abbrev pub give_back : A → List A → Option (List A)
  give_back r [] = none
  give_back r (l ∷ ls) =
      let rest = give_back r ls in
      if number l == number r
      then some ls
      else elim rest [ none ↦ none | some ls' ↦ some (l ∷ ls') ]

  abbrev pub balance : List (Entry A) → List A → Option (List A)
  balance [] live = some live
  balance (taken r ∷ entries) live = balance entries (r ∷ live)
  balance (given r ∷ entries) live = elim (give_back r live) [
    | none ↦ none
    | some rest ↦ balance entries rest
  ]
