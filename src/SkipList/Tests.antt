-- ===== src/SkipList/Tests.antt =====
-- Skip lists with one node and two, and the theorems there.
use codelab.Base.{
  ℕ, ◌≡◌, ◌≢◌, Bool, false, Option, none, some, ◌==◌, if◌then◌else◌, arith, List, [], ◌∷◌, map,
  refl,
}
use codelab.Base.Int.{pos, ℤ}
use codelab.SkipList.{
  SkipList, contains, init, with_head, insert, find_greater_or_equal, find_loop, link_levels,
}
use codelab.SkipList.Search.{IsLayered, key_of}
use codelab.SkipList.Layers.{inserted}
use codelab.SkipList.Refine.{IsRoomy, insert-IsLayered}
use codelab.SkipList.Histories.{Call, run, run_new, run-sorted}
use codelab.SkipList.Room.{init-none}
use codelab.SkipList.Lookup.{IsOrdered, contains-false}

abbrev one_five : SkipList
one_five = record {
  node = λ x.
      if x == 0
      then record { key = pos 0; extra = 0; next = λ level. if level == 0 then some 1 else none }
      else record { key = pos 5; extra = 0; next = λ _. none };
  max_height = 1;
}

one_five-IsOrdered : IsOrdered one_five 1 (λ x. x)
one_five-IsOrdered = record { up = λ x level y e. ground arith }

contains-false_example : contains 3 one_five (pos 5) ≡ some false
contains-false_example = contains-false one_five 1 (λ x. x) one_five-IsOrdered (pos 5)

-- Nodes of keys 5 and 3, the first on two levels.
abbrev five : Call
five = record { key = pos 5; height = 2; memory = λ _. some 99 }

abbrev three : Call
three = record { key = pos 3; height = 1; memory = λ _. none }

first_next : Option SkipList → Option ℕ
first_next none = none
first_next (some l) = (l.node 0).next 0

contains_in : Option SkipList → ℤ → Option Bool
contains_in none k = none
contains_in (some l) k = contains 40 l k

three_first : first_next (run_new 4 36 (λ _. none) (five ∷ three ∷ [])) ≡ some 2
unfolding first_next run_new run insert find_greater_or_equal find_loop link_levels
three_first = refl

three_not_found : contains_in (run_new 4 36 (λ _. none) (five ∷ three ∷ [])) (pos 3) ≡ some false
unfolding contains_in contains run_new run insert find_greater_or_equal find_loop link_levels
three_not_found = refl

abbrev blank : SkipList
blank = with_head (λ _. none)

blank-IsLayered : IsLayered blank (λ _. [])
blank-IsLayered = record {
  links = λ i. ground arith;
  ascending = λ i. tt;
  unique = λ i. (tt, tt);
  nested = λ i x j. elim j [ ];
  tall = λ i le. refl;
  height = omega arith;
}

blank-IsRoomy : IsRoomy 4 blank (λ _. [])
blank-IsRoomy i lt = (omega arith, tt)

insert-IsLayered_example :
    (l' : SkipList) × (insert 4 1 blank (pos 5) 1 2 (λ _. some 99) ≡ some l')
    × IsLayered l' (inserted (key_of l') (pos 5) 1 2 (λ _. []))
    × IsRoomy 4 l' (inserted (key_of l') (pos 5) 1 2 (λ _. []))
    × (l'.max_height ≡ 2)
    × (key_of l' 1 ≡ pos 5)
    × ((z : ℕ) → z ≢ 1 → key_of l' z ≡ pos 0)
insert-IsLayered_example =
    insert-IsLayered 4 (omega arith) blank (λ _. []) blank-IsRoomy blank-IsLayered (pos 5) 1 2
      (λ _. some 99) (omega arith) (omega arith) (λ i. tt) 1 (omega arith)

run-sorted_example :
    (l : SkipList) × (chain : ℕ → List ℕ) × (run_new 4 36 (λ _. some 7) (five ∷ three ∷ [])
      ≡ some l)
    × IsLayered l chain
    × IsRoomy 4 l chain
    × (map (key_of l) (chain 0) ≡ pos 3 ∷ pos 5 ∷ [])
run-sorted_example =
    run-sorted 4 36 (λ _. some 7) (five ∷ three ∷ []) (omega arith)
      ((omega arith, omega arith), ((omega arith, omega arith), tt)) (omega arith)

init-none_example : init 8 (λ _. none) ≡ none
init-none_example = init-none 8 (λ _. none) (omega arith)
