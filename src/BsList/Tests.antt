-- ===== src/BsList/Tests.antt =====
-- toxcore/list.c: runs of the byte-string list on concrete data.
use insert_project_name_here.BsList.Room.{Growable}
use insert_project_name_here.BsList.Sorted.{lookup}
use insert_project_name_here.BsList.Overrun.{Overruns, bs_list_add-Overruns}
use insert_project_name_here.Base.{
  ℕ, ◌-◌, ◌^◌, none, List, replicate, ◌≡◌, refl, true, some, [], ◌∷◌, arith,
}
use insert_project_name_here.BsList.Bytes.{memcmp}
use insert_project_name_here.BsList.Search.{IsPosition, IsValid, find-IsPosition}
use insert_project_name_here.BsList.Changes.{RemoveResult, bs_list_remove-RemoveResult}
use insert_project_name_here.BsList.Adding.{
  id_of, bs_list_find-eq-id_of, AddResult, bs_list_add-AddResult,
}
use insert_project_name_here.BsList.{
  BsList, find, at, gap, bs_list_find, bs_list_add, bs_list_remove,
}

abbrev three : BsList
three = record {
  keys = (1 ∷ 5 ∷ []) ∷ (2 ∷ 0 ∷ []) ∷ (2 ∷ 7 ∷ []) ∷ [];
  ids = 10 ∷ 20 ∷ 30 ∷ [];
  n = 3;
  capacity = 8;
  element_size = 2;
  data_room = 16;
  ids_room = 32;
}

find_runs : (find three (2 ∷ 7 ∷ []) ≡ some (at 2)) × (find three (2 ∷ 1 ∷ []) ≡ some (gap 2))
unfolding find memcmp
find_runs = (refl, refl)

three-IsValid : IsValid three
unfolding memcmp
three-IsValid = record {
  sorted = ((refl, (refl, tt)), ((refl, tt), (tt, tt)));
  keys_n = refl;
  ids_n = refl;
  few = omega arith;
  within = omega arith;
  capacity_word = omega arith;
  data_fits = omega arith;
  data_word = omega arith;
  ids_fit = omega arith;
}

find-IsPosition_example : IsPosition (2 ∷ 1 ∷ []) three.keys (find three (2 ∷ 1 ∷ []))
find-IsPosition_example = find-IsPosition (2 ∷ 1 ∷ []) three-IsValid

bs_list_find-eq-id_of_example : bs_list_find three (2 ∷ 0 ∷ []) ≡ id_of three (2 ∷ 0 ∷ [])
bs_list_find-eq-id_of_example = bs_list_find-eq-id_of (2 ∷ 0 ∷ []) three-IsValid

-- The same elements with no room for another.
abbrev tight : BsList
tight = record three { capacity = 3; data_room = 6; ids_room = 12 }

tight-IsValid : IsValid tight
tight-IsValid = record {
  sorted = three-IsValid.sorted;
  keys_n = refl;
  ids_n = refl;
  few = omega arith;
  within = omega arith;
  capacity_word = omega arith;
  data_fits = omega arith;
  data_word = omega arith;
  ids_fit = omega arith;
}

tight_grows : Growable tight
tight_grows e = omega arith

bs_list_add-AddResult_example :
    AddResult tight (2 ∷ 1 ∷ []) 15 (bs_list_add true true tight (2 ∷ 1 ∷ []) 15)
bs_list_add-AddResult_example =
    bs_list_add-AddResult true true (2 ∷ 1 ∷ []) 15 tight-IsValid (omega arith) tight_grows

bs_list_remove-RemoveResult_example :
    RemoveResult three (2 ∷ 0 ∷ []) 20 (bs_list_remove true true three (2 ∷ 0 ∷ []) 20)
bs_list_remove-RemoveResult_example =
    bs_list_remove-RemoveResult true true (2 ∷ 0 ∷ []) 20 three-IsValid (λ e. e)

-- A full list of one element of 2 ^ 31 bytes; two of them would take 2 ^ 32.
abbrev huge : ℕ → List ℕ
huge first = first ∷ replicate (2 ^ 31 - 1) 0

abbrev one : BsList
one = record {
  keys = huge 1 ∷ [];
  ids = 10 ∷ [];
  n = 1;
  capacity = 1;
  element_size = 2 ^ 31;
  data_room = 2 ^ 31;
  ids_room = 4;
}

one-IsValid : IsValid one
one-IsValid = record {
  sorted = (tt, tt);
  keys_n = refl;
  ids_n = refl;
  few = omega arith;
  within = omega arith;
  capacity_word = omega arith;
  data_fits = omega arith;
  data_word = omega arith;
  ids_fit = omega arith;
}

absent : id_of one (huge 2) ≡ none
unfolding memcmp lookup
absent = refl

bs_list_add-Overruns_example : Overruns (bs_list_add true true one (huge 2) 15)
bs_list_add-Overruns_example =
    bs_list_add-Overruns (huge 2) 15 one-IsValid refl (omega arith) absent
