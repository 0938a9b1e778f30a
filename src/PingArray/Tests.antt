-- ===== src/PingArray/Tests.antt =====
-- toxcore/ping_array.c: runs of the ping array on concrete data.
use insert_project_name_here.Base.{◌^◌, ◌≡◌, ◌≢◌, refl, true, none, some, [], ◌∷◌, arith}
use insert_project_name_here.PingArray.{PingArray, blank, ping_array_add, ping_array_check}
use insert_project_name_here.PingArray.Exchange.{ping_array_add-check, ping_array_add-check_other}

abbrev empty : PingArray
empty = record {
  entries = λ _. blank;
  last_deleted = 0;
  last_added = 6;
  total_size = 4;
  timeout = 5;
}

id_runs : (ping_array_add 100 1001 true empty (1 ∷ 2 ∷ []) 2).1 ≡ 1002
unfolding ping_array_add
id_runs = refl

ping_array_add-check_example :
    let (b, id) = ping_array_add 100 1001 true empty (1 ∷ 2 ∷ []) 2 in
    (id ≢ 0)
    × ((ping_array_check 100 8 b id).1 ≡ some (1 ∷ 2 ∷ []))
    × ((ping_array_check 100 8 (ping_array_check 100 8 b id).0 id).1 ≡ none)
ping_array_add-check_example =
    ping_array_add-check 100 1001 empty (1 ∷ 2 ∷ []) 2 (2 ^ 62) refl (omega arith) (omega arith)
      (omega arith) (omega arith) (omega arith) 8 (omega arith)

ping_array_add-check_other_example :
    (ping_array_check 101 8 (ping_array_add 100 1001 true empty (1 ∷ 2 ∷ []) 2).0 17).1
    ≡ (ping_array_check 101 8 empty 17).1
ping_array_add-check_other_example =
    ping_array_add-check_other 100 1001 true empty (1 ∷ 2 ∷ []) 2 101 8 17 (omega arith)
      (omega arith)
