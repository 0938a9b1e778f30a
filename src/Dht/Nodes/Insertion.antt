-- ===== src/Dht/Nodes/Insertion.antt =====
-- toxcore/DHT.c: ascending distances, and the insertion of a distance.
use insert_project_name_here.Base.{
  ℕ, zero, suc, ◌≤◌, ◌≡◌, refl, ap, ◌∙◌, Bool, true, false, ◌||◌, List, [], ◌∷◌, arith, take, ltb,
  ◌==◌, if◌then◌else◌, if_elim, Bool-cases, inl, inr,
}
use insert_project_name_here.Dht.Nodes.Distance.{order}

-- The insertion of a number into an ascending list.
abbrev pub insert : ℕ → List ℕ → List ℕ
insert d [] = d ∷ []
insert d (e ∷ es) = if ltb d e then d ∷ e ∷ es else e ∷ insert d es

abbrev pub Least : ℕ → List ℕ → Type 0
Least d [] = Unit
Least d (e ∷ es) = d ≤ e

abbrev pub Ascending : List ℕ → Type 0
Ascending [] = Unit
Ascending (d ∷ ds) = Least d ds × Ascending ds

pub insert-Least : (d : ℕ) (ds : List ℕ) → Least d ds → Ascending ds → insert d ds ≡ d ∷ ds
insert-Least d [] h w = refl
insert-Least d (e ∷ es) h w = elim (Bool-cases (ltb d e)) [
  | inl q ↦ rw q refl
  | inr q ↦
      let same : d ≡ e = ground (arith, q, h) in
      let swapped : e ∷ d ∷ es ≡ d ∷ e ∷ es = rw same refl in
      rw q (ap (λ l. e ∷ l) (insert-Least d es (rw same w.0) w.1) ∙ swapped)
]

Least-insert : (c d : ℕ) (ds : List ℕ) → c ≤ d → Least c ds → Least c (insert d ds)
Least-insert c d [] h w = h
Least-insert c d (e ∷ es) h w = if_elim (Least c) (ltb d e) _ _ (λ _. h) (λ _. w)

pub insert-Ascending : (d : ℕ) (ds : List ℕ) → Ascending ds → Ascending (insert d ds)
insert-Ascending d [] w = (tt, tt)
insert-Ascending d (e ∷ es) w =
    if_elim Ascending (ltb d e) _ _ (λ q. (ground (arith, q), w))
      (λ q. (Least-insert e d es (ground (arith, q)) w.0, insert-Ascending d es w.1))

Least-take : (k c : ℕ) (ds : List ℕ) → Least c ds → Least c (take k ds)
Least-take zero c ds w = tt
Least-take (suc k) c [] w = tt
Least-take (suc k) c (d ∷ ds) w = w

pub take-Ascending : (k : ℕ) (ds : List ℕ) → Ascending ds → Ascending (take k ds)
take-Ascending zero ds w = tt
take-Ascending (suc k) [] w = tt
take-Ascending (suc k) (d ∷ ds) w = (Least-take k d ds w.0, take-Ascending k ds w.1)

-- Whether a number is less than one of the list.
abbrev pub is_closer : ℕ → List ℕ → Bool
is_closer d [] = false
is_closer d (e ∷ es) = ltb d e || is_closer d es

pub not_closer : (m n : ℕ) → m ≤ n → ltb n m ≡ false
not_closer m n h = ground (arith, h)

pub order_two : (m n : ℕ) → (order m n == 2) ≡ ltb n m
order_two m n = ground arith

pub less_weak : (m n : ℕ) → ltb m n ≡ true → m ≤ n
less_weak m n h = ground (arith, h)

pub not_less : (m n : ℕ) → ltb m n ≡ false → n ≤ m
not_less m n h = ground (arith, h)
