-- ===== src/PingArray/Expiry.antt =====
-- toxcore/ping_array.c: what the deletion of timed out entries leaves.
use insert_project_name_here.Base.{
  ℕ, zero, suc, ◌%◌, ◌≡◌, ◌⊎◌, inl, inr, refl, ap, ◌∙◌, true, Bool-cases, arith, ◌==◌, ==_iff,
  sub32,
}
use insert_project_name_here.PingArray.{
  PingArray, PingArrayEntry, is_timeout, blank, clear_entry, clear_first, clear_timedout,
  ping_array_clear_timedout,
}

-- An entry that stays, or one that was timed out and is blank now.
abbrev pub Expired : ℕ → ℕ → PingArrayEntry → PingArrayEntry → Type 0
Expired now timeout e e' = (e' ≡ e) ⊎ ((is_timeout now e.time timeout ≡ true) × (e' ≡ blank))

pub record Pruned (now : ℕ) (a b : PingArray) : Type 0 where
  pub size : b.total_size ≡ a.total_size
  pub life : b.timeout ≡ a.timeout
  pub added : b.last_added ≡ a.last_added
  pub each : (j : ℕ) → Expired now a.timeout (a.entries j) (b.entries j)

clear_first-Pruned :
    (now : ℕ) (a : PingArray)
    → is_timeout now (a.entries (a.last_deleted % a.total_size)).time a.timeout ≡ true
    → Pruned now a (clear_first a)
unfolding clear_entry
clear_first-Pruned now a t = record {
  size = refl;
  life = refl;
  added = refl;
  each = λ j. elim (Bool-cases (j == a.last_deleted % a.total_size)) [
    | inl e ↦
        inr ((ap (λ k. is_timeout now (a.entries k).time a.timeout) ((==_iff j _).0 e)) ∙ t, rw e)
    | inr e ↦ inl (rw e)
  ];
}

Pruned-trans : {now : ℕ} {a b c : PingArray} → Pruned now a b → Pruned now b c → Pruned now a c
Pruned-trans {now} {a} {b} {c} p q = record {
  size = q.size ∙ p.size;
  life = q.life ∙ p.life;
  added = q.added ∙ p.added;
  each = λ j. ground (arith, p.each j, q.each j, p.life);
}

clear_timedout-Pruned : (now fuel : ℕ) (a : PingArray) → Pruned now a (clear_timedout now fuel a)
unfolding clear_timedout
clear_timedout-Pruned now zero a = record {
  size = refl;
  life = refl;
  added = refl;
  each = λ j. inl refl;
}
clear_timedout-Pruned now (suc fuel) a = elim (Bool-cases (a.last_deleted == a.last_added)) [
  | inl e ↦ rw e (record { size = refl; life = refl; added = refl; each = λ j. inl refl })
  | inr e ↦
      elim (Bool-cases
        (is_timeout now (a.entries (a.last_deleted % a.total_size)).time a.timeout)) [
          | inl t ↦
              rw (e, t)
                (Pruned-trans (clear_first-Pruned now a t)
                  (clear_timedout-Pruned now fuel (clear_first a)))
          | inr t ↦
              rw (e, t) (record { size = refl; life = refl; added = refl; each = λ j. inl refl })
        ]
]

pub ping_array_clear_timedout-Pruned :
    (now : ℕ) (a : PingArray) → Pruned now a (ping_array_clear_timedout now a)
unfolding ping_array_clear_timedout
ping_array_clear_timedout-Pruned now a =
    clear_timedout-Pruned now (sub32 a.last_added a.last_deleted) a
