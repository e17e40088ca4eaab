-- ===== src/Traffic/Schedule/Order.antt =====
-- src/traffic.rs: the order of the periods of the months.
use runman_agent.Prelude.{
  ℕ, zero, suc, ◌+◌, ◌-◌, ◌*◌, ◌≡◌, refl, sym, ◌∙◌, arith, ◌⊎◌, inl, inr, dec_le,
}
use runman_agent.Prelude.Int.{ℤ, pos, pos_part, neg_part, ◌≤ℤ◌, ◌<ℤ◌, +ℤ_parts, eq_of_parts}
use runman_agent.Traffic.Calendar.{next_month}
use runman_agent.Traffic.Schedule.{start_of}
use runman_agent.Traffic.Schedule.Starts.{first-le-start, start-lt-next}
use runman_agent.Traffic.Schedule.Periods.{IsMonth, IsAnchor, InPeriod, next_month-IsMonth}

-- The month `k` months after `p`.
abbrev later : ℕ → ℤ × ℕ → ℤ × ℕ
later zero p = p
later (suc k) p = later k (next_month p.0 p.1)

-- `q` is `k` months after `p`, by their numbers.
abbrev Apart : ℤ × ℕ → ℤ × ℕ → ℕ → Type 0
Apart p q k =
    12 * pos_part p.0 + p.1 + 12 * neg_part q.0 + k ≡ 12 * pos_part q.0 + q.1 + 12 * neg_part p.0

month_path : (p q : ℤ × ℕ) → IsMonth p → IsMonth q → Apart p q 0 → p ≡ q
month_path p q h k e =
    let m : p.1 ≡ q.1 = omega arith in
    let y : p.0 ≡ q.0 = eq_of_parts _ _ (omega arith) in ground arith

next-Apart : (p : ℤ × ℕ) → IsMonth p → Apart p (next_month p.0 p.1) 1
unfolding next_month
next-Apart p h = ground (arith, +ℤ_parts p.0 (pos 1))

later-reaches : (k : ℕ) (p q : ℤ × ℕ) → IsMonth p → IsMonth q → Apart p q k → later k p ≡ q
later-reaches zero p q h j e = month_path p q h j e
later-reaches (suc k) p q h j e =
    later-reaches k (next_month p.0 p.1) q (next_month-IsMonth p h) j
      (omega (arith, next-Apart p h))

in_order : (p q : ℤ × ℕ) → ((k : ℕ) × Apart p q k) ⊎ ((k : ℕ) × Apart q p k)
in_order p q =
    elim (dec_le (12 * pos_part p.0 + p.1 + 12 * neg_part q.0)
      (12 * pos_part q.0 + q.1 + 12 * neg_part p.0)) [
        | yes h ↦ inl (
          12 * pos_part q.0
              + q.1
              + 12 * neg_part p.0
              - (12 * pos_part p.0 + p.1 + 12 * neg_part q.0),
          omega arith,
        )
        | no h ↦ inr (
          12 * pos_part p.0
              + p.1
              + 12 * neg_part q.0
              - (12 * pos_part q.0 + q.1 + 12 * neg_part p.0),
          omega arith,
        )
      ]

module _ (a : ℕ × ℕ) (bounds : IsAnchor a) where
  -- Each period starts after the one before.
  pub start-lt-start :
      (p : ℤ × ℕ)
      → IsMonth p
      → start_of a p.0 p.1 <ℤ start_of a (next_month p.0 p.1).0 (next_month p.0 p.1).1
  start-lt-start p h =
      let n = next_month p.0 p.1 in
      let q = next_month-IsMonth p h in
      omega
        (arith, start-lt-next a p.0 p.1 h.0 h.1 bounds.1, first-le-start a n.0 n.1 q.0 q.1 bounds.0)

  start-le-later :
      (k : ℕ) (p : ℤ × ℕ) → IsMonth p → start_of a p.0 p.1 ≤ℤ start_of a (later k p).0 (later k p).1
  start-le-later zero p h = omega arith
  start-le-later (suc k) p h =
      omega
        (arith, start-lt-start p h, start-le-later k (next_month p.0 p.1) (next_month-IsMonth p h))

  same_period :
      (t : ℤ) (k : ℕ) (p : ℤ × ℕ) → InPeriod a p t → InPeriod a (later k p) t → p ≡ later k p
  same_period t zero p h j = refl
  same_period t (suc k) p h j =
      absurd (omega (arith, start-le-later k (next_month p.0 p.1) (next_month-IsMonth p h.0)))

  -- No moment lies in two periods.
  pub InPeriod-unique : (t : ℤ) (p q : ℤ × ℕ) → InPeriod a p t → InPeriod a q t → p ≡ q
  InPeriod-unique t p q h j = elim (in_order p q) [
    | inl (k, e) ↦
        let reached = later-reaches k p q h.0 j.0 e in same_period t k p h (rw reached j) ∙ reached
    | inr (k, e) ↦
        let reached = later-reaches k q p j.0 h.0 e in
        sym (same_period t k q j (rw reached h) ∙ reached)
  ]
