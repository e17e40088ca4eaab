-- ===== src/Traffic/Counters/Totals.antt =====
-- What the counters say after a run of samples of one interface.
use runman_agent.Prelude.{
  ℕ, ◌+◌, ◌-◌, ◌≤◌, ◌<◌, ◌≡◌, String, List, [], ◌∷◌, arith, ◌==◌, if◌then◌else◌, str_eq_iff,
  str_eq_refl, not,
}
use runman_agent.Traffic.Counters.{Traffic, u64_mod, add_u64, delta, restart, update, month}

pub record Sample : Type 0 where
  pub rx : ℕ
  pub tx : ℕ

-- The samples of one interface, in order, all taken in one period.
pub feed : ℕ → String → List Sample → Traffic → Traffic
feed i period [] t = t
feed i period (s ∷ ss) t = feed i period ss (update i s.rx s.tx period t)

-- The counters of an interface never fall while it exists.
abbrev pub Rising : ℕ → ℕ → List Sample → Type 0
Rising r x [] = Unit {0}
Rising r x (s ∷ ss) = (r ≤ s.rx) × (x ≤ s.tx) × Rising s.rx s.tx ss

abbrev pub final_rx : ℕ → List Sample → ℕ
final_rx r [] = r
final_rx r (s ∷ ss) = final_rx s.rx ss

abbrev pub final_tx : ℕ → List Sample → ℕ
final_tx x [] = x
final_tx x (s ∷ ss) = final_tx s.tx ss

final_rx-le : (r x : ℕ) (ss : List Sample) → Rising r x ss → r ≤ final_rx r ss
final_rx-le r x [] h = omega arith
final_rx-le r x (s ∷ ss) h = omega (arith, final_rx-le s.rx s.tx ss h.2)

final_tx-le : (r x : ℕ) (ss : List Sample) → Rising r x ss → x ≤ final_tx x ss
final_tx-le r x [] h = omega arith
final_tx-le r x (s ∷ ss) h = omega (arith, final_tx-le s.rx s.tx ss h.2)

-- What the interface `i` had counted when it was last seen: nothing, if another was seen last.
abbrev pub seen_rx : ℕ → Traffic → ℕ
seen_rx i t = if i == t.last_ifindex then t.last_rx else 0

abbrev pub seen_tx : ℕ → Traffic → ℕ
seen_tx i t = if i == t.last_ifindex then t.last_tx else 0

-- `u` has counted `rx` and `tx` bytes more than `t`, in its totals and in the month `period`.
pub record Grown (period : String) (rx tx : ℕ) (t u : Traffic) : Type 0 where
  pub total_out_grown : u.total_out ≡ add_u64 t.total_out rx
  pub total_in_grown : u.total_in ≡ add_u64 t.total_in tx
  pub month_out_grown : (month period u).1 ≡ add_u64 (month period t).1 rx
  pub month_in_grown : (month period u).0 ≡ add_u64 (month period t).0 tx

-- The totals are 64-bit numbers.
pub record IsU64 (t : Traffic) : Type 0 where
  pub total_out_lt : t.total_out < u64_mod
  pub total_in_lt : t.total_in < u64_mod
  pub month_out_lt : t.month_out < u64_mod
  pub month_in_lt : t.month_in < u64_mod

pub update-IsU64 : (i rx tx : ℕ) (period : String) (t : Traffic) → IsU64 (update i rx tx period t)
unfolding update
update-IsU64 i rx tx period t = record {
  total_out_lt = omega arith;
  total_in_lt = omega arith;
  month_out_lt = omega arith;
  month_in_lt = omega arith;
}

delta-seen :
    (i last_ifindex last cur : ℕ)
    → (if i == last_ifindex then last else 0) ≤ cur
    → delta (not (i == last_ifindex)) cur last ≡ cur - (if i == last_ifindex then last else 0)
unfolding delta
delta-seen i last_ifindex last cur h = ground arith

update-Grown :
    (i rx tx : ℕ) (period : String) (t : Traffic)
    → seen_rx i t ≤ rx
    → seen_tx i t ≤ tx
    → Grown period (rx - seen_rx i t) (tx - seen_tx i t) t (update i rx tx period t)
unfolding update month restart
update-Grown i rx tx period t h k =
    let d_out = delta-seen i t.last_ifindex t.last_rx rx h in
    let d_in = delta-seen i t.last_ifindex t.last_tx tx k in
    ground (arith, d_out, d_in, str_eq_iff t.period period, str_eq_refl period)

Grown-trans :
    {period : String} {r x r' x' : ℕ} {t u v : Traffic}
    → Grown period r x t u
    → Grown period r' x' u v
    → Grown period (r + r') (x + x') t v
Grown-trans g h = omega arith

seen-update :
    (i rx tx : ℕ) (period : String) (t : Traffic)
    → (seen_rx i (update i rx tx period t) ≡ rx) × (seen_tx i (update i rx tx period t) ≡ tx)
unfolding update
seen-update i rx tx period t = (ground arith, ground arith)

abbrev growth_rx : ℕ → List Sample → Traffic → ℕ
growth_rx i ss t = final_rx (seen_rx i t) ss - seen_rx i t

abbrev growth_tx : ℕ → List Sample → Traffic → ℕ
growth_tx i ss t = final_tx (seen_tx i t) ss - seen_tx i t

-- From totals of 64 bits, a run of rising samples of one interface in one period adds to the totals,
-- and to the month, what the interface counted since it was last seen, or all that it counted if
-- another interface was seen last.
pub feed-Grown :
    (i : ℕ) (period : String) (ss : List Sample) (t : Traffic)
    → IsU64 t
    → Rising (seen_rx i t) (seen_tx i t) ss
    → Grown period (growth_rx i ss t) (growth_tx i ss t) t (feed i period ss t)
unfolding feed
feed-Grown i period [] t v h = unfold month in ground arith
feed-Grown i period (s ∷ ss) t v h =
    let u = update i s.rx s.tx period t in
    let seen = seen-update i s.rx s.tx period t in
    let step = update-Grown i s.rx s.tx period t h.0 h.1 in
    let rest =
      feed-Grown i period ss u (update-IsU64 i s.rx s.tx period t) (rw (seen.0, seen.1) h.2) in
    let counted : Grown period (final_rx s.rx ss - s.rx) (final_tx s.tx ss - s.tx) u
        (feed i period ss u) =
      rw (seen.0, seen.1) at rest in
    omega (arith, final_rx-le s.rx s.tx ss h.2, final_tx-le s.rx s.tx ss h.2)
