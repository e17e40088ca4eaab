-- ===== src/Tunnels/Slots.antt =====
-- src/runtime/wg.rs: the numbers of the slots, and `free_n`.
use runman_agent.Prelude.{
  ℕ, zero, suc, ◌+◌, ◌≤◌, ◌<◌, ◌≡◌, refl, inl, inr, String, Bool, true, false, ◌||◌, none, some,
  List, [], ◌∷◌, any, retain, ◌==◌, arith, Bool-cases, ==_iff,
}
use runman_agent.HostPolicy.Text.{str_lt}
use runman_agent.Tunnels.{
  Slot, get, replace, add, insert, remove, numbers, holds, greatest, first_free, free_n,
}

-- No two numbers are equal.
abbrev pub NoRepeat : List ℕ → Type 0
NoRepeat [] = Unit
NoRepeat (n ∷ ns) = (holds ns n ≡ false) × NoRepeat ns

beyond_greatest : (ns : List ℕ) (n : ℕ) → greatest ns < n → holds ns n ≡ false
unfolding greatest any
beyond_greatest [] n h = refl
beyond_greatest (m ∷ ns) n h = ground (arith, beyond_greatest ns n)

first_free-unused :
    (fuel n : ℕ) (used : List ℕ)
    → greatest used < fuel + n
    → holds used (first_free fuel n used) ≡ false
unfolding first_free
first_free-unused zero n used h = beyond_greatest used n (omega arith)
first_free-unused (suc fuel) n used h = elim (Bool-cases (holds used n)) [
  | inl e ↦ rw e (first_free-unused fuel (n + 1) used (omega arith))
  | inr e ↦ rw e e
]

first_free-least :
    (fuel n m : ℕ) (used : List ℕ) → n ≤ m → m < first_free fuel n used → holds used m ≡ true
unfolding first_free
first_free-least zero n m used h k = absurd (omega arith)
first_free-least (suc fuel) n m used h k = elim (Bool-cases (holds used n)) [
  | inr e ↦ absurd (omega (arith, rw e at k))
  | inl e ↦ elim (Bool-cases (m == n)) [
    | inl f ↦ rw ((==_iff m n).0 f) e
    | inr f ↦ first_free-least fuel (n + 1) m used (ground arith) (rw e at k)
  ]
]

-- The number that is chosen is the first that no slot has.
pub free_n-first :
    (slots : List (String × Slot))
    → (holds (numbers slots) (free_n slots) ≡ false)
      × ((m : ℕ) → m < free_n slots → holds (numbers slots) m ≡ true)
unfolding free_n
free_n-first slots =
    let used = numbers slots in
    (
      first_free-unused (suc (greatest used)) 0 used (omega arith),
      λ m. first_free-least (suc (greatest used)) 0 m used (omega arith),
    )

holds-add :
    (k : String) (slot : Slot) (m : List (String × Slot)) (n : ℕ)
    → holds (numbers (add k slot m)) n ≡ ((slot.n == n) || holds (numbers m) n)
unfolding add any
holds-add k slot [] n = ground arith
holds-add k slot ((j, w) ∷ m) n = elim (Bool-cases (str_lt k j)) [
  | inl e ↦ rw e (ground arith)
  | inr e ↦ rw e (ground (arith, holds-add k slot m n))
]

add-NoRepeat :
    (k : String) (slot : Slot) (m : List (String × Slot))
    → holds (numbers m) slot.n ≡ false
    → NoRepeat (numbers m)
    → NoRepeat (numbers (add k slot m))
unfolding add any
add-NoRepeat k slot [] h i = ground arith
add-NoRepeat k slot ((j, w) ∷ m) h (i, is) = elim (Bool-cases (str_lt k j)) [
  | inl e ↦ rw e (h, (i, is))
  | inr e ↦ rw e (ground (arith, holds-add k slot m w.n), add-NoRepeat k slot m (ground arith) is)
]

numbers-replace :
    (k : String) (slot : Slot) (m : List (String × Slot)) {old : Slot}
    → get k m ≡ some old
    → old.n ≡ slot.n
    → numbers (replace k slot m) ≡ numbers m
unfolding get replace
numbers-replace k slot [] {old} h e = ground arith
numbers-replace k slot ((j, w) ∷ m) {old} h e = ground (arith, numbers-replace k slot m {old = old})

holds-retain :
    (p : String × Slot → Bool) (m : List (String × Slot)) (n : ℕ)
    → holds (numbers m) n ≡ false
    → holds (numbers (retain p m)) n ≡ false
unfolding retain any
holds-retain p [] n h = refl
holds-retain p (e ∷ m) n h = ground (arith, holds-retain p m n)

retain-NoRepeat :
    (p : String × Slot → Bool) (m : List (String × Slot))
    → NoRepeat (numbers m)
    → NoRepeat (numbers (retain p m))
unfolding retain
retain-NoRepeat p [] i = tt
retain-NoRepeat p (e ∷ m) (i, is) = elim (Bool-cases (p e)) [
  | inl q ↦ rw q (holds-retain p m e.1.n i, retain-NoRepeat p m is)
  | inr q ↦ rw q (retain-NoRepeat p m is)
]

pub remove-NoRepeat :
    (k : String) (m : List (String × Slot)) → NoRepeat (numbers m) → NoRepeat (numbers (remove k m))
unfolding remove
remove-NoRepeat k m i = retain-NoRepeat _ m i

-- A slot that keeps its number.
pub insert-NoRepeat_same :
    (k : String) (slot : Slot) (m : List (String × Slot)) {old : Slot}
    → get k m ≡ some old
    → old.n ≡ slot.n
    → NoRepeat (numbers m)
    → NoRepeat (numbers (insert k slot m))
unfolding insert
insert-NoRepeat_same k slot m {old} h e i = rw (h, numbers-replace k slot m h e) i

-- A slot with an unused number.
pub insert-NoRepeat_new :
    (k : String) (slot : Slot) (m : List (String × Slot))
    → get k m ≡ none
    → holds (numbers m) slot.n ≡ false
    → NoRepeat (numbers m)
    → NoRepeat (numbers (insert k slot m))
unfolding insert
insert-NoRepeat_new k slot m h u i = rw h (add-NoRepeat k slot m u i)
