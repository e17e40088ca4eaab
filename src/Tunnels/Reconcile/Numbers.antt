-- ===== src/Tunnels/Reconcile/Numbers.antt =====
-- src/runtime/wg.rs: the numbers of the slots across `Tunnels::reconcile`.
use runman_agent.Prelude.{
  ℕ, ◌≡◌, refl, sym, String, true, false, Option, none, some, List, [], ◌∷◌, All, retain, str_eq,
  str_eq_iff, arith, inl, inr, Bool-cases,
}
use runman_agent.Connlimit.Policy.{Texts}
use runman_agent.HostPolicy.Text.{str_lt}
use runman_agent.Tunnels.{
  Bind, Slot, get, replace, add, insert, remove, is_present, numbers, Names, Host, Ctx,
}
use runman_agent.Tunnels.Slots.{
  NoRepeat, remove-NoRepeat, insert-NoRepeat_same, insert-NoRepeat_new,
}
use runman_agent.Tunnels.Reconcile.{reconcile, stale, is_wanted}
use runman_agent.Tunnels.Reconcile.Distinct.{Stable, reconcile-Held}

NoRepeat-Stable : Stable (λ _. Unit) (λ m. NoRepeat (numbers m))
NoRepeat-Stable = record {
  removed = λ k m g i. remove-NoRepeat k m i;
  same = λ k slot old m h e i. insert-NoRepeat_same k slot m h e i;
  new = λ k slot m h u i. insert-NoRepeat_new k slot m h u i;
}

All-Unit : {A : Type 0} (xs : List A) → All (λ _. Unit {0}) xs
All-Unit [] = tt
All-Unit (x ∷ xs) = (tt, All-Unit xs)

module _ {V : Type 0} where
  get-replace_other :
      (k r : String) (v : V) (m : List (String × V))
      → str_eq k r ≡ false
      → get r (replace k v m) ≡ get r m
  unfolding get replace
  get-replace_other k r v [] h = refl
  get-replace_other k r v ((j, w) ∷ m) h = elim (Bool-cases (str_eq j k)) [
    | inl e ↦ rw (e, h, (str_eq_iff j k).0 e) (rw h refl)
    | inr e ↦ rw (e, get-replace_other k r v m h) refl
  ]

  get-add_other :
      (k r : String) (v : V) (m : List (String × V))
      → str_eq k r ≡ false
      → get r (add k v m) ≡ get r m
  unfolding get add
  get-add_other k r v [] h = rw h refl
  get-add_other k r v ((j, w) ∷ m) h = elim (Bool-cases (str_lt k j)) [
    | inl e ↦ rw (e, h) refl
    | inr e ↦ rw (e, get-add_other k r v m h) refl
  ]

  get-insert_other :
      (k r : String) (v : V) (m : List (String × V))
      → str_eq k r ≡ false
      → get r (insert k v m) ≡ get r m
  unfolding insert
  get-insert_other k r v m h = elim (Bool-cases (is_present (get k m))) [
    | inl e ↦ rw e (get-replace_other k r v m h)
    | inr e ↦ rw e (get-add_other k r v m h)
  ]

  get-replace :
      (k : String) (v : V) (m : List (String × V)) {old : V}
      → get k m ≡ some old
      → get k (replace k v m) ≡ some v
  unfolding get replace
  get-replace k v [] {old} h = ground arith
  get-replace k v ((j, w) ∷ m) {old} h = elim (Bool-cases (str_eq j k)) [
    | inl e ↦ rw (e, (str_eq_iff k k).1 refl) refl
    | inr e ↦ rw (e, e) (get-replace k v m (rw e at h))
  ]

  get-insert_present :
      (k : String) (v : V) (m : List (String × V)) {old : V}
      → get k m ≡ some old
      → get k (insert k v m) ≡ some v
  unfolding insert
  get-insert_present k v m {old} h = rw h (get-replace k v m h)

  get-remove_other :
      (k r : String) (m : List (String × V)) → str_eq k r ≡ false → get r (remove k m) ≡ get r m
  unfolding get remove retain
  get-remove_other k r [] h = refl
  get-remove_other k r ((j, w) ∷ m) h = elim (Bool-cases (str_eq j k)) [
    | inl e ↦ rw (e, (str_eq_iff j k).0 e, h) (get-remove_other k r m h)
    | inr e ↦ rw (e, get-remove_other k r m h) refl
  ]

-- The number of a slot, where there is one.
abbrev pub number_of : Option Slot → Option ℕ
number_of none = none
number_of (some slot) = some slot.n

number-Stable :
    (r : String) (n : ℕ) → Stable (λ k. str_eq k r ≡ false) (λ m. number_of (get r m) ≡ some n)
number-Stable r n = record {
  removed = λ k m g i. rw (get-remove_other k r m g) i;
  same = λ k slot old m h e i. elim (Bool-cases (str_eq k r)) [
    | inr g ↦ rw (get-insert_other k r slot m g) i
    | inl g ↦
        let q = (str_eq_iff k r).0 g in
        rw (sym q, get-insert_present k slot m h, sym e) (rw (sym q, h) at i)
  ];
  new = λ k slot m h u i. elim (Bool-cases (str_eq k r)) [
    | inr g ↦ rw (get-insert_other k r slot m g) i
    | inl g ↦ absurd (cc (rw (sym ((str_eq_iff k r).0 g), h) at i))
  ];
}

module _ {W : Type 0} (host : Host W) (texts : Texts) (names : Names) (fuel : ℕ) where
  -- No two slots have the same number after `Tunnels::reconcile` if none had before, whatever it
  -- returns and whichever commands fail.
  pub reconcile-NoRepeat :
      (desired : List Bind) (s : Ctx W)
      → NoRepeat (numbers s.slots)
      → NoRepeat (numbers (reconcile host texts names fuel desired s).1.slots)
  reconcile-NoRepeat desired s i =
      (reconcile-Held NoRepeat-Stable host texts names fuel desired λ slots. All-Unit _).keep s i

  stale-wanted :
      (desired : List Bind) (r : String) (slots : List (String × Slot))
      → is_wanted desired r ≡ true
      → All (λ k. str_eq k r ≡ false) (stale desired slots)
  unfolding stale retain
  stale-wanted desired r [] h = tt
  stale-wanted desired r ((k, slot) ∷ slots) h = elim (Bool-cases (is_wanted desired k)) [
    | inl e ↦ rw e (stale-wanted desired r slots h)
    | inr e ↦ elim (Bool-cases (str_eq k r)) [
      | inl f ↦ absurd (cc (h, rw ((str_eq_iff k r).0 f) at e))
      | inr f ↦ rw e (f, stale-wanted desired r slots h)
    ]
  ]

  -- The slot of a binding that is still desired keeps its number, so its interface and its table keep
  -- their names, whatever `Tunnels::reconcile` returns and whichever commands fail.
  pub reconcile-number :
      (desired : List Bind) (r : String) (s : Ctx W) {slot : Slot}
      → is_wanted desired r ≡ true
      → get r s.slots ≡ some slot
      → number_of (get r (reconcile host texts names fuel desired s).1.slots) ≡ some slot.n
  reconcile-number desired r s {slot} h e =
      (reconcile-Held (number-Stable r slot.n) host texts names fuel desired
          λ slots. stale-wanted desired r slots h).keep
        s (rw e refl)
