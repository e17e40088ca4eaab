-- ===== src/Prelude/Effect.antt =====
-- Code that changes a state and may fail with `?`: what was changed before an error stays changed.
use runman_agent.Prelude.{
  Bool, true, false, ◌≡◌, refl, ◌⊎◌, inl, inr, arith, ◌≢◌, ◌∙◌, if◌then◌else◌,
}

pub data Result (E A : Type 0) : Type 0 where
  ok : A → Result E A
  err : E → Result E A

-- `r.is_ok()`
abbrev pub is_ok : {E A : Type 0} → Result E A → Bool
is_ok (ok a) = true
is_ok (err e) = false

-- To split on a computed result and keep the equation.
pub Result-cases :
    {E A : Type 0} (r : Result E A) → ((a : A) × (r ≡ ok a)) ⊎ ((e : E) × (r ≡ err e))
Result-cases (ok a) = inl (a, refl)
Result-cases (err e) = inr (e, refl)

abbrev pub Exec : Type 0 → Type 0 → Type 0 → Type 0
Exec E S A = S → Result E A × S

module _ {E S A : Type 0} where
  abbrev pub pure : A → Exec E S A
  pure a s = (ok a, s)

  -- `bail!`
  abbrev pub bail : E → Exec E S A
  bail e s = (err e, s)

  abbrev pub lift : Result E A → Exec E S A
  lift r s = (r, s)

module _ {E S A B : Type 0} where
  abbrev pub continue : (A → Exec E S B) → Result E A → Exec E S B
  continue f (ok a) s = f a s
  continue f (err e) s = (err e, s)

  infixl 5 ◌>>=◌ ◌>>◌
  abbrev pub ◌>>=◌ : Exec E S A → (A → Exec E S B) → Exec E S B
  ◌>>=◌ m f s = let (r, s') = m s in continue f r s'

  abbrev pub ◌>>◌ : Exec E S A → Exec E S B → Exec E S B
  m >> n = m >>= λ _. n

-- Whatever the outcome, the code keeps a property of the state.
pub record Keeps {E S A : Type 0} (P : S → Type 0) (m : Exec E S A) : Type 0 where
  pub keep : (s : S) → P s → P (m s).1

module _ {E S A : Type 0} {P : S → Type 0} where
  pub Keeps-then :
      {B : Type 0} {m : Exec E S A} {f : A → Exec E S B}
      → Keeps P m
      → ((a : A) → Keeps P (f a))
      → Keeps P (m >>= f)
  Keeps-then {B} {m} {f} k h = record {
    keep = λ s p. elim (Result-cases (m s).0) [
      | inl (a, e) ↦ rw e ((h a).keep (m s).1 (k.keep s p))
      | inr (x, e) ↦ rw e (k.keep s p)
    ];
  }

  -- What is known of the value of the first part serves the second.
  pub Keeps-given :
      {B : Type 0} {R : A → Type 0} {m : Exec E S A} {f : A → Exec E S B}
      → Keeps P m
      → ((s : S) (a : A) → (m s).0 ≡ ok a → R a)
      → ((a : A) → R a → Keeps P (f a))
      → Keeps P (m >>= f)
  Keeps-given {B} {R} {m} {f} k given h = record {
    keep = λ s p. elim (Result-cases (m s).0) [
      | inl (a, e) ↦ rw e ((h a (given s a e)).keep (m s).1 (k.keep s p))
      | inr (x, e) ↦ rw e (k.keep s p)
    ];
  }

  pub Keeps-if :
      (b : Bool) {m n : Exec E S A} → Keeps P m → Keeps P n → Keeps P (if b then m else n)
  Keeps-if true k h = k
  Keeps-if false k h = h

  pub Keeps-bail : (e : E) → Keeps {A = A} P (bail e)
  Keeps-bail e = record { keep = λ s p. p }

  pub Keeps-lift : (r : Result E A) → Keeps P (lift r)
  Keeps-lift r = record { keep = λ s p. p }

-- A chain of three steps that succeeds: what the last state satisfies if each step succeeds.
pub ok_chain :
    {E S A : Type 0} (m1 m2 n : Exec E S A) (Q : S → Type 0) (s : S)
    → is_ok ((m1 >> (m2 >> n)) s).0 ≡ true
    → (is_ok (m1 s).0 ≡ true
        → is_ok (m2 (m1 s).1).0 ≡ true
        → is_ok (n (m2 (m1 s).1).1).0 ≡ true
        → Q (n (m2 (m1 s).1).1).1)
    → Q ((m1 >> (m2 >> n)) s).1
ok_chain m1 m2 n Q s = elim (Result-cases (m1 s).0) [
  | inr (x, e) ↦ rw e (λ done. ground arith)
  | inl (a, e) ↦ elim (Result-cases (m2 (m1 s).1).0) [
    | inr (x, f) ↦ rw (e, f) (λ done. ground arith)
    | inl (b, f) ↦ rw (e, f) (λ done q. q refl refl done)
  ]
]

pub bound_chain :
    {E S A : Type 0} (m1 m2 n : Exec E S A) (x : E) (s : S)
    → (m1 s).0 ≢ err x
    → (m2 (m1 s).1).0 ≢ err x
    → (n (m2 (m1 s).1).1).0 ≢ err x
    → ((m1 >> (m2 >> n)) s).0 ≢ err x
bound_chain m1 m2 n x s h1 h2 h3 = elim (Result-cases (m1 s).0) [
  | inr (y, e) ↦ rw e (λ q. h1 (e ∙ q))
  | inl (a, e) ↦ elim (Result-cases (m2 (m1 s).1).0) [
    | inr (y, f) ↦ rw (e, f) (λ q. h2 (f ∙ q))
    | inl (b, f) ↦ rw (e, f) h3
  ]
]

-- What holds after the code: `Q` of its value and the state if it succeeds, else `F` of the state.
abbrev pub Outcome : {E S A : Type 0} → (A → S → Type 0) → (S → Type 0) → Result E A → S → Type 0
Outcome Q F (ok a) s = Q a s
Outcome Q F (err e) s = F s

-- From a state with `P`.
pub record Meets {E S A : Type 0} (P : S → Type 0) (m : Exec E S A) (Q : A → S → Type 0)
    (F : S → Type 0) : Type 0 where
  pub meet : (s : S) → P s → Outcome Q F (m s).0 (m s).1

module _ {E S A : Type 0} {P : S → Type 0} {Q : A → S → Type 0} {F : S → Type 0} where
  pub Meets-then :
      {B : Type 0} {R : B → S → Type 0} {m : Exec E S A} {f : A → Exec E S B}
      → Meets P m Q F
      → ((a : A) → Meets (Q a) (f a) R F)
      → Meets P (m >>= f) R F
  Meets-then {B} {R} {m} {f} k h = record {
    meet = λ s p.
        let o = k.meet s p in
        elim (Result-cases (m s).0) [
          | inl (a, e) ↦ rw e ((h a).meet (m s).1 (rw e at o))
          | inr (x, e) ↦ rw e (rw e at o)
        ];
  }

-- A property that is kept holds of both outcomes.
pub Keeps-Outcome :
    {E S A : Type 0} {P : S → Type 0} {m : Exec E S A}
    → Keeps P m
    → (s : S) → P s
    → Outcome (λ _. P) P (m s).0 (m s).1
Keeps-Outcome {m} k s p = elim (Result-cases (m s).0) [
  | inl (a, e) ↦ rw e (k.keep s p)
  | inr (x, e) ↦ rw e (k.keep s p)
]

-- What holds of the state after both outcomes.
pub Outcome-same :
    {E S A T : Type 0} (P : T → Type 0) (f : S → T) (r : Result E A × S)
    → Outcome (λ _ s. P (f s)) (λ s. P (f s)) r.0 r.1
    → P (f r.1)
Outcome-same P f (ok a, s) h = h
Outcome-same P f (err e, s) h = h

pub Outcome-weaken :
    {E S A : Type 0} (Q R : A → S → Type 0) (F : S → Type 0) (r : Result E A × S)
    → ((a : A) (s : S) → Q a s → R a s)
    → Outcome Q F r.0 r.1
    → Outcome R F r.0 r.1
Outcome-weaken Q R F (ok a, s) f h = f a s h
Outcome-weaken Q R F (err e, s) f h = h

-- What holds if the code succeeds.
pub Outcome-ok :
    {E S A : Type 0} (P F : S → Type 0) (r : Result E A × S)
    → Outcome (λ _. P) F r.0 r.1
    → is_ok r.0 ≡ true
    → P r.1
Outcome-ok P F (ok a, s) h k = h
Outcome-ok P F (err e, s) h k = ground arith

-- A property that is kept, where nothing is asked of a failure.
pub Keeps-Meets :
    {E S A : Type 0} {P : S → Type 0} {m : Exec E S A}
    → Keeps P m
    → Meets P m (λ _. P) (λ _. Unit {0})
Keeps-Meets {m} k = record {
  meet =
      λ s p. elim (Result-cases (m s).0) [ inl (a, e) ↦ rw e (k.keep s p) | inr (x, e) ↦ rw e tt ];
}

pub Meets-if :
    {E S A : Type 0} {P : S → Type 0} {Q : A → S → Type 0} {F : S → Type 0} (b : Bool)
    {m n : Exec E S A}
    → Meets P m Q F
    → Meets P n Q F
    → Meets P (if b then m else n) Q F
Meets-if true k h = k
Meets-if false k h = h

pub Meets-Keeps :
    {E S A : Type 0} {P : S → Type 0} {m : Exec E S A} → Meets P m (λ _. P) P → Keeps P m
Meets-Keeps {P} {m} k = record { keep = λ s p. Outcome-same P (λ s'. s') (m s) (k.meet s p) }

-- `?` in code that changes no state.
abbrev pub and_then : {E A B : Type 0} → Result E A → (A → Result E B) → Result E B
and_then (ok a) f = f a
and_then (err e) f = err e

-- What holds of the value of a result, if it has one.
abbrev pub AllOk : {E A : Type 0} → (A → Type 0) → Result E A → Type 0
AllOk Q (ok a) = Q a
AllOk Q (err e) = Unit

pub and_then-AllOk :
    {E A B : Type 0} (Q : B → Type 0) (r : Result E A) (f : A → Result E B)
    → ((a : A) → r ≡ ok a → AllOk Q (f a))
    → AllOk Q (and_then r f)
and_then-AllOk Q (ok a) f h = h a refl
and_then-AllOk Q (err e) f h = tt

pub AllOk-ok : {E A : Type 0} (Q : A → Type 0) (r : Result E A) {a : A} → r ≡ ok a → AllOk Q r → Q a
AllOk-ok Q r e h = rw e at h
