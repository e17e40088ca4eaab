-- ===== src/Prelude/Search.antt =====
-- Searches in lists: what `find` and `any` say of longer and shorter lists.
use runman_agent.Prelude.{
  ◌≡◌, refl, Bool, true, false, ◌||◌, some, List, [], ◌∷◌, ◌++◌, find, any, All, arith, inl, inr,
  Bool-cases,
}

absurd_bool : {B : Type 0} → true ≡ false → B
absurd_bool h = absurd (cc (h))

module _ {A : Type 0} where
  pub find_holds : (p : A → Bool) (xs : List A) {x : A} → find p xs ≡ some x → p x ≡ true
  unfolding find
  find_holds p [] e = ground arith
  find_holds p (y ∷ ys) {x} e = ground (arith, find_holds p ys {x = x})

  pub any-find :
      (p q : A → Bool) (xs : List A) {x : A} → find p xs ≡ some x → q x ≡ true → any q xs ≡ true
  unfolding find any
  any-find p q [] e h = ground arith
  any-find p q (y ∷ ys) {x} e h = ground (arith, any-find p q ys {x = x})

  pub any-append_left : (q : A → Bool) (xs ys : List A) → any q xs ≡ true → any q (xs ++ ys) ≡ true
  unfolding any
  any-append_left q [] ys h = ground arith
  any-append_left q (x ∷ xs) ys h = ground (arith, any-append_left q xs ys)

  pub any-append_last :
      (q : A → Bool) (xs : List A) (x : A) → q x ≡ true → any q (xs ++ x ∷ []) ≡ true
  unfolding any
  any-append_last q [] x h = ground arith
  any-append_last q (y ∷ ys) x h = ground (arith, any-append_last q ys x)

  pub any-remove :
      (q : A → Bool) (xs ys : List A) (x : A)
      → q x ≡ false
      → any q (xs ++ x ∷ ys) ≡ true
      → any q (xs ++ ys) ≡ true
  unfolding any
  any-remove q [] ys x h k = ground arith
  any-remove q (z ∷ zs) ys x h k = ground (arith, any-remove q zs ys x h)

  unfoldable pub rev_onto : List A → List A → List A
  rev_onto done [] = done
  rev_onto done (x ∷ xs) = rev_onto (x ∷ done) xs

  pub All-rev_onto :
      (P : A → Type 0) (done xs : List A) → All P (rev_onto done xs) → All P done × All P xs
  unfolding rev_onto
  All-rev_onto P done [] h = (h, tt)
  All-rev_onto P done (x ∷ xs) h = let (d, k) = All-rev_onto P (x ∷ done) xs h in (d.1, (d.0, k))

  pub any-rev_onto :
      (q : A → Bool) (done xs : List A)
      → any q done ≡ false
      → any q (rev_onto done xs) ≡ true
      → any q xs ≡ true
  unfolding rev_onto any
  any-rev_onto q done [] h k = ground arith
  any-rev_onto q done (x ∷ xs) h k = elim (Bool-cases (q x)) [
    | inl e ↦ rw e refl
    | inr e ↦ rw e (any-rev_onto q (x ∷ done) xs (rw e h) k)
  ]

  pub any-weaken :
      (p q : A → Bool)
      → ((x : A) → p x ≡ true → q x ≡ true)
      → (xs : List A) → any p xs ≡ true
      → any q xs ≡ true
  unfolding any
  any-weaken p q h [] k = ground arith
  any-weaken p q h (x ∷ xs) k = ground (arith, h x, any-weaken p q h xs)

  pub any-append : (q : A → Bool) (xs : List A) (x : A) → any q (xs ++ x ∷ []) ≡ (any q xs || q x)
  unfolding any
  any-append q [] x = ground arith
  any-append q (y ∷ ys) x = ground (arith, any-append q ys x)

  pub any-All_not : (q : A → Bool) (xs : List A) → any q xs ≡ false → All (λ x. q x ≡ false) xs
  unfolding any
  any-All_not q [] h = tt
  any-All_not q (x ∷ xs) h = elim (Bool-cases (q x)) [
    | inl e ↦ absurd_bool (rw e at h)
    | inr e ↦ (e, any-All_not q xs (rw e at h))
  ]
