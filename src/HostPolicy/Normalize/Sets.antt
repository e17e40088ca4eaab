-- ===== src/HostPolicy/Normalize/Sets.antt =====
-- src/hostpolicy.rs: the sets of texts that `normalize_policy` makes.
use Prim.Native.Char.{Char, char, code}
use runman_agent.Prelude.{
  ◌⊎◌, dec_lt, ℕ, suc, ◌<◌, ◌≤◌, ◌≡◌, refl, ◌∙◌, ap, arith, String, true, subst, some, List, [],
  ◌∷◌, length, All, Bool-cases, Option-cases, inl, inr,
}
use runman_agent.HostPolicy.Text.{upper, upper_char, trim, insert_text, collect, str_lt}
use runman_agent.HostPolicy.Text.Cidr.{is_clean, trim-clean}
use runman_agent.HostPolicy.Normalize.{all_upper, is_country, normalize_countries}

-- Each text comes before the next.
abbrev pub Ascending : List String → Type 0
Ascending [] = Unit
Ascending (x ∷ []) = Unit
Ascending (x ∷ y ∷ ys) = (str_lt x y ≡ true) × Ascending (y ∷ ys)

-- What is put in its place stays ascending.
pub insert_text-Ascending :
    (x : String) (ys : List String) → Ascending ys → Ascending (insert_text x ys)
unfolding insert_text
insert_text-Ascending x [] h = tt
insert_text-Ascending x (y ∷ []) h = ground arith
insert_text-Ascending x (y ∷ z ∷ zs) h = ground (arith, insert_text-Ascending x (z ∷ zs))

pub collect-Ascending : (xs : List String) → Ascending (collect xs)
unfolding collect
collect-Ascending [] = tt
collect-Ascending (x ∷ xs) = insert_text-Ascending x (collect xs) (collect-Ascending xs)

insert_text-first : (x : String) (ys : List String) → Ascending (x ∷ ys) → insert_text x ys ≡ x ∷ ys
unfolding insert_text
insert_text-first x [] h = refl
insert_text-first x (y ∷ ys) (h, hs) = rw h refl

Ascending-tail : (x : String) (ys : List String) → Ascending (x ∷ ys) → Ascending ys
Ascending-tail x [] h = tt
Ascending-tail x (y ∷ ys) (h, hs) = hs

-- The set of an ascending list is the list.
pub collect_fixed : (xs : List String) → Ascending xs → collect xs ≡ xs
unfolding collect
collect_fixed [] h = refl
collect_fixed (x ∷ xs) h = rw (collect_fixed xs (Ascending-tail x xs h)) (insert_text-first x xs h)

pub All-insert_text :
    (P : String → Type 0) (x : String) (ys : List String)
    → P x
    → All P ys
    → All P (insert_text x ys)
unfolding insert_text
All-insert_text P x [] p h = (p, tt)
All-insert_text P x (y ∷ ys) p (h, hs) = ground (arith, All-insert_text P x ys p hs)

length-insert_text :
    (x : String) (ys : List String)
    → (0 < length (insert_text x ys)) × (length (insert_text x ys) ≤ suc (length ys))
unfolding insert_text
length-insert_text x [] = omega arith
length-insert_text x (y ∷ ys) = ground (arith, length-insert_text x ys)

pub length-collect : (xs : List String) → length (collect xs) ≤ length xs
unfolding collect
length-collect [] = omega arith
length-collect (x ∷ xs) = omega (arith, length-insert_text x (collect xs), length-collect xs)

abbrev IsCode : String → Type 0
IsCode c = is_country c ≡ true

all_upper-clean : (s : String) → all_upper s ≡ true → is_clean s ≡ true
unfolding all_upper is_clean
all_upper-clean String.[] h = refl
all_upper-clean (String.◌∷◌ c s) h = ground (arith, all_upper-clean s)

upper_char_fixed : (c : Char) → code c < 97 → upper_char c ≡ c
unfolding upper_char
upper_char_fixed (char n p) h = ground arith

upper_fixed : (s : String) → all_upper s ≡ true → upper s ≡ s
unfolding upper all_upper
upper_fixed String.[] h = refl
upper_fixed (String.◌∷◌ c s) h = ground (arith, upper_char_fixed c, upper_fixed s)

upper-trim_fixed : (c : String) → IsCode c → upper (trim c) ≡ c
upper-trim_fixed c h =
    let u : all_upper c ≡ true = ground arith in
    rw (trim-clean c (all_upper-clean c u)) (upper_fixed c u)

-- The set is ascending, holds valid codes, and is no longer than the list.
record IsCountrySet (n : ℕ) (set : List String) : Type 0 where
  ascending : Ascending set
  valid : All IsCode set
  shorter : length set ≤ n
  some_left : 0 < n → 0 < length set

normalize_countries-IsCountrySet :
    (cs : List String) {set : List String}
    → normalize_countries cs ≡ some set
    → IsCountrySet (length cs) set
unfolding normalize_countries
normalize_countries-IsCountrySet [] e =
    subst (IsCountrySet 0) {x = []} (ground arith)
      (record { ascending = tt; valid = tt; shorter = omega arith; some_left = λ h. h })
normalize_countries-IsCountrySet (c ∷ cs) e = elim (Bool-cases (is_country (upper (trim c)))) [
  | inr bad ↦ ground arith
  | inl good ↦ elim (Option-cases (normalize_countries cs)) [
    | inl none_e ↦ ground arith
    | inr (rest, f) ↦
        let h = normalize_countries-IsCountrySet cs f in
        let (pos_len, len_le) = length-insert_text (upper (trim c)) rest in
        subst (IsCountrySet (length (c ∷ cs))) {x = insert_text (upper (trim c)) rest}
          (ground arith)
          (record {
            ascending = insert_text-Ascending _ rest h.ascending;
            valid = All-insert_text IsCode _ rest good h.valid;
            shorter = omega (arith, h.shorter);
            some_left = λ k. pos_len;
          })
  ]
]

normalize_countries-cons :
    (c : String) (cs : List String) {set : List String}
    → is_country (upper (trim c)) ≡ true
    → normalize_countries cs ≡ some set
    → normalize_countries (c ∷ cs) ≡ some (insert_text (upper (trim c)) set)
unfolding normalize_countries
normalize_countries-cons c cs v e = rw (v, e) refl

normalize_countries_fixed :
    (set : List String) → Ascending set → All IsCode set → normalize_countries set ≡ some set
unfolding normalize_countries
normalize_countries_fixed [] a v = refl
normalize_countries_fixed (c ∷ cs) a (v, vs) =
    normalize_countries-cons c cs (rw (upper-trim_fixed c v) v)
      (normalize_countries_fixed cs (Ascending-tail c cs a) vs)
    ∙ ap (λ t. some (insert_text t cs)) (upper-trim_fixed c v)
    ∙ ap some (insert_text-first c cs a)

pub countries_again :
    (cs : List String) {set : List String}
    → normalize_countries cs ≡ some set
    → (normalize_countries set ≡ some set)
      × (length set ≤ length cs)
      × ((length cs ≡ 0) ⊎ (0 < length set))
countries_again cs e =
    let h = normalize_countries-IsCountrySet cs e in
    (
      normalize_countries_fixed _ h.ascending h.valid,
      h.shorter,
      elim (dec_lt 0 (length cs)) [ yes p ↦ inr (h.some_left p) | no p ↦ inl (omega arith) ],
    )
