-- ===== src/Forwards/Ssh.antt =====
-- `ensure_ssh_forward` (src/backend.rs) over any implementation of the interface.
use runman_agent.Prelude.{
  ℕ, zero, suc, ◌≡◌, refl, ap, sym, subst, ◌∙◌, String, Bool, true, ◌&&◌, Option, none, some, List,
  [], ◌∷◌, ◌++◌, arith, inl, inr, ◌==◌, find, any, retain, str_eq_refl,
}
use runman_agent.Prelude.Effect.{Result, ok, err, Result-cases}
use runman_agent.Model.{Error, PortForward}
use runman_agent.Forwards.{
  PortForwards, owned_by, is_ssh, ssh_rule, ssh_attempts, ensure_ssh_forward,
}
use runman_agent.Forwards.Laws.{ForwardLaws, Added, same_port}

-- An SSH rule of the instance, at the host port.
abbrev pub is_ssh_of : String → ℕ → PortForward → Bool
is_ssh_of id p f = owned_by id f && is_ssh f && (f.host_port == p)

any-append_last :
    (q : PortForward → Bool) (rules : List PortForward) (f : PortForward)
    → q f ≡ true
    → any q (rules ++ f ∷ []) ≡ true
unfolding any
any-append_last q [] f h = ground arith
any-append_last q (g ∷ rules) f h = ground (arith, any-append_last q rules f h)

-- What `find` returns passes its test and stands in the list.
any_of_find :
    (p q : PortForward → Bool) (rules : List PortForward) (f : PortForward)
    → find p rules ≡ some f
    → (p f ≡ true → q f ≡ true)
    → any q rules ≡ true
unfolding find any
any_of_find p q [] f h k = cc
any_of_find p q (g ∷ rules) f h k = ground (arith, any_of_find p q rules f)

find_owned :
    (id : String) (rules : List PortForward) (f : PortForward)
    → find is_ssh (retain (owned_by id) rules) ≡ some f
    → any (is_ssh_of id f.host_port) rules ≡ true
unfolding find any retain
find_owned id [] f h = cc
find_owned id (g ∷ rules) f h = ground (arith, find_owned id rules f)

-- The automatic rule is there once it was added.
Added-is_ssh_of :
    (id : String) (p : ℕ) (before after : List PortForward)
    → Added (ssh_rule id p) before after
    → any (is_ssh_of id p) after ≡ true
Added-is_ssh_of id p before after (inl (f, found, same, e)) =
    rw e
      (any_of_find (same_port (ssh_rule id p)) (is_ssh_of id p) before f found (λ h. ground arith))
Added-is_ssh_of id p before after (inr (free, e)) =
    rw e (any-append_last (is_ssh_of id p) before (ssh_rule id p) (ground (arith, str_eq_refl id)))

module _ {W : Type 0} (pf : PortForwards W) (rules : W → List PortForward)
    (laws : ForwardLaws pf rules) (id : String) where
  -- The outcome of an attempt to have an SSH rule: it is there at the port that is returned, or the
  -- list is as it was.
  abbrev pub HasSsh : W → Option ℕ × W → Type 0
  HasSsh w (some p, after) = any (is_ssh_of id p) (rules after) ≡ true
  HasSsh w (none, after) = rules after ≡ rules w

  HasSsh-from : (w v : W) (r : Option ℕ × W) → rules v ≡ rules w → HasSsh v r → HasSsh w r
  HasSsh-from w v (some p, after) e h = h
  HasSsh-from w v (none, after) e h = h ∙ e

  ssh_attempts-HasSsh : (n : ℕ) (w : W) → HasSsh w (ssh_attempts pf id n w)
  unfolding ssh_attempts
  ssh_attempts-HasSsh zero w = refl
  ssh_attempts-HasSsh (suc n) w = elim (Result-cases (pf.free_port w).0) [
    | inr (e, failed) ↦ rw (failed, ssh_attempts) (laws.free_port_keeps w)
    | inl (p, found) ↦
        let w1 = (pf.free_port w).1 in
        let (added, w2) = pf.add (ssh_rule id p) w1 in
        rw (found, ssh_attempts)
          (elim (Result-cases added) [
            | inl (u, done) ↦
                rw done (Added-is_ssh_of id p _ _ (laws.add_ok (ssh_rule id p) w1 (rw done refl)))
            | inr (e, failed) ↦ rw failed (
                HasSsh-from w w2 _
                  (laws.add_err (ssh_rule id p) w1 (rw failed refl) ∙ laws.free_port_keeps w)
                  (ssh_attempts-HasSsh n w2))
          ])
  ]

  ensured :
      (w : W) (o : Option PortForward)
      → find is_ssh (retain (owned_by id) (rules w)) ≡ o
      → HasSsh w (elim o [ some r ↦ (some r.host_port, w) | none ↦ ssh_attempts pf id 5 w ])
  ensured w none e = ssh_attempts-HasSsh 5 w
  ensured w (some r) e = find_owned id (rules w) r e

  -- The rest of `ensure_ssh_forward`, from the answer of `list` on.
  abbrev after_list : Result Error (List PortForward) × W → Option ℕ × W
  after_list r = elim r.0 [
    | err e ↦ (none, r.1)
    | ok found ↦ elim (find is_ssh found) [
      | some f ↦ (some f.host_port, r.1)
      | none ↦ ssh_attempts pf id 5 r.1
    ]
  ]

  list_state : (w : W) → (pf.list (some id) w).1 ≡ w
  list_state w = ap (λ r. r.1) (laws.list_lem (some id) w)

  -- For an implementation that satisfies `ForwardLaws`: if `ensure_ssh_forward` returns a port, a rule
  -- from that host port to SSH of the instance is there after it; if it returns none, the rules are as
  -- they were.
  pub ensure_ssh_forward-HasSsh : (w : W) → HasSsh w (ensure_ssh_forward pf id w)
  unfolding ensure_ssh_forward
  ensure_ssh_forward-HasSsh w =
      subst (λ r. HasSsh w (after_list r)) (sym (laws.list_lem (some id) w))
        (ensured w (find is_ssh (retain (owned_by id) (rules w))) refl)

  -- For an implementation that satisfies `ForwardLaws`: if the instance has an SSH rule, then
  -- `ensure_ssh_forward` returns the first one's host port and changes nothing.
  pub ensure_ssh_forward-again :
      (w : W) (r : PortForward)
      → find is_ssh (retain (owned_by id) (rules w)) ≡ some r
      → ensure_ssh_forward pf id w ≡ (some r.host_port, w)
  unfolding ensure_ssh_forward
  ensure_ssh_forward-again w r found =
      rw (laws.list_lem (some id) w, found, ensure_ssh_forward, list_state w)
