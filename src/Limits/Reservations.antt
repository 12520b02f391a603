-- ===== src/Limits/Reservations.antt =====
-- Any run of reservations keeps the bounds of the cost governor.
use ai_team_os.Prelude.{
  sym, subst, ◌∙◌, ap, ℕ, ◌≤◌, String, ◌≡◌, refl, inl, inr, true, false, Option, some, List, [],
  ◌∷◌, str_eq, eq_iff, lookup, arith, Bool-cases,
}
use ai_team_os.Limits.Cost.{
  WorkflowCostGovernor, standard_role_limits, governor, calls_of, at_limit, is_granted,
  assess_and_reserve, reserve_all, grant_bound, assess_and_reserve_lem,
}

-- What a run of requests keeps: the settings, the bound and the limits of the roles.
record IsBounded (complexity : String) (hard_limit : Option ℕ) (g : WorkflowCostGovernor)
    : Type 0 where
  same : g.complexity ≡ complexity
  limit : g.hard_limit ≡ hard_limit
  total : g.reserved_total ≤ grant_bound complexity hard_limit
  roles :
      (role : String) (n : ℕ)
      → str_eq complexity "complex" ≡ false
      → lookup role standard_role_limits ≡ some n
      → calls_of role g.role_calls ≤ n

settings_kept :
    (g : WorkflowCostGovernor) (role : String) (used : ℕ)
    → ((assess_and_reserve role used g).0.complexity ≡ g.complexity)
      × ((assess_and_reserve role used g).0.hard_limit ≡ g.hard_limit)
unfolding assess_and_reserve
settings_kept g role used = (ground arith, ground arith)

module _ (c : String) (h : Option ℕ) where
  settings_bound :
      (g : WorkflowCostGovernor)
      → IsBounded c h g
      → grant_bound g.complexity g.hard_limit ≡ grant_bound c h
  settings_bound g b =
      ap (λ x. grant_bound x g.hard_limit) b.same ∙ ap (λ x. grant_bound c x) b.limit

  role_bound :
      (g : WorkflowCostGovernor) (role : String) (used : ℕ)
      → IsBounded c h g
      → is_granted (assess_and_reserve role used g).1.decision ≡ true
      → (r : String) (n : ℕ) → str_eq c "complex" ≡ false
      → lookup r standard_role_limits ≡ some n
      → calls_of r (assess_and_reserve role used g).0.role_calls ≤ n
  role_bound g role used b fits r n s l =
      let counted = ((assess_and_reserve_lem g role r used).2 fits).1 in
      let plain : str_eq g.complexity "complex" ≡ false = rw b.same s in
      let under : at_limit (lookup role standard_role_limits) (calls_of role g.role_calls) ≡ false =
        ground (arith, ((assess_and_reserve_lem g role r used).0.0 fits).1) in
      elim (Bool-cases (str_eq role r)) [
        | inl e ↦
            let role_is_r = (eq_iff role r).0 e in
            let here : at_limit (some n) (calls_of r g.role_calls) ≡ false =
              subst (λ o. at_limit o (calls_of r g.role_calls) ≡ false) l
                (subst
                  (λ x. at_limit (lookup x standard_role_limits) (calls_of x g.role_calls) ≡ false)
                  role_is_r under) in
            ground (arith, counted)
        | inr e ↦ ground (arith, counted, b.roles r n s l)
      ]

  reserve-IsBounded :
      (g : WorkflowCostGovernor) (role : String) (used : ℕ)
      → IsBounded c h g
      → IsBounded c h (assess_and_reserve role used g).0
  reserve-IsBounded g role used b =
      elim (Bool-cases (is_granted (assess_and_reserve role used g).1.decision)) [
        | inl fits ↦ reserved fits
        | inr refused ↦
            subst (IsBounded c h) (sym ((assess_and_reserve_lem g role role used).1 refused)) b
      ]
    where
      reserved :
          is_granted (assess_and_reserve role used g).1.decision ≡ true
          → IsBounded c h (assess_and_reserve role used g).0
      reserved fits = record {
        same = (settings_kept g role used).0 ∙ b.same;
        limit = (settings_kept g role used).1 ∙ b.limit;
        total = omega (
          arith,
          ((assess_and_reserve_lem g role role used).0.0 fits).0,
          ((assess_and_reserve_lem g role role used).2 fits).0,
          settings_bound g b,
          b.total,
        );
        roles = role_bound g role used b fits;
      }

  reserve_all-IsBounded :
      (requests : List (String × ℕ)) (g : WorkflowCostGovernor)
      → IsBounded c h g
      → IsBounded c h (reserve_all requests g)
  unfolding reserve_all
  reserve_all-IsBounded [] g b = b
  reserve_all-IsBounded ((role, used) ∷ rs) g b =
      reserve_all-IsBounded rs (assess_and_reserve role used g).0 (reserve-IsBounded g role used b)

  governor-IsBounded : IsBounded c h (governor c h)
  unfolding governor calls_of lookup
  governor-IsBounded = record {
    same = refl;
    limit = refl;
    total = omega arith;
    roles = λ r n s l. omega arith;
  }

-- Starting from a new governor, whatever calls the branches report and in whatever order they ask,
-- no more calls are granted than the bound, and on work that is not complex no role is granted
-- more than its limit.
pub reservations_bounded :
    (complexity : String) (hard_limit : Option ℕ) (requests : List (String × ℕ))
    → ((reserve_all requests (governor complexity hard_limit)).reserved_total
        ≤ grant_bound complexity hard_limit)
      × ((role : String) (n : ℕ)
          → str_eq complexity "complex" ≡ false
          → lookup role standard_role_limits ≡ some n
          → calls_of role (reserve_all requests (governor complexity hard_limit)).role_calls ≤ n)
reservations_bounded c h rs =
    let b = reserve_all-IsBounded c h rs (governor c h) (governor-IsBounded c h) in
    (b.total, b.roles)
