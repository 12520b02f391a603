-- ===== src/Plan/Validator/Acyclic.antt =====
-- `_assert_acyclic` decides whether the dependencies can be ordered, and never runs out of fuel.
use ai_team_os.Prelude.{
  ℕ, zero, suc, ◌+◌, ◌≤◌, ◌<◌, String, ◌≡◌, refl, sym, ap, ◌∙◌, ◌↔◌, ◌⊎◌, true, List, [], ◌∷◌,
  eq_iff, elem, length, All, arith, inl, inr, Bool-cases, ◌==◌, ==_iff, ok, err, subst,
}
use ai_team_os.Plan.Schemas.{SubtaskSpec}
use ai_team_os.Plan.Envelope.{ids_of}
use ai_team_os.Plan.Validator.Defs.{
  Graph, cyclic_dependency, visit_all, ready, add_subtasks, start_graph, assert_acyclic,
}
use ai_team_os.Plan.Validator.Counting.{
  one_if, occ, elem-occ, not_elem-occ, length_le_of_occ, occ_le_of_length,
}
use ai_team_os.Plan.Validator.Keys.{keys, length-keys, occ-ready}
use ai_team_os.Plan.Validator.Build.{
  links, link_count, Built, add_subtasks-Built, start_graph-IsBare, start_graph-Built,
  elem-start_graph,
}
use ai_team_os.Plan.Validator.Kahn.{pending-nil, Loop, Visited, visit-Visited}
use ai_team_os.Plan.Validator.Links.{
  EachLink, EachLink-of-count, count-of-EachLink, pending_zero, place, place-lt,
}

-- Every dependency of every subtask is the id of a subtask.
abbrev pub HasKnownDependencies : List SubtaskSpec → Type 0
HasKnownDependencies ss = EachLink (λ d id. elem d (ids_of ss) ≡ true) ss

-- A numbering of the subtasks in which each comes after all that it depends on.
abbrev pub CanBeOrdered : List SubtaskSpec → Type 0
CanBeOrdered ss = (place : String → ℕ) × EachLink (λ d id. place d < place id) ss

-- What the visits of the graph of `ss` end with.
record Run (ss : List SubtaskSpec) (nodes : List String) (g : Graph) : Type 0 where
  built : Built nodes (links ss []) g
  distinct : (v : String) → occ v nodes ≡ one_if (elem v nodes)
  node_of : (v : String) → elem v nodes ≡ elem v (ids_of ss)
  ends :
      (u v : String)
      → 0 < link_count u v (links ss [])
      → (elem u nodes ≡ true) × (elem v nodes ≡ true)

elem_self : (x : String) (xs : List String) → elem x (x ∷ xs) ≡ true
elem_self x xs = ground (arith, eq_iff x x)

All_ids :
    (Q : String → Type 0) (ss : List SubtaskSpec)
    → ((v : String) → elem v (ids_of ss) ≡ true → Q v)
    → All (λ (s : SubtaskSpec). Q s.subtask_id) ss
All_ids Q [] h = tt
All_ids Q (s ∷ ss) h =
    (h s.subtask_id (elem_self s.subtask_id (ids_of ss)), All_ids Q ss (λ v e. h v (ground arith)))

pub EachLink-map :
    (P Q : String → String → Type 0) (ss : List SubtaskSpec)
    → ((u v : String) → P u v → Q u v)
    → EachLink P ss
    → EachLink Q ss
EachLink-map P Q [] f a = tt
EachLink-map P Q (s ∷ ss) f a = (go s.dependencies a.0, EachLink-map P Q ss f a.1)
  where
    go : (ds : List String) → All (λ d. P d s.subtask_id) ds → All (λ d. Q d s.subtask_id) ds
    go [] b = tt
    go (d ∷ ds) b = (f d s.subtask_id b.0, go ds b.1)

with_ids :
    (A : String → String → Type 0) (P : String → Type 0) (ss : List SubtaskSpec)
    → All (λ (s : SubtaskSpec). P s.subtask_id) ss
    → EachLink A ss
    → EachLink (λ d id. A d id × P id) ss
with_ids A P [] i a = tt
with_ids A P (s ∷ ss) i a = (go s.dependencies a.0, with_ids A P ss i.1 a.1)
  where
    go :
        (ds : List String)
        → All (λ d. A d s.subtask_id) ds
        → All (λ d. A d s.subtask_id × P s.subtask_id) ds
    go [] b = tt
    go (d ∷ ds) b = ((b.0, i.0), go ds b.1)

run :
    (ss : List SubtaskSpec)
    → HasKnownDependencies ss
    → (g : Graph) × (add_subtasks ss (start_graph ss) ≡ ok g)
      × Run ss (keys (start_graph ss).indegree) g
run ss known =
    let nodes = keys (start_graph ss).indegree in
    let in_nodes = λ (v : String). elem-start_graph ss v in
    let ids = All_ids (λ v. elem v nodes ≡ true) ss (λ v e. in_nodes v ∙ e) in
    let deps =
      EachLink-map (λ d id. elem d (ids_of ss) ≡ true) (λ d id. elem d nodes ≡ true) ss
        (λ u v e. in_nodes u ∙ e) known in
    let (g, e, b) =
      add_subtasks-Built nodes [] (start_graph ss) ss ids deps (start_graph-Built ss) in
    (
      g,
      e,
      record {
        built = b;
        distinct = (start_graph-IsBare ss).distinct;
        node_of = in_nodes;
        ends =
            count-of-EachLink (λ u v. (elem u nodes ≡ true) × (elem v nodes ≡ true)) ss []
              (with_ids (λ d id. elem d nodes ≡ true) (λ v. elem v nodes ≡ true) ss ids deps)
              (λ u v pos. absurd (unfold link_count in omega arith));
      },
    )

module _ (ss : List SubtaskSpec) (nodes : List String) (g : Graph) (r : Run ss nodes g) where
  start_Loop : Loop nodes (links ss []) [] [] (ready g.indegree) g.indegree
  unfolding occ
  start_Loop = record {
    same_keys = r.built.node_keys;
    known = λ v pos. absurd (omega arith);
    degrees = λ v e. ground (arith, r.built.degrees v, pending-nil v (links ss []));
    seen = λ v.
        let keyed = λ (w : String).
          subst (λ (l : List String). occ w l ≡ one_if (elem w l)) (sym r.built.node_keys)
            (r.distinct w) in
        ground (arith, occ-ready v g.indegree keyed, ap (elem v) r.built.node_keys);
  }

  visited :
      (done : List String) × (visit_all g ≡ ok (length done)) × Visited nodes (links ss []) done
  visited =
      visit-Visited nodes (links ss []) (length g.indegree + 1) g.edges [] (ready g.indegree)
        g.indegree 0 r.distinct r.built.edge_counts (λ u v pos. (r.ends u v pos).1) start_Loop tt
        refl (ground (arith, length-keys g.indegree, ap length r.built.node_keys))

  full_order :
      (done : List String)
      → Visited nodes (links ss []) done
      → length done ≡ length g.indegree
      → CanBeOrdered ss
  full_order done v n =
      let within : (w : String) → occ w done ≤ occ w nodes =
        λ w. ground (arith, v.complete w, r.distinct w) in
      let all_in =
        occ_le_of_length done nodes within
          (ground (arith, length-keys g.indegree, ap length r.built.node_keys)) in
      (
        (λ w. place w done),
        EachLink-of-count (λ d id. place d done < place id done) ss []
            (λ u w pos.
              let w_in : elem w done ≡ true =
                ground (arith, all_in w, r.distinct w, (r.ends u w pos).1, not_elem-occ w done) in
              (place-lt (links ss []) done u w v.ordered (λ x. ground (arith, v.complete x)) w_in
                pos).1),
      )

  -- By induction on the number of a node, every node is visited.
  reached :
      (done : List String)
      → Visited nodes (links ss []) done
      → (number : String → ℕ)
      → ((u w : String) → 0 < link_count u w (links ss []) → number u < number w)
      → (n : ℕ) (w : String) → number w < n
      → elem w nodes ≡ true
      → elem w done ≡ true
  reached done v number lower zero w lt e = absurd (omega arith)
  reached done v number lower (suc n) w lt e =
      let none_left = pending_zero done w (links ss []) (λ u pos.
        reached done v number lower n u (omega (arith, lower u w pos)) (r.ends u w pos).0) in
      ground (arith, v.complete w, none_left, not_elem-occ w done)

  all_visited :
      (done : List String)
      → Visited nodes (links ss []) done
      → CanBeOrdered ss
      → length done ≡ length g.indegree
  all_visited done v (number, below) =
      let lower =
        count-of-EachLink (λ d id. number d < number id) ss [] below
          (λ u w pos. absurd (unfold link_count in omega arith)) in
      let within : (w : String) → occ w done ≤ occ w nodes =
        λ w. ground (arith, v.complete w, r.distinct w) in
      let covers : (w : String) → occ w nodes ≤ occ w done = λ w. elim (Bool-cases (elem w nodes)) [
        | inl e ↦ ground (
          arith,
          reached done v number lower (suc (number w)) w (omega arith) e,
          elem-occ w done,
          r.distinct w,
        )
        | inr e ↦ ground (arith, r.distinct w)
      ] in
      ground (
        arith,
        length-keys g.indegree,
        ap length r.built.node_keys,
        length_le_of_occ done nodes within,
        length_le_of_occ nodes done covers,
      )

-- If every dependency is the id of a subtask, the check ends without an exception of another kind
-- and without running out of fuel: it passes exactly when the subtasks can be numbered so that
-- each comes after all that it depends on, and otherwise it reports a cycle.
pub assert_acyclic-ok_iff :
    (ss : List SubtaskSpec)
    → HasKnownDependencies ss
    → ((assert_acyclic ss ≡ ok tt) ↔ CanBeOrdered ss)
      × ((assert_acyclic ss ≡ ok tt) ⊎ (assert_acyclic ss ≡ err cyclic_dependency))
unfolding assert_acyclic
assert_acyclic-ok_iff ss known =
    let nodes = keys (start_graph ss).indegree in
    let (g, e, r) = run ss known in
    let (done, w, v) = visited ss nodes g r in
    elim (Bool-cases (length done == length g.indegree)) [
      | inl q ↦ (
        (λ h. full_order ss nodes g r done v ((==_iff _ _).0 q), λ o. rw (e, w, q) refl),
        inl (rw (e, w, q) refl),
      )
      | inr q ↦
          let cyclic : assert_acyclic ss ≡ err cyclic_dependency = rw (e, w, q) refl in
          (
            (λ h. absurd (cc), λ o. absurd (ground (arith, all_visited ss nodes g r done v o))),
            inr cyclic,
          )
    ]
