-- ===== src/Plan/Validator/Build.antt =====
-- The graph that `_assert_acyclic` builds: its degrees and edges count the dependencies.
use ai_team_os.Prelude.{
  ℕ, ◌+◌, String, ◌≡◌, refl, ap, ◌∙◌, true, ◌&&◌, ◌||◌, some, List, [], ◌∷◌, ◌++◌, str_eq, eq_iff,
  elem, All, arith, lookup, insert, ok,
}
use ai_team_os.Plan.Schemas.{SubtaskSpec}
use ai_team_os.Plan.Envelope.{ids_of}
use ai_team_os.Plan.Validator.Defs.{
  Graph, degree, targets, grow, add_edge, add_dependencies, add_subtasks, start_from, start_graph,
}
use ai_team_os.Plan.Validator.Counting.{one_if, occ, occ-push}
use ai_team_os.Plan.Validator.Keys.{
  keys, HasDistinctKeys, insert-HasDistinctKeys, keys-insert_old, elem-keys-insert, degree-insert,
  targets-insert, lookup_of_elem,
}

-- A dependency and the subtask that has it.
abbrev pub Link : Type 0
Link = String × String

abbrev pub links_of : String → List String → List Link → List Link
links_of id [] p = p
links_of id (d ∷ ds) p = links_of id ds ((d, id) ∷ p)

abbrev pub links : List SubtaskSpec → List Link → List Link
links [] p = p
links (s ∷ ss) p = links ss (links_of s.subtask_id s.dependencies p)

-- How many links lead to `v`, and how many of them come from `u`.
unfoldable pub in_count : String → List Link → ℕ
in_count v [] = 0
in_count v ((d, id) ∷ p) = one_if (str_eq id v) + in_count v p

unfoldable pub link_count : String → String → List Link → ℕ
link_count u v [] = 0
link_count u v ((d, id) ∷ p) = one_if (str_eq d u && str_eq v id) + link_count u v p

-- What the two dicts hold after the links `p`, over the nodes `nodes`.
pub record Built (nodes : List String) (p : List Link) (g : Graph) : Type 0 where
  pub node_keys : keys g.indegree ≡ nodes
  pub edge_keys : (v : String) → elem v (keys g.edges) ≡ elem v nodes
  pub degrees : (v : String) → degree v g.indegree ≡ in_count v p
  pub edge_counts : (u v : String) → occ v (targets u g.edges) ≡ link_count u v p

grow-Built :
    (nodes : List String) (p : List Link) (g : Graph) (id dep : String) (l : List String)
    → elem id nodes ≡ true
    → lookup dep g.edges ≡ some l
    → elem dep nodes ≡ true
    → Built nodes p g
    → Built nodes ((dep, id) ∷ p) (grow dep id l g)
unfolding in_count link_count
grow-Built nodes p g id dep l i e d b = record {
  node_keys =
      keys-insert_old id (degree id g.indegree + 1) g.indegree (ap (elem id) b.node_keys ∙ i)
      ∙ b.node_keys;
  edge_keys = λ v.
      ground (arith, elem-keys-insert dep v (l ++ id ∷ []) g.edges, b.edge_keys v, eq_iff v dep);
  degrees = λ v. ground (
    arith,
    degree-insert id v (degree id g.indegree + 1) g.indegree,
    b.degrees v,
    b.degrees id,
    eq_iff id v,
  );
  edge_counts = λ u v.
      let at_dep : targets dep g.edges ≡ l = ground arith in
      ground (
        arith,
        targets-insert dep u (l ++ id ∷ []) g.edges,
        b.edge_counts u v,
        at_dep,
        occ-push v id l,
        eq_iff dep u,
      );
}

add_dependencies-Built :
    (nodes : List String) (p : List Link) (g : Graph) (id : String) (ds : List String)
    → elem id nodes ≡ true
    → All (λ d. elem d nodes ≡ true) ds
    → Built nodes p g
    → (h : Graph) × (add_dependencies id ds g ≡ ok h) × Built nodes (links_of id ds p) h
unfolding add_dependencies
add_dependencies-Built nodes p g id [] i a b = (g, refl, b)
add_dependencies-Built nodes p g id (d ∷ ds) i a b =
    let (l, e) = lookup_of_elem d g.edges (b.edge_keys d ∙ a.0) in
    let (h, r, c) =
      add_dependencies-Built nodes ((d, id) ∷ p) (grow d id l g) id ds i a.1
        (grow-Built nodes p g id d l i e a.0 b) in
    (h, rw (e, add_edge) r, c)

pub add_subtasks-Built :
    (nodes : List String) (p : List Link) (g : Graph) (ss : List SubtaskSpec)
    → All (λ (s : SubtaskSpec). elem s.subtask_id nodes ≡ true) ss
    → All (λ (s : SubtaskSpec). All (λ d. elem d nodes ≡ true) s.dependencies) ss
    → Built nodes p g
    → (h : Graph) × (add_subtasks ss g ≡ ok h) × Built nodes (links ss p) h
unfolding add_subtasks
add_subtasks-Built nodes p g [] i a b = (g, refl, b)
add_subtasks-Built nodes p g (s ∷ ss) i a b =
    let (h, r, c) = add_dependencies-Built nodes p g s.subtask_id s.dependencies i.0 a.0 b in
    let (h', r', c') =
      add_subtasks-Built nodes (links_of s.subtask_id s.dependencies p) h ss i.1 a.1 c in
    (h', rw r r', c')

-- A graph without links: distinct nodes, degrees 0, no edges.
pub record IsBare (g : Graph) : Type 0 where
  pub distinct : HasDistinctKeys g.indegree
  pub same_keys : (v : String) → elem v (keys g.edges) ≡ elem v (keys g.indegree)
  pub no_degrees : (v : String) → degree v g.indegree ≡ 0
  pub no_edges : (u v : String) → occ v (targets u g.edges) ≡ 0

start_from-IsBare : (ss : List SubtaskSpec) (g : Graph) → IsBare g → IsBare (start_from ss g)
unfolding start_from
start_from-IsBare [] g b = b
start_from-IsBare (s ∷ ss) g b =
    let k = s.subtask_id in
    start_from-IsBare ss (record { indegree = insert k 0 g.indegree; edges = insert k [] g.edges })
      (record {
        distinct = insert-HasDistinctKeys k 0 g.indegree b.distinct;
        same_keys = λ v. ground (
          arith,
          elem-keys-insert k v 0 g.indegree,
          elem-keys-insert k v [] g.edges,
          b.same_keys v,
        );
        no_degrees = λ v. ground (arith, degree-insert k v 0 g.indegree, b.no_degrees v);
        no_edges =
            λ u v. unfold occ in ground (arith, targets-insert k u [] g.edges, b.no_edges u v);
      })

elem-start_from :
    (ss : List SubtaskSpec) (g : Graph) (v : String)
    → elem v (keys (start_from ss g).indegree) ≡ (elem v (keys g.indegree) || elem v (ids_of ss))
unfolding start_from
elem-start_from [] g v = ground arith
elem-start_from (s ∷ ss) g v =
    let k = s.subtask_id in
    let h : Graph = record { indegree = insert k 0 g.indegree; edges = insert k [] g.edges } in
    ground (arith, elem-start_from ss h v, elem-keys-insert k v 0 g.indegree)

pub start_graph-IsBare : (ss : List SubtaskSpec) → IsBare (start_graph ss)
unfolding start_graph keys occ lookup
start_graph-IsBare ss =
    start_from-IsBare ss (record { indegree = []; edges = [] })
      (record {
        distinct = λ v. refl;
        same_keys = λ v. refl;
        no_degrees = λ v. refl;
        no_edges = λ u v. refl;
      })

pub elem-start_graph :
    (ss : List SubtaskSpec) (v : String)
    → elem v (keys (start_graph ss).indegree) ≡ elem v (ids_of ss)
unfolding start_graph
elem-start_graph ss v =
    elem-start_from ss (record { indegree = []; edges = [] }) v ∙ (unfold keys in refl)

pub start_graph-Built :
    (ss : List SubtaskSpec) → Built (keys (start_graph ss).indegree) [] (start_graph ss)
unfolding in_count link_count
start_graph-Built ss =
    let b = start_graph-IsBare ss in
    record {
      node_keys = refl;
      edge_keys = b.same_keys;
      degrees = b.no_degrees;
      edge_counts = b.no_edges;
    }
