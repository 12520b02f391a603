-- ===== src/Plan/Validator/Kahn.antt =====
-- The loop of `_assert_acyclic`: what it has visited when its queue is empty.
use ai_team_os.Prelude.{
  ℕ, zero, suc, ◌+◌, ◌-◌, ◌<◌, String, ◌≡◌, refl, ap, ◌∙◌, true, false, not, ◌&&◌, List, [], ◌∷◌,
  ◌++◌, if◌then◌else◌, str_eq, eq_iff, elem, length, arith, Dict, insert, ◌==◌, ok,
}
use ai_team_os.Plan.Validator.Defs.{degree, targets, lower_targets, visit}
use ai_team_os.Plan.Validator.Counting.{one_if, occ, elem-occ, occ-push, length_le_of_occ}
use ai_team_os.Plan.Validator.Keys.{keys, keys-insert_old, degree-insert}
use ai_team_os.Plan.Validator.Build.{Link, in_count, link_count}

-- The links to `v` from nodes that are not in `done`.
unfoldable pub pending : List String → String → List Link → ℕ
pending done v [] = 0
pending done v ((d, id) ∷ p) = one_if (str_eq id v && not (elem d done)) + pending done v p

pub pending-nil : (v : String) (p : List Link) → pending [] v p ≡ in_count v p
unfolding pending in_count
pending-nil v [] = refl
pending-nil v ((d, id) ∷ p) = ground (arith, pending-nil v p)

-- A node that is done now takes its own links off.
pub pending-cons :
    (done : List String) (node v : String) (p : List Link)
    → elem node done ≡ false
    → pending done v p ≡ pending (node ∷ done) v p + link_count node v p
unfolding pending link_count
pending-cons done node v [] h = refl
pending-cons done node v ((d, id) ∷ p) h =
    ground (arith, pending-cons done node v p h, eq_iff d node, eq_iff id v, eq_iff v id)

-- Each visited node comes after all the sources of its links.
abbrev pub IsOrdered : List Link → List String → Type 0
IsOrdered p [] = Unit
IsOrdered p (v ∷ done) = (pending done v p ≡ 0) × IsOrdered p done

module _ (nodes : List String) (p : List Link) where
  -- Between two nodes of the loop. `rest` is what is left of the targets of the last one.
  pub record Loop (done rest queue : List String) (d : Dict ℕ) : Type 0 where
    pub same_keys : keys d ≡ nodes
    pub known : (v : String) → 0 < occ v rest → elem v nodes ≡ true
    pub degrees : (v : String) → elem v nodes ≡ true → degree v d ≡ pending done v p + occ v rest
    pub seen : (v : String) → occ v done + occ v queue ≡ one_if (elem v nodes && (degree v d == 0))

  abbrev pushed : String → List String → Dict ℕ → List String
  pushed w queue d = if degree w d - 1 == 0 then queue ++ w ∷ [] else queue

  lower-Loop :
      (done rest queue : List String) (w : String) (d : Dict ℕ)
      → Loop done (w ∷ rest) queue d
      → Loop done rest (pushed w queue d) (insert w (degree w d - 1) d)
  unfolding occ
  lower-Loop done rest queue w d h =
      let w_in : elem w nodes ≡ true = h.known w (ground (arith, eq_iff w w)) in
      record {
        same_keys =
            keys-insert_old w (degree w d - 1) d (ap (elem w) h.same_keys ∙ w_in) ∙ h.same_keys;
        known = λ v q. h.known v (omega arith);
        degrees = λ v q.
            ground
              (arith, degree-insert w v (degree w d - 1) d, h.degrees v q, eq_iff w v, eq_iff v w);
        seen = λ v. ground (
          arith,
          degree-insert w v (degree w d - 1) d,
          h.degrees v,
          h.seen v,
          w_in,
          occ-push v w queue,
          eq_iff w v,
          eq_iff v w,
        );
      }

  lower_targets-Loop :
      (done rest queue : List String) (d : Dict ℕ)
      → Loop done rest queue d
      → Loop done [] (lower_targets rest d queue).1 (lower_targets rest d queue).0
  unfolding lower_targets
  lower_targets-Loop done [] queue d h = h
  lower_targets-Loop done (w ∷ rest) queue d h =
      lower_targets-Loop done rest (pushed w queue d) (insert w (degree w d - 1) d)
        (lower-Loop done rest queue w d h)

  pop-Loop :
      (done targets' queue : List String) (node : String) (d : Dict ℕ)
      → ((v : String) → occ v targets' ≡ link_count node v p)
      → ((u v : String) → 0 < link_count u v p → elem v nodes ≡ true)
      → Loop done [] (node ∷ queue) d
      → Loop (node ∷ done) targets' queue d × (pending done node p ≡ 0)
  unfolding occ
  pop-Loop done targets' queue node d counts ends h =
      let fresh : elem node done ≡ false =
        ground (arith, h.seen node, elem-occ node done, eq_iff node node) in
      let node_in : elem node nodes ≡ true = ground (arith, h.seen node, eq_iff node node) in
      (
        record {
          same_keys = h.same_keys;
          known = λ v q. ends node v (rw (← counts v) q);
          degrees =
              λ v q. ground (arith, h.degrees v q, counts v, pending-cons done node v p fresh);
          seen = λ v. ground (arith, h.seen v);
        },
        ground (arith, h.seen node, h.degrees node node_in, eq_iff node node),
      )

  -- The nodes that are visited, the last one first: each node that has no link from an unvisited
  -- one, once.
  pub record Visited (done : List String) : Type 0 where
    pub ordered : IsOrdered p done
    pub complete : (v : String) → occ v done ≡ one_if (elem v nodes && (pending done v p == 0))

  finished : (done : List String) (d : Dict ℕ) → Loop done [] [] d → IsOrdered p done → Visited done
  unfolding occ
  finished done d h o = record {
    ordered = o;
    complete = λ v. ground (arith, h.seen v, h.degrees v);
  }

  pub visit-Visited :
      (fuel : ℕ) (edges : Dict (List String)) (done queue : List String) (d : Dict ℕ) (visited : ℕ)
      → ((v : String) → occ v nodes ≡ one_if (elem v nodes))
      → ((u v : String) → occ v (targets u edges) ≡ link_count u v p)
      → ((u v : String) → 0 < link_count u v p → elem v nodes ≡ true)
      → Loop done [] queue d
      → IsOrdered p done
      → visited ≡ length done
      → fuel + length done ≡ length nodes + 1
      → (r : List String) × (visit fuel edges d queue visited ≡ ok (length r)) × Visited r
  unfolding visit
  visit-Visited zero edges done queue d visited distinct counts ends h o n f =
      let bound = length_le_of_occ done nodes (λ v. ground (arith, h.seen v, distinct v)) in
      absurd (omega arith)
  visit-Visited (suc fuel) edges done [] d visited distinct counts ends h o n f =
      (done, ap ok n, finished done d h o)
  visit-Visited (suc fuel) edges done (node ∷ queue) d visited distinct counts ends h o n f =
      let (popped, first) = pop-Loop done (targets node edges) queue node d (counts node) ends h in
      let (d', queue') = lower_targets (targets node edges) d queue in
      visit-Visited fuel edges (node ∷ done) queue' d' (visited + 1) distinct counts ends
        (lower_targets-Loop (node ∷ done) (targets node edges) queue d popped) (first, o)
        (omega arith) (omega arith)
