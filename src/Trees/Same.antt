-- ===== src/Trees/Same.antt =====
-- The two algorithms of backend/utils/build_tree.py against each other.
use mathlib.Core.List.{append_assoc, append-nil}
use mathlib.Core.Path.{fun_ext}
use mc_bd.Prelude.{
  ℕ, zero, suc, ◌==◌, ◌≡◌, refl, ap, sym, ◌∙◌, Bool, true, false, ◌||◌, Option, none, some, List,
  [], ◌∷◌, ◌++◌, inl, inr, arith, Bool-cases, if◌then◌else◌,
}
use mc_bd.Trees.{
  Node, Forest, same_parent, has_id, children_of, Grown, add_root, add_node, known_parent, traverse,
  joined, grow, expand, traversal_to_tree, level, recursive_to_tree,
}

module _ {A : Type 0} where
  -- The nodes with this parent, in their order
  unfoldable pub with_parent : Option ℕ → List (Node A) → List (Node A)
  with_parent p [] = []
  with_parent p (n ∷ ns) =
      let rest = with_parent p ns in if same_parent n.parent_id p then n ∷ rest else rest

  level-grow :
      (call : Option ℕ → Option (Forest A)) (ns : List (Node A)) (p : Option ℕ)
      → level call ns p ≡ grow (λ n. call (some n.id)) (with_parent p ns)
  unfolding level grow with_parent
  level-grow call [] p = refl
  level-grow call (n ∷ ns) p = elim (Bool-cases (same_parent n.parent_id p)) [
    | inl same ↦ rw same (ap (joined n (call (some n.id))) (level-grow call ns p))
    | inr other ↦ rw other (level-grow call ns p)
  ]

  -- The recursion gives what the children by parent show, at every fuel.
  recursive-expand :
      (fuel : ℕ) (all : List (Node A)) (p : Option ℕ)
      → recursive_to_tree fuel all p
        ≡ expand fuel (λ i. with_parent (some i) all) (with_parent p all)
  unfolding recursive_to_tree expand
  recursive-expand zero all p = refl
  recursive-expand (suc fuel) all p =
      level-grow (recursive_to_tree fuel all) all p
      ∙ ap (λ (g : Node A → Option (Forest A)). grow g (with_parent p all))
          (fun_ext (λ n. recursive-expand fuel all (some n.id)))

  abbrev pub known_or_root : List (Node A) → Option ℕ → Bool
  known_or_root all none = true
  known_or_root all (some p) = has_id p all

  -- The ids of the nodes are different, and each parent is one of the nodes `all`.
  abbrev pub IsClosed : List (Node A) → List (Node A) → Type 0
  IsClosed all [] = Unit
  IsClosed all (n ∷ ns) =
      (has_id n.id ns ≡ false) × (known_or_root all n.parent_id ≡ true) × IsClosed all ns

  -- None of the nodes has been appended to a parent.
  abbrev Fresh : List (Node A) → List (ℕ × Node A) → Type 0
  Fresh [] cs = Unit
  Fresh (n ∷ ns) cs = ((p : ℕ) → has_id n.id (children_of p cs) ≡ false) × Fresh ns cs

  children_of-snoc :
      (p q : ℕ) (n : Node A) (cs : List (ℕ × Node A))
      → children_of p (cs ++ (q, n) ∷ []) ≡ children_of p cs ++ (if q == p then n ∷ [] else [])
  unfolding children_of
  children_of-snoc p q n [] = refl
  children_of-snoc p q n ((r, m) ∷ cs) = elim (Bool-cases (r == p)) [
    | inl same ↦ rw same (ap (λ (l : List (Node A)). m ∷ l) (children_of-snoc p q n cs))
    | inr other ↦ rw other (children_of-snoc p q n cs)
  ]

  has_id-append :
      (i : ℕ) (xs ys : List (Node A)) → has_id i (xs ++ ys) ≡ (has_id i xs || has_id i ys)
  unfolding has_id
  has_id-append i [] ys = refl
  has_id-append i (x ∷ xs) ys = ground (arith, has_id-append i xs ys)

  one_child :
      (i p q : ℕ) (n : Node A)
      → (n.id == i) ≡ false
      → has_id i (if q == p then n ∷ [] else []) ≡ false
  unfolding has_id
  one_child i p q n h = elim (Bool-cases (q == p)) [
    | inl same ↦ rw (same, h) refl
    | inr other ↦ rw other refl
  ]

  Fresh-snoc :
      (p : ℕ) (n : Node A) (ns : List (Node A)) (cs : List (ℕ × Node A))
      → has_id n.id ns ≡ false
      → Fresh ns cs
      → Fresh ns (cs ++ (p, n) ∷ [])
  unfolding has_id
  Fresh-snoc p n [] cs h f = tt
  Fresh-snoc p n (m ∷ ns) cs h f = (
    λ q.
        ap (has_id m.id) (children_of-snoc q p n cs)
        ∙ has_id-append m.id (children_of q cs) (if p == q then n ∷ [] else [])
        ∙ rw (f.0 q) (one_child m.id q p n (ground (arith, h))),
    Fresh-snoc p n ns cs (ground (arith, h)) f.1,
  )

  -- What the loop adds to the roots, and to the children of a parent
  record Adds (all ns : List (Node A)) (g : Grown A) : Type 0 where
    roots : (traverse all ns g).roots ≡ g.roots ++ with_parent none ns
    children :
        (p : ℕ)
        → children_of p (traverse all ns g).children
          ≡ children_of p g.children ++ with_parent (some p) ns

  -- A round for a root
  root_first :
      (all ns : List (Node A)) (n : Node A) (g : Grown A)
      → n.parent_id ≡ none
      → Adds all ns (add_root n g)
      → Adds all (n ∷ ns) g
  unfolding traverse add_node add_root with_parent same_parent
  root_first all ns n g e a = record {
    roots =
        ap (λ (o : Option ℕ). (traverse all ns (add_node o (known_parent all o) n g)).roots) e
        ∙ a.roots
        ∙ append_assoc g.roots (n ∷ []) (with_parent none ns)
        ∙ ap
            (λ (o : Option ℕ).
              g.roots
              ++ (if same_parent o none then n ∷ with_parent none ns else with_parent none ns))
            (sym e);
    children = λ p.
        ap
          (λ (o : Option ℕ).
            children_of p (traverse all ns (add_node o (known_parent all o) n g)).children)
          e
        ∙ a.children p
        ∙ ap
            (λ (o : Option ℕ).
              children_of p g.children
              ++ (if same_parent o (some p)
                  then n ∷ with_parent (some p) ns
                  else with_parent (some p) ns))
            (sym e);
  }

  abbrev with_child : ℕ → Node A → Grown A → Grown A
  with_child q n g = record g { children = g.children ++ (q, n) ∷ [] }

  add_child :
      (all : List (Node A)) (n : Node A) (q : ℕ) (g : Grown A)
      → n.parent_id ≡ some q
      → has_id q all ≡ true
      → has_id n.id (children_of q g.children) ≡ false
      → add_node n.parent_id (known_parent all n.parent_id) n g ≡ with_child q n g
  unfolding add_node
  add_child all n q g e known fresh =
      ap (λ (o : Option ℕ). add_node o (known_parent all o) n g) e
      ∙ ap (λ (b : Bool). add_node (some q) b n g) known
      ∙ rw fresh refl

  put_before :
      (b : Bool) (n : Node A) (ns : List (Node A))
      → (if b then n ∷ [] else []) ++ ns ≡ (if b then n ∷ ns else ns)
  put_before true n ns = refl
  put_before false n ns = refl

  -- A round for a child of a node
  child_first :
      (all ns : List (Node A)) (n : Node A) (q : ℕ) (g : Grown A)
      → n.parent_id ≡ some q
      → has_id q all ≡ true
      → has_id n.id (children_of q g.children) ≡ false
      → Adds all ns (with_child q n g)
      → Adds all (n ∷ ns) g
  unfolding traverse with_parent same_parent
  child_first all ns n q g e known fresh a =
      let step = add_child all n q g e known fresh in
      record {
        roots =
            ap (λ (h : Grown A). (traverse all ns h).roots) step
            ∙ a.roots
            ∙ ap
                (λ (o : Option ℕ).
                  g.roots
                  ++ (if same_parent o none then n ∷ with_parent none ns else with_parent none ns))
                (sym e);
        children = λ p.
            ap (λ (h : Grown A). children_of p (traverse all ns h).children) step
            ∙ a.children p
            ∙ ap (λ (l : List (Node A)). l ++ with_parent (some p) ns)
                (children_of-snoc p q n g.children)
            ∙ append_assoc (children_of p g.children) (if q == p then n ∷ [] else [])
                (with_parent (some p) ns)
            ∙ ap (λ (l : List (Node A)). children_of p g.children ++ l)
                (put_before (q == p) n (with_parent (some p) ns))
            ∙ ap
                (λ (o : Option ℕ).
                  children_of p g.children
                  ++ (if same_parent o (some p)
                      then n ∷ with_parent (some p) ns
                      else with_parent (some p) ns))
                (sym e);
      }

  -- A round, by the parent of its node
  round :
      (all ns : List (Node A)) (n : Node A) (o : Option ℕ) (g : Grown A)
      → n.parent_id ≡ o
      → known_or_root all n.parent_id ≡ true
      → ((p : ℕ) → has_id n.id (children_of p g.children) ≡ false)
      → Adds all ns (add_root n g)
      → ((q : ℕ) → Adds all ns (with_child q n g))
      → Adds all (n ∷ ns) g
  round all ns n none g e known fresh a b = root_first all ns n g e a
  round all ns n (some q) g e known fresh a b =
      child_first all ns n q g e (sym (ap (known_or_root all) e) ∙ known) (fresh q) (b q)

  traverse-Adds :
      (all ns : List (Node A)) (g : Grown A) → IsClosed all ns → Fresh ns g.children → Adds all ns g
  unfolding traverse with_parent add_root
  traverse-Adds all [] g c f = record {
    roots = sym (append-nil g.roots);
    children = λ p. sym (append-nil (children_of p g.children));
  }
  traverse-Adds all (n ∷ ns) g c f =
      round all ns n n.parent_id g refl c.1 f.0 (traverse-Adds all ns (add_root n g) c.2 f.1)
        (λ q. traverse-Adds all ns (with_child q n g) c.2 (Fresh-snoc q n ns g.children c.0 f.1))

  Fresh-nil : (ns : List (Node A)) → Fresh ns []
  unfolding has_id children_of
  Fresh-nil [] = tt
  Fresh-nil (n ∷ ns) = (λ p. refl, Fresh-nil ns)

  -- If the ids of the nodes are different and each parent is one of the nodes, then the traversal and
  -- the recursion from the nodes without a parent build the same tree: with any fuel, they give the same
  -- forest or run out of it both.
  pub traversal_to_tree-recursive_to_tree :
      (fuel : ℕ) (nodes : List (Node A))
      → IsClosed nodes nodes
      → traversal_to_tree fuel nodes ≡ recursive_to_tree fuel nodes none
  unfolding traversal_to_tree
  traversal_to_tree-recursive_to_tree fuel nodes c =
      let a =
        traverse-Adds nodes nodes (record { roots = []; children = [] }) c (Fresh-nil nodes) in
      ap
        (λ (ns : List (Node A)).
          expand fuel
            (λ p.
              children_of p (traverse nodes nodes (record { roots = []; children = [] })).children)
            ns)
        a.roots
      ∙ ap (λ (kids : ℕ → List (Node A)). expand fuel kids (with_parent none nodes))
          (fun_ext (λ p. a.children p))
      ∙ sym (recursive-expand fuel nodes none)
