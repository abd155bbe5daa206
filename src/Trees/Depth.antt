-- ===== src/Trees/Depth.antt =====
-- When recursive_to_tree of backend/utils/build_tree.py ends.
use mc_bd.Prelude.{
  ℕ, zero, suc, ◌<◌, ◌≡◌, refl, ap, true, Option, none, some, List, [], ◌∷◌, inl, inr, arith,
  Bool-cases, All, ==_iff,
}
use mathlib.Core.Path.{subst}
use mc_bd.Trees.{
  Node, Forest, leafless, plant, branch, same_parent, joined, level, recursive_to_tree,
}

-- The height of a parent, one more than all for the call from the roots
abbrev pub height_of : (ℕ → ℕ) → ℕ → Option ℕ → ℕ
height_of height most none = suc most
height_of height most (some p) = height p

same_parent-eq : (o p : Option ℕ) → same_parent o p ≡ true → o ≡ p
unfolding same_parent
same_parent-eq none none h = refl
same_parent-eq none (some q) h = cc
same_parent-eq (some p) none h = cc
same_parent-eq (some p) (some q) h = ap some ((==_iff p q).0 h)

module _ {A : Type 0} where
  -- Each node has less height than its parent, and at most `most`: there is no cycle.
  abbrev pub Descends : (ℕ → ℕ) → ℕ → List (Node A) → Type 0
  Descends height most ns = All (λ (n : Node A). height n.id < height_of height most n.parent_id) ns

  -- The call gives a forest.
  abbrev pub Gives : Option (Forest A) → Type 0
  Gives o = (f : Forest A) × (o ≡ some f)

  joined-Gives : (n : Node A) (a b : Option (Forest A)) → Gives a → Gives b → Gives (joined n a b)
  joined-Gives n a b (f, e) (g, k) = (plant (branch n f) g, rw (e, k) refl)

  level-Gives :
      (height : ℕ → ℕ) (most : ℕ) (call : Option ℕ → Option (Forest A)) (ns : List (Node A))
      (p : Option ℕ)
      → ((i : ℕ) → height i < height_of height most p → Gives (call (some i)))
      → Descends height most ns
      → Gives (level call ns p)
  unfolding level
  level-Gives height most call [] p h d = (leafless, refl)
  level-Gives height most call (n ∷ ns) p h d = elim (Bool-cases (same_parent n.parent_id p)) [
    | inl same ↦ rw same (
        joined-Gives n (call (some n.id)) (level call ns p)
          (h n.id (
            subst (λ (o : Option ℕ). height n.id < height_of height most o)
              (same_parent-eq n.parent_id p same) d.0))
          (level-Gives height most call ns p h d.1))
    | inr other ↦ rw other (level-Gives height most call ns p h d.1)
  ]

  deep :
      (height : ℕ → ℕ) (most : ℕ) (fuel : ℕ) (all : List (Node A)) (p : Option ℕ)
      → Descends height most all
      → height_of height most p < fuel
      → Gives (recursive_to_tree fuel all p)
  unfolding recursive_to_tree
  deep height most zero all p d h = absurd (omega arith)
  deep height most (suc fuel) all p d h =
      level-Gives height most (recursive_to_tree fuel all) all p
        (λ i lt. deep height most fuel all (some i) d (omega (arith, lt, h))) d

  -- If the rows have no cycle, so that a height falls from each parent to its children and from a bound
  -- for the roots, then the recursion ends, from the roots and from each parent: every fuel above the
  -- height of the parent, or above the bound and one for the roots, gives a forest.
  pub recursive_to_tree-Gives :
      (height : ℕ → ℕ) (most fuel : ℕ) (all : List (Node A)) (p : Option ℕ)
      → Descends height most all
      → height_of height most p < fuel
      → Gives (recursive_to_tree fuel all p)
  recursive_to_tree-Gives height most fuel all p = deep height most fuel all p
