-- ===== src/Trees.antt =====
-- backend/utils/build_tree.py: trees of menus and departments from the rows of a table. A node is a
-- serialised row; two nodes are equal if their ids are, since `id` is the key of the table. The tree
-- that the mutated dictionaries show is read off with fuel, none if it is deeper than the fuel.
pub mod Same
pub mod Depth
use mc_bd.Prelude.{
  ℕ, zero, suc, ◌==◌, ltb, leb, Bool, true, false, not, ◌&&◌, ◌||◌, Option, none, some, List, [],
  ◌∷◌, ◌++◌, map, if◌then◌else◌,
}
use mc_bd.Prelude.Text.{Text}

-- The keys that the algorithms read, and the other columns
pub record Node (A : Type 0) : Type 0 where
  pub id : ℕ
  pub parent_id : Option ℕ
  pub sort : ℕ
  pub columns : A

-- A node with its `children`; without this key it has none.
mutual
  pub data Tree (A : Type 0) : Type 0 where
    branch : Node A → Forest A → Tree A

  pub data Forest (A : Type 0) : Type 0 where
    leafless : Forest A
    plant : Tree A → Forest A → Forest A

-- BuildTreeType
pub data BuildTreeType : Type 0 where
  traversal recursive : BuildTreeType

unfoldable pub same_parent : Option ℕ → Option ℕ → Bool
same_parent none none = true
same_parent none (some q) = false
same_parent (some p) none = false
same_parent (some p) (some q) = p == q

-- `tree` and the children of traversal_to_tree
pub record Grown (A : Type 0) : Type 0 where
  pub roots : List (Node A)
  pub children : List (ℕ × Node A)

module _ {A : Type 0} where
  -- `tree_nodes.sort(key=…)`, which is stable: a node goes behind those with its key or a smaller one.
  unfoldable pub insert_sorted : Node A → List (Node A) → List (Node A)
  insert_sorted n [] = n ∷ []
  insert_sorted n (m ∷ ms) = if leb n.sort m.sort then n ∷ m ∷ ms else m ∷ insert_sorted n ms

  unfoldable pub sort_nodes : List (Node A) → List (Node A)
  unfolding insert_sorted
  sort_nodes [] = []
  sort_nodes (n ∷ ns) = insert_sorted n (sort_nodes ns)

  -- get_tree_nodes of the serialised rows
  unfoldable pub get_tree_nodes : Bool → List (Node A) → List (Node A)
  unfolding sort_nodes
  get_tree_nodes is_sort rows = if is_sort then sort_nodes rows else rows

  -- Whether a node is in a list
  unfoldable pub has_id : ℕ → List (Node A) → Bool
  has_id i [] = false
  has_id i (n ∷ ns) = (n.id == i) || has_id i ns

  -- The children that have been appended, with the id of the parent of each, in their order
  unfoldable pub children_of : ℕ → List (ℕ × Node A) → List (Node A)
  children_of p [] = []
  children_of p ((q, n) ∷ cs) = let rest = children_of p cs in if q == p then n ∷ rest else rest

  -- One round of the loop, for a node whose parent is given and is a node or not
  unfoldable pub add_root : Node A → Grown A → Grown A
  add_root n g = record g { roots = g.roots ++ n ∷ [] }

  unfoldable pub add_node : Option ℕ → Bool → Node A → Grown A → Grown A
  unfolding add_root has_id children_of
  add_node none known n g = add_root n g
  add_node (some p) true n g =
      if has_id n.id (children_of p g.children)
      then g
      else record g { children = g.children ++ (p, n) ∷ [] }
  add_node (some p) false n g = if has_id n.id g.roots then g else add_root n g

  abbrev pub known_parent : List (Node A) → Option ℕ → Bool
  known_parent all none = false
  known_parent all (some p) = has_id p all

  unfoldable pub traverse : List (Node A) → List (Node A) → Grown A → Grown A
  unfolding add_node
  traverse all [] g = g
  traverse all (n ∷ ns) g =
      traverse all ns (add_node n.parent_id (known_parent all n.parent_id) n g)

  abbrev pub joined : Node A → Option (Forest A) → Option (Forest A) → Option (Forest A)
  joined n none rest = none
  joined n (some f) none = none
  joined n (some f) (some fs) = some (plant (branch n f) fs)

  -- The nodes with their children, in a row
  unfoldable pub grow : (Node A → Option (Forest A)) → List (Node A) → Option (Forest A)
  grow g [] = some leafless
  grow g (n ∷ ns) = joined n (g n) (grow g ns)

  -- What the dictionaries of the nodes show
  unfoldable pub expand : ℕ → (ℕ → List (Node A)) → List (Node A) → Option (Forest A)
  unfolding grow
  expand zero kids ns = none
  expand (suc fuel) kids ns = grow (λ n. expand fuel kids (kids n.id)) ns

  unfoldable pub traversal_to_tree : ℕ → List (Node A) → Option (Forest A)
  unfolding traverse expand children_of
  traversal_to_tree fuel nodes =
      let g = traverse nodes nodes (record { roots = []; children = [] }) in
      expand fuel (λ p. children_of p g.children) g.roots

  -- The loop of recursive_to_tree, with what the recursive call gives for each parent
  unfoldable pub level :
      (Option ℕ → Option (Forest A)) → List (Node A) → Option ℕ → Option (Forest A)
  unfolding same_parent
  level call [] parent = some leafless
  level call (n ∷ ns) parent =
      let rest = level call ns parent in
      if same_parent n.parent_id parent then joined n (call (some n.id)) rest else rest

  -- recursive_to_tree; none is a recursion deeper than the fuel.
  unfoldable pub recursive_to_tree : ℕ → List (Node A) → Option ℕ → Option (Forest A)
  unfolding level
  recursive_to_tree zero nodes parent = none
  recursive_to_tree (suc fuel) nodes parent = level (recursive_to_tree fuel nodes) nodes parent

  unfoldable pub get_tree_data :
      ℕ → List (Node A) → BuildTreeType → Option ℕ → Bool → Option (Forest A)
  unfolding get_tree_nodes traversal_to_tree recursive_to_tree
  get_tree_data fuel rows traversal parent is_sort =
      traversal_to_tree fuel (get_tree_nodes is_sort rows)
  get_tree_data fuel rows recursive parent is_sort =
      recursive_to_tree fuel (get_tree_nodes is_sort rows) parent

-- The columns of a menu that get_vben5_tree_data reads
pub record Menu : Type 0 where
  pub type : ℕ
  pub title : Text
  pub icon : Option Text
  pub link : Option Text
  pub cache : ℕ
  pub display : ℕ
  pub status : ℕ

-- The dictionary `meta`
pub record Meta : Type 0 where
  pub title : Text
  pub icon : Option Text
  pub iframe_src : Option Text
  pub link : Option Text
  pub keep_alive : ℕ
  pub hide_in_menu : Bool
  pub menu_visible_with_forbidden : Bool

unfoldable pub meta_of : Menu → Meta
meta_of m = record {
  title = m.title;
  icon = m.icon;
  iframe_src = if m.type == 3 then m.link else some [];
  link = if m.type == 4 then m.link else some [];
  keep_alive = m.cache;
  hide_in_menu = m.display == 0;
  menu_visible_with_forbidden = m.status == 0;
}

unfoldable pub vben5_node : Node Menu → Node Meta
unfolding meta_of
vben5_node n = record {
  id = n.id;
  parent_id = n.parent_id;
  sort = n.sort;
  columns = meta_of n.columns;
}

unfoldable pub get_vben5_tree_data : ℕ → List (Node Menu) → Bool → Option (Forest Meta)
unfolding vben5_node get_tree_nodes traversal_to_tree
get_vben5_tree_data fuel rows is_sort =
    traversal_to_tree fuel (map vben5_node (get_tree_nodes is_sort rows))
