-- ===== src/Tests/Menus.antt =====
-- Instances of the theorems on trees of menus, and on uploaded files.
use mc_bd.Prelude.{ℕ, ◌-◌, ◌≡◌, ◌↔◌, refl, some, none, List, [], ◌∷◌, false, arith, Option}
use mc_bd.Prelude.Text.{Text, codes}
use mc_bd.Errors.{ok}
use mc_bd.Trees.{Node, has_id, traversal_to_tree, recursive_to_tree}
use mc_bd.Trees.Same.{IsClosed, traversal_to_tree-recursive_to_tree}
use mc_bd.Trees.Depth.{Gives, recursive_to_tree-Gives}
use mc_bd.Files.{UploadFile, upload_file_verify, file_ext}
use mc_bd.Files.Accepted.{is_odd, upload_file_verify_iff}

abbrev menu : ℕ → Option ℕ → Node Text
menu i p = record { id = i; parent_id = p; sort = i; columns = codes "menu" }

-- A root with a child, which has a child itself, and which stands before its parent
abbrev menus : List (Node Text)
menus = menu 3 (some 2) ∷ menu 1 none ∷ menu 2 (some 1) ∷ []

menus-IsClosed : IsClosed menus menus
unfolding has_id
menus-IsClosed = (refl, refl, (refl, refl, (refl, refl, tt)))

traversal_to_tree-recursive_to_tree_example :
    traversal_to_tree 4 menus ≡ recursive_to_tree 4 menus none
traversal_to_tree-recursive_to_tree_example =
    traversal_to_tree-recursive_to_tree 4 menus menus-IsClosed

recursive_to_tree-Gives_example : Gives (recursive_to_tree 5 menus none)
recursive_to_tree-Gives_example =
    recursive_to_tree-Gives (λ i. 3 - i) 3 5 menus none (omega arith) (omega arith)

abbrev letter : UploadFile
letter = record { filename = codes "letter.exe"; size = 99999999; content = [] }

upload_file_verify_iff_example :
    (upload_file_verify (λ t. t) letter ≡ ok tt)
    ↔ (is_odd (file_ext (λ t. t) letter.filename) ≡ false)
upload_file_verify_iff_example = upload_file_verify_iff (λ t. t) letter
