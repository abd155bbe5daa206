-- ===== src/Tests/Listing.antt =====
-- Instances of the theorems on the pages of backend/common/pagination.py.
use mc_bd.Prelude.{ℕ, List, [], ◌∷◌}
use mc_bd.Pages.{PageParams}

abbrev second_page : PageParams
second_page = record { page = 2; size = 20 }

abbrev rows : List ℕ
rows = 20 ∷ 21 ∷ []
