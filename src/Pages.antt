-- ===== src/Pages.antt =====
-- The pages of backend/common/pagination.py: _CustomPageParams.to_raw_params and
-- _CustomPage.create. A link is its page and size; `create_links` of fastapi_pagination, which turns
-- them into addresses, is left out. `page` is at least 1, and `size` between 1 and 200, by the
-- declaration of the query.
pub mod Cover
use mc_bd.Prelude.{ℕ, ◌+◌, ◌-◌, ◌*◌, ◌/◌, ltb, leb, Option, none, some, List, if◌then◌else◌}

pub record PageParams : Type 0 where
  pub page : ℕ
  pub size : ℕ

pub record RawParams : Type 0 where
  pub limit : ℕ
  pub offset : ℕ

unfoldable pub to_raw_params : PageParams → RawParams
to_raw_params p = record { limit = p.size; offset = p.size * (p.page - 1) }

pub record Links : Type 0 where
  pub first : PageParams
  pub last : PageParams
  pub next : Option PageParams
  pub prev : Option PageParams

pub record Page (A : Type 0) : Type 0 where
  pub items : List A
  pub total : ℕ
  pub page : ℕ
  pub size : ℕ
  pub total_pages : ℕ
  pub links : Links

-- math.ceil(total / size), for a positive size; the quotient of floats is exact below 2 ^ 53
unfoldable pub ceil_div : ℕ → ℕ → ℕ
ceil_div total size = (total + (size - 1)) / size

abbrev at : ℕ → ℕ → PageParams
at page size = record { page = page; size = size }

unfoldable pub create : {A : Type 0} → List A → PageParams → ℕ → Page A
unfolding ceil_div
create items params total =
    let page = params.page in
    let size = params.size in
    let total_pages = ceil_div total size in
    record {
      items = items;
      total = total;
      page = page;
      size = size;
      total_pages = total_pages;
      links = record {
        first = at 1 size;
        last = if ltb 0 total then at total_pages size else at 1 size;
        next = if leb (page + 1) total_pages then some (at (page + 1) size) else none;
        prev = if leb 1 (page - 1) then some (at (page - 1) size) else none;
      };
    }
