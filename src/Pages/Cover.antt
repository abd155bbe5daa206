-- ===== src/Pages/Cover.antt =====
-- The pages cover the rows of a query.
use mc_bd.Prelude.{
  ap, Bool-cases, inl, inr, if◌then◌else◌, ℕ, ◌+◌, ◌-◌, ◌*◌, ◌/◌, ◌≤◌, ◌<◌, ◌≡◌, ltb, leb, none,
  some, List, arith,
}
use native.Mathlib.Nat.{div-add-mod, mod-lt, mul-le-mul_left, mul-add}
use mc_bd.Pages.{PageParams, to_raw_params, create, ceil_div}

-- A row belongs to a page if it lies within the limit from the offset on.
abbrev pub IsOn : ℕ → PageParams → Type 0
IsOn row p =
    ((to_raw_params p).offset ≤ row) × (row < (to_raw_params p).offset + (to_raw_params p).limit)

-- The quotient by `b` and the rest below `b`.
module _ (b : ℕ) (positive : 0 < b) where
  lower : (a : ℕ) → b * (a / b) ≤ a
  lower a = omega (arith, div-add-mod a b)

  upper : (a : ℕ) → a < b * (a / b) + b
  upper a = omega (arith, div-add-mod a b, mod-lt a positive)

  -- A page follows exactly if rows are left after those of this page and the earlier ones.
  more_pages : (total page : ℕ) → leb (page + 1) (ceil_div total b) ≡ ltb (b * page) total
  unfolding ceil_div
  more_pages total page =
      let q = (total + (b - 1)) / b in
      let low = lower (total + (b - 1)) in
      let high = upper (total + (b - 1)) in
      elim (Bool-cases (leb (page + 1) q)) [
        | inl more ↦
            let k : b * (page + 1) ≤ b * q = mul-le-mul_left b (ground arith) in
            ground (arith, mul-add b page 1)
        | inr last ↦ let k : b * q ≤ b * page = mul-le-mul_left b (ground arith) in ground arith
      ]

page_end : (page size : ℕ) → 1 ≤ page → size * (page - 1) + size ≡ size * page
page_end page size h = omega (arith, mul-add size (page - 1) 1, ap (λ n. size * n) (back page h))
  where
    back : (n : ℕ) → 1 ≤ n → n - 1 + 1 ≡ n
    back n h = omega arith

module _ {A : Type 0} (items : List A) (total : ℕ) (p : PageParams) (positive : 0 < p.size) where
  -- A page links to a next one exactly if rows are left after its own, from a page that is at
  -- least 1 on.
  pub next-rows_left :
      1 ≤ p.page
      → (create items p total).links.next ≡ (
          if ltb ((to_raw_params p).offset + (to_raw_params p).limit) total
          then some (record { page = p.page + 1; size = p.size })
          else none)
  unfolding create to_raw_params
  next-rows_left first = rw (more_pages p.size positive total p.page, page_end p.page p.size first)

  -- Every row of a query is on a page from the first to the last one.
  pub create-IsOn :
      (row : ℕ)
      → row < total
      → (n : ℕ) × (1 ≤ n)
        × (n ≤ (create items p total).total_pages)
        × IsOn row (record { page = n; size = p.size })
  unfolding create to_raw_params
  create-IsOn row h =
      let n = row / p.size in
      let low = lower p.size positive row in
      let high = upper p.size positive row in
      let e : n + 1 - 1 ≡ n = omega arith in
      (n + 1, omega arith, ground (arith, more_pages p.size positive total n), rw e (low, high))
