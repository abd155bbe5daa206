-- ===== src/Sql.antt =====
-- backend/utils/sql_parser.py: which statements of a script may run. The statements are those of
-- sqlparse's `split`, and `splitlines`, `strip` and `lower` of Python are parameters too. The reading
-- of the file is left out.
pub mod Allowed
use mc_bd.Prelude.{
  Option, none, some, List, [], ◌∷◌, ◌++◌, Bool, true, false, not, ◌&&◌, ◌||◌, if◌then◌else◌,
}
use mc_bd.Prelude.Text.{Text, codes, text_eq, starts_with}
use mc_bd.Errors.{Result, ok, err, bad_request}

pub record Strings : Type 0 where
  pub splitlines : Text → List Text
  pub strip : Text → Text
  pub lower : Text → Text

unfoldable pub allowed_starts : List Text
allowed_starts =
    codes "select"
    ∷ codes "insert"
    ∷ codes "create"
    ∷ codes "drop"
    ∷ codes "alter"
    ∷ codes "comment"
    ∷ []

unfoldable pub is_allowed : List Text → Text → Bool
is_allowed [] t = false
is_allowed (start ∷ starts) t = starts_with start t || is_allowed starts t

-- '\n'.join
unfoldable pub join_lines : List Text → Text
join_lines [] = []
join_lines (t ∷ []) = t
join_lines (t ∷ u ∷ ts) = t ++ b'\n' ∷ join_lines (u ∷ ts)

is_empty : Text → Bool
is_empty [] = true
is_empty (c ∷ t) = false

module _ (S : Strings) where
  -- `s and not s.startswith('--')`, for a stripped line
  is_code : Text → Bool
  unfolding is_empty
  is_code line = not (is_empty (S.strip line)) && not (starts_with (codes "--") (S.strip line))

  -- The lines from the first with code on; none if there is no such line.
  unfoldable pub from_code : List Text → Option (List Text)
  unfolding is_code
  from_code [] = none
  from_code (line ∷ lines) =
      let rest = from_code lines in if is_code line then some (line ∷ lines) else rest

  -- Without a line of code `start` stays 0.
  kept_lines : Option (List Text) → List Text → List Text
  kept_lines none lines = lines
  kept_lines (some rest) lines = rest

  unfoldable pub strip_leading_comments : Text → Text
  unfolding from_code kept_lines
  strip_leading_comments stmt =
      let lines = S.splitlines stmt in S.strip (join_lines (kept_lines (from_code lines) lines))

  abbrev pub to_check : Text → Text
  to_check statement = strip_leading_comments (S.strip statement)

  unfoldable pub is_skipped : Text → Bool
  unfolding is_empty
  is_skipped statement = is_empty (S.strip statement) || is_empty (to_check statement)

  appended : Text → Result (List Text) → Result (List Text)
  appended t (err e) = err e
  appended t (ok ts) = ok (t ∷ ts)

  -- parse_sql_script, from the statements of `split` on
  unfoldable pub parse_statements : List Text → Result (List Text)
  unfolding appended
  parse_statements [] = ok []
  parse_statements (statement ∷ statements) =
      let rest = parse_statements statements in
      if is_skipped statement
      then rest
      else if not (is_allowed allowed_starts (S.lower (to_check statement)))
      then err (bad_request "SQL 脚本文件中存在非法操作，仅允许 SELECT、INSERT、CREATE、DROP、ALTER、COMMENT")
      else appended statement rest
