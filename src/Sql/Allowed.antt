-- ===== src/Sql/Allowed.antt =====
-- The statements that `parse_sql_script` of backend/utils/sql_parser.py lets through.
use mc_bd.Prelude.{◌≡◌, refl, List, [], ◌∷◌, Bool, true, ◌&&◌, ◌||◌, if◌then◌else◌, arith}
use mc_bd.Prelude.Text.{Text}
use mc_bd.Errors.{ok, err, bad_request}
use mc_bd.Sql.{
  Strings, allowed_starts, is_allowed, to_check, is_skipped, appended, parse_statements,
}

module _ (S : Strings) where
  abbrev pub may_run : Text → Bool
  may_run t = is_allowed allowed_starts (S.lower (to_check S t))

  -- Every statement that is not skipped may run.
  pub all_may_run : List Text → Bool
  all_may_run [] = true
  all_may_run (t ∷ ts) = (is_skipped S t || may_run t) && all_may_run ts

  pub unskipped : List Text → List Text
  unskipped [] = []
  unskipped (t ∷ ts) = let rest = unskipped ts in if is_skipped S t then rest else t ∷ rest

  -- A script is accepted exactly if each of its statements is empty or begins with an allowed word
  -- after its leading comments; then the result is its other statements, in their order. One
  -- statement that may not run refuses the whole script.
  pub parse_statements_iff :
      (ts : List Text)
      → parse_statements S ts ≡ (
          if all_may_run ts
          then ok (unskipped ts)
          else err (bad_request "SQL 脚本文件中存在非法操作，仅允许 SELECT、INSERT、CREATE、DROP、ALTER、COMMENT"))
  unfolding parse_statements all_may_run unskipped appended
  parse_statements_iff [] = refl
  parse_statements_iff (t ∷ ts) = rw (parse_statements_iff ts) (ground arith)
