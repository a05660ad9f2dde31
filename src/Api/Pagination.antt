-- ===== src/Api/Pagination.antt =====
-- internal/api/http/pagination.go: `parsePagination`, on the values of the two query parameters.
use maga.Base.{
  ℕ, ◌≤◌, ◌≡◌, arith, ℤ, pos, negsuc, [], ◌∷◌, Option, none, some, Str, is_empty, ltb,
  if◌then◌else◌, Result, ok, err, ◌>>=◌, >>=-eq-ok,
}
use maga.Go.Strconv

pub data PageError : Type 0 where
  limit_not_integer limit_negative offset_not_integer offset_negative : PageError

abbrev default_page_limit : ℕ
default_page_limit = 100

abbrev pub max_page_limit : ℕ
max_page_limit = 1000

abbrev clamp_limit : Option ℤ → Result PageError ℕ
clamp_limit none = err limit_not_integer
clamp_limit (some (negsuc n)) = err limit_negative
clamp_limit (some (pos n)) = if ltb max_page_limit n then ok max_page_limit else ok n

unfoldable pub parse_limit : Str → Result PageError ℕ
parse_limit raw = if is_empty raw then ok default_page_limit else clamp_limit (Strconv.atoi raw)

abbrev accept_offset : Option ℤ → Result PageError ℕ
accept_offset none = err offset_not_integer
accept_offset (some (negsuc n)) = err offset_negative
accept_offset (some (pos n)) = ok n

unfoldable pub parse_offset : Str → Result PageError ℕ
parse_offset raw = if is_empty raw then ok 0 else accept_offset (Strconv.atoi raw)

unfoldable pub parse_pagination : Str → Str → Result PageError (ℕ × ℕ)
unfolding parse_limit parse_offset
parse_pagination raw_limit raw_offset = do
  limit ← parse_limit raw_limit
  offset ← parse_offset raw_offset
  ok (limit, offset)

clamp_limit-le : (n : Option ℤ) {k : ℕ} → clamp_limit n ≡ ok k → k ≤ max_page_limit
clamp_limit-le none h = cc
clamp_limit-le (some (negsuc n)) h = cc
clamp_limit-le (some (pos n)) h = ground arith

parse_limit-le : (raw : Str) {k : ℕ} → parse_limit raw ≡ ok k → k ≤ max_page_limit
unfolding parse_limit
parse_limit-le [] h = ground arith
parse_limit-le (c ∷ s) h = clamp_limit-le (Strconv.atoi (c ∷ s)) h

-- A page that is accepted has at most 1000 entries, whatever limit was asked for, and its limit and offset
-- are those that the two parameters give one by one.
pub parse_pagination-le :
    (raw_limit raw_offset : Str) (limit offset : ℕ)
    → parse_pagination raw_limit raw_offset ≡ ok (limit, offset)
    → (limit ≤ max_page_limit)
      × (parse_limit raw_limit ≡ ok limit)
      × (parse_offset raw_offset ≡ ok offset)
unfolding parse_pagination
parse_pagination-le raw_limit raw_offset limit offset h =
    let (l, first, rest) =
      >>=-eq-ok (parse_limit raw_limit) (λ l. parse_offset raw_offset >>= λ o. ok (l, o)) h in
    let (o, second, made) = >>=-eq-ok (parse_offset raw_offset) (λ o. ok (l, o)) rest in
    let same : l ≡ limit = ground arith in
    let same' : o ≡ offset = ground arith in
    (rw (← same) (parse_limit-le raw_limit first), rw (← same) first, rw (← same') second)
