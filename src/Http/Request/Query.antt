-- ===== src/Http/Request/Query.antt =====
-- What the loop of `parseQueryParams` computes.
use cyclone_httpserver.Common.{
  ℕ, zero, suc, ◌≤◌, ◌≡◌, refl, List, [], ◌∷◌, ◌++◌, foldl, none, some, Option-cases, if◌then◌else◌,
  length, arith, ◌==◌, inl, inr, All, All-append, ◌≢◌, map, ap, ◌∙◌,
}
use cyclone_httpserver.Common.Bytes.{Text, Free, cut, cut_at, cut-Free-none, length-cut}
use cyclone_httpserver.Http.Request.{
  HttpRequest, parse_query_param, parse_query_loop, parse_query_params, set_query_params,
}

abbrev prepend : ℕ → List Text → List Text
prepend x [] = (x ∷ []) ∷ []
prepend x (p ∷ ps) = (x ∷ p) ∷ ps

-- The pieces that the ampersands of a query string part; none behind a last one.
unfoldable pub pieces : Text → List Text
pieces [] = []
pieces (x ∷ s) = if x == b'&' then [] ∷ pieces s else prepend x (pieces s)

pieces-cut :
    (x : ℕ) (s : Text) {piece rest : Text}
    → cut b'&' (x ∷ s) ≡ some (piece, rest)
    → pieces (x ∷ s) ≡ piece ∷ pieces rest
unfolding pieces
pieces-cut x [] h = ground arith
pieces-cut x (y ∷ s) h = elim (Option-cases (cut b'&' (y ∷ s))) [
  | inl e ↦ ground arith
  | inr ((b, r), e) ↦ ground (arith, pieces-cut y s e)
]

pieces-uncut : (x : ℕ) (s : Text) → cut b'&' (x ∷ s) ≡ none → pieces (x ∷ s) ≡ (x ∷ s) ∷ []
unfolding pieces
pieces-uncut x [] h = ground arith
pieces-uncut x (y ∷ s) h = ground (arith, pieces-uncut y s)

abbrev step : HttpRequest → Text → HttpRequest
step r piece = parse_query_param piece r

parse_query_loop_lem :
    (fuel : ℕ) (s : Text) (r : HttpRequest)
    → length s ≤ fuel
    → parse_query_loop fuel s r ≡ foldl step r (pieces s)
unfolding parse_query_loop pieces
parse_query_loop_lem zero [] r h = refl
parse_query_loop_lem zero (x ∷ s) r h = elim h [ ]
parse_query_loop_lem (suc fuel) [] r h = refl
parse_query_loop_lem (suc fuel) (x ∷ s) r h = elim (Option-cases (cut b'&' (x ∷ s))) [
  | inl e ↦ rw (e, parse_query_loop, pieces-uncut x s e)
  | inr ((piece, rest), e) ↦
      rw (e, parse_query_loop, pieces-cut x s e)
        (parse_query_loop_lem fuel rest (parse_query_param piece r)
          (omega (arith, length-cut b'&' (x ∷ s) e)))
]

-- For every query string, the loop of parseQueryParams ends, and sets the parameter of each piece
-- between the ampersands, from left to right.
pub parse_query_params-pieces :
    (s : Text) (r : HttpRequest)
    → parse_query_params s r ≡ foldl (λ r piece. parse_query_param piece r) r (pieces s)
unfolding parse_query_params
parse_query_params-pieces s r = parse_query_loop_lem (length s) s r (omega arith)

-- `key=value`, and such pairs with `&` between them.
abbrev pub print_pair : Text × Text → Text
print_pair (key, value) = key ++ b'=' ∷ value

abbrev pub print_query : List (Text × Text) → Text
print_query [] = []
print_query (p ∷ []) = print_pair p
print_query (p ∷ q ∷ ps) = print_pair p ++ b'&' ∷ print_query (q ∷ ps)

-- A key holds neither `=` nor `&`, a value no `&`.
abbrev pub IsPlainPair : Text × Text → Type 0
IsPlainPair (key, value) = Free b'=' key × Free b'&' key × Free b'&' value

pieces-Free : (x : ℕ) (p : Text) → Free b'&' (x ∷ p) → pieces (x ∷ p) ≡ (x ∷ p) ∷ []
pieces-Free x p h = pieces-uncut x p (cut-Free-none b'&' (x ∷ p) h)

pieces_front : (p rest : Text) → Free b'&' p → pieces (p ++ b'&' ∷ rest) ≡ p ∷ pieces rest
pieces_front [] rest h = pieces-cut b'&' rest (cut_at b'&' [] rest h)
pieces_front (x ∷ p) rest h = pieces-cut x (p ++ b'&' ∷ rest) (cut_at b'&' (x ∷ p) rest h)

Free-print_pair : (p : Text × Text) → IsPlainPair p → Free b'&' (print_pair p)
Free-print_pair (key, value) (_, k, v) =
    All-append (λ x. x ≢ b'&') key (b'=' ∷ value) k (omega arith, v)

pieces-print_pair : (p : Text × Text) → IsPlainPair p → pieces (print_pair p) ≡ print_pair p ∷ []
pieces-print_pair ([], value) h = pieces-Free b'=' value (Free-print_pair ([], value) h)
pieces-print_pair (x ∷ key, value) h =
    pieces-Free x (key ++ b'=' ∷ value) (Free-print_pair (x ∷ key, value) h)

pieces-print_query :
    (ps : List (Text × Text)) → All IsPlainPair ps → pieces (print_query ps) ≡ map print_pair ps
unfolding pieces
pieces-print_query [] h = refl
pieces-print_query (p ∷ []) (h, _) = pieces-print_pair p h
pieces-print_query (p ∷ q ∷ ps) (h, hs) =
    pieces_front (print_pair p) (print_query (q ∷ ps)) (Free-print_pair p h)
    ∙ ap (◌∷◌ (print_pair p)) (pieces-print_query (q ∷ ps) hs)

abbrev pub set_pair : HttpRequest → Text × Text → HttpRequest
set_pair r (key, value) = set_query_params key value r

parse-print_pair :
    (p : Text × Text) (r : HttpRequest)
    → IsPlainPair p
    → parse_query_param (print_pair p) r ≡ set_pair r p
unfolding parse_query_param
parse-print_pair (key, value) r (h, _, _) = rw (cut_at b'=' key value h, parse_query_param)

set_pairs :
    (ps : List (Text × Text)) (r : HttpRequest)
    → All IsPlainPair ps
    → foldl step r (map print_pair ps) ≡ foldl set_pair r ps
set_pairs [] r h = refl
set_pairs (p ∷ ps) r (h, hs) =
    ap (λ q. foldl step q (map print_pair ps)) (parse-print_pair p r h)
    ∙ set_pairs ps (set_pair r p) hs

-- A query string that is printed from key-value pairs, whose keys hold neither = nor & and whose
-- values no &, is parsed to those pairs, set in their order.
pub parse_query_params-print_query :
    (ps : List (Text × Text)) (r : HttpRequest)
    → All IsPlainPair ps
    → parse_query_params (print_query ps) r ≡ foldl set_pair r ps
parse_query_params-print_query ps r h =
    parse_query_params-pieces (print_query ps) r
    ∙ ap (foldl step r) (pieces-print_query ps h)
    ∙ set_pairs ps r h
