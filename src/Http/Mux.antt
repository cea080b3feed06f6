-- ===== src/Http/Mux.antt =====
-- `http.ServeMux` of Go's library, for the patterns that the router registers: a method, and a path
-- of literal segments and of wildcards that stand for one segment.
use Prim.Native.Char.{code}
use Prim.Native.String
use fincart.Prelude.{
  String, Bool, true, false, List, [], ◌∷◌, Option, none, some, not, ◌&&◌, ◌||◌, str_eq,
}
use fincart.Prelude.Tests.{◌==◌, if◌then◌else◌}
use fincart.Http.Message.{Handler, nothing, text, reply}

-- The texts between slashes; `word` is the one that is being read.
split_from : String → String → List String
split_from word String.[] = word ∷ []
split_from word (String.◌∷◌ c s) =
    let closed = split_from "" s in
    let longer = split_from (String.◌++◌ word (String.◌∷◌ c "")) s in
    if code c == b'/' then word ∷ closed else longer

unfoldable pub split_path : String → List String
unfolding split_from
split_path s = split_from "" s

pub data Segment : Type 0 where
  lit wild : String → Segment

-- "{name}" is a wildcard.
wildcard : String → String → Segment
wildcard name String.[] = lit name
wildcard name (String.◌∷◌ c s) =
    let longer = wildcard (String.◌++◌ name (String.◌∷◌ c "")) s in
    if code c == b'}' then wild name else longer

segment : String → Segment
segment String.[] = lit ""
segment (String.◌∷◌ c s) = if code c == b'{' then wildcard "" s else lit (String.◌∷◌ c s)

unfoldable pub segments : List String → List Segment
unfolding segment wildcard
segments [] = []
segments (part ∷ parts) = segment part ∷ segments parts

-- A registered handler.
pub record Entry : Type 0 where
  pub method : String
  pub pattern : List Segment
  pub handler : Handler

-- The values of the wildcards, if the path matches: a wildcard takes any segment that is not empty.
unfoldable pub match : List Segment → List String → Option (List (String × String))
match [] [] = some []
match [] (part ∷ parts) = none
match (p ∷ more) [] = none
match (lit s ∷ more) (part ∷ parts) =
    let rest = match more parts in if str_eq s part then rest else none
match (wild name ∷ more) (String.[] ∷ parts) = none
match (wild name ∷ more) (String.◌∷◌ c part ∷ parts) = elim (match more parts) [
  | none ↦ none
  | some values ↦ some ((name, String.◌∷◌ c part) ∷ values)
]

-- GET serves HEAD too.
unfoldable pub serves : String → String → Bool
serves registered asked =
    str_eq registered asked || (str_eq registered "GET" && str_eq asked "HEAD")

-- The handler of the entry that matches. If only the method is wrong the status is 405.
unfoldable pub select : List Entry → List String → Bool → Handler
select [] parts known r s = (
  if known then reply 405 (text "Method Not Allowed") else reply 404 (text "404 page not found"),
  s,
)
select (e ∷ entries) parts known r s =
    let wrong_method = select entries parts true r s in
    let wrong_path = select entries parts known r s in
    elim (match e.pattern parts) [
      | none ↦ wrong_path
      | some values ↦
          if serves e.method r.method
          then e.handler (record r { path_values = values }) s
          else wrong_method
    ]

-- What `cleanPath` leaves alone: an empty first segment, no other but the last, and no dots.
unfoldable pub is_clean_from : List String → Bool
is_clean_from [] = false
is_clean_from (part ∷ []) = not (str_eq part "." || str_eq part "..")
is_clean_from (part ∷ next ∷ parts) =
    not (str_eq part "" || str_eq part "." || str_eq part "..") && is_clean_from (next ∷ parts)

unfoldable pub is_clean : List String → Bool
unfolding is_clean_from
is_clean [] = false
is_clean (first ∷ parts) = str_eq first "" && is_clean_from parts

-- `ServeHTTP`: an unclean path is redirected to the clean one.
unfoldable pub serve_mux : List Entry → Handler
unfolding is_clean
serve_mux entries r s =
    let parts = split_path r.path in
    if is_clean parts then select entries parts false r s else (reply 301 nothing, s)
