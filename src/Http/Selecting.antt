-- ===== src/Http/Selecting.antt =====
-- Which entry of the router takes a request: what holds of every entry that matches its path holds
-- of the answer.
use fincart.Prelude.{String, List, [], ◌∷◌, ◌≡◌, inl, inr, some, Bool, true, false, str_eq}
use fincart.Prelude.Tests.{Bool-cases, Option-cases}
use fincart.Store.Monad.{Session}
use fincart.Http.Message.{World, Request, Response, nothing, reply}
use fincart.Http.Middleware.{cors}
use fincart.Http.Mux.{Entry, split_path, match, serves, select, is_clean, serve_mux}
use fincart.Http.Router.{new_router, serve}

-- P holds of each entry, in their order.
infixr 4 ◌▹◌
pub data Each (P : Entry → Type 0) : List Entry → Type 0 where
  done : Each P []
  ◌▹◌ : {e : Entry} {es : List Entry} → P e → Each P es → Each P (e ∷ es)

module _ (P : Response × Session → Type 0) (parts : List String) (r : Request) (s : Session) where
  -- The entry does what P says wherever the path matches and the method is served.
  abbrev pub Answers : Entry → Type 0
  Answers e =
      (values : List (String × String))
      → match e.pattern parts ≡ some values
      → serves e.method r.method ≡ true
      → P (e.handler (record r { path_values = values }) s)

  pub select_each :
      (entries : List Entry) (known : Bool)
      → ((status : Bool) → P (select [] parts status r s))
      → Each Answers entries
      → P (select entries parts known r s)
  unfolding select
  select_each [] known other done = other known
  select_each (e ∷ entries) known other (h ▹ hs) = elim (Option-cases (match e.pattern parts)) [
    | inl other_path ↦ rw (other_path, select) (select_each entries known other hs)
    | inr (values, match_) ↦ elim (Bool-cases (serves e.method r.method)) [
      | inl served ↦ rw (match_, served, select) (h values match_ served)
      | inr other_method ↦ rw (match_, other_method, select) (select_each entries true other hs)
    ]
  ]

-- CORS answers OPTIONS, the router redirects an unclean path, and the rest is the entries' to answer.
pub serve_each :
    (P : Response × Session → Type 0) (w : World) (r : Request) (s : Session)
    → (str_eq r.method "OPTIONS" ≡ true → P (reply 204 nothing, s))
    → P (reply 301 nothing, s)
    → ((status : Bool) → P (select [] (split_path r.path) status r s))
    → Each (Answers P (split_path r.path) r s) (new_router w)
    → P (serve w r s)
unfolding serve cors serve_mux
serve_each P w r s options moved other h = elim (Bool-cases (str_eq r.method "OPTIONS")) [
  | inl asked ↦ rw asked (options asked)
  | inr asked ↦ elim (Bool-cases (is_clean (split_path r.path))) [
    | inl clean ↦
        rw (asked, clean) (select_each P (split_path r.path) r s (new_router w) false other h)
    | inr unclean ↦ rw (asked, unclean) moved
  ]
]
