-- ===== src/Server/Requests.antt =====
-- The server over time: any requests, each in a world of its own, one after another.
use fincart.Prelude.{List, [], ◌∷◌}
use fincart.Store.Schema.{Db}
use fincart.Store.Monad.{Session}
use fincart.Http.Message.{World, Request}
use fincart.Http.Router.{serve}
use fincart.Server.Kept.{Kept}
use fincart.Server.Routes.{serve-step}

-- The session after the requests, whatever was answered.
unfoldable pub serve_all : List (World × Request) → Session → Session
serve_all [] s = s
serve_all ((w, r) ∷ rest) s = serve_all rest (serve w r s).1

-- What each statement keeps is kept by any requests.
pub serve_all-step :
    {R : Db → Db → Type 0} (k : Kept R) (requests : List (World × Request)) (s : Session)
    → R s.db (serve_all requests s).db
unfolding serve_all
serve_all-step k [] s = k.step.same s.db
serve_all-step k ((w, r) ∷ rest) s =
    k.step.next s.db (serve w r s).1.db _ (serve-step k w r s)
      (serve_all-step k rest (serve w r s).1)
