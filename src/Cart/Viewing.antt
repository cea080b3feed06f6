-- ===== src/Cart/Viewing.antt =====
-- What `GetCart` shows.
use fincart.Prelude.{◌≡◌, refl, sym, ap, ◌∙◌, Option, some, none, true, false, suc}
use fincart.Prelude.Tests.{if◌then◌else◌}
use fincart.Prelude.Int.{ℤ, pos, eqb_ℤ, is_nonpositive}
use fincart.Order.Status.{draft}
use fincart.Store.Schema.{Order, Db}
use fincart.Store.Rows.{find_where}
use fincart.Store.Monad.{ok, Env, Session, pure}
use fincart.Store.Hoare.{>>=-eq-ok}
use fincart.Store.Inversion.{pure-eq-ok, query-eq-ok, guard-eq-ok}
use fincart.Database.{within_transaction}
use fincart.Database.Atomic.{within_transaction-eq-ok}
use fincart.Cart.Model.{Cart, of_row, zero_cart}
use fincart.Cart.Repository
use fincart.Cart.Repository.{is_draft_of, draft_or_zero}
use fincart.Cart.Service.{get_cart, get_cart_body, with_items}
use fincart.Cart.Totals.{rows_of, get_items-eq-ok}

-- The user's draft with its items, or an empty one.
unfoldable pub shown : ℤ → Db → Option Order → Cart
shown user_id db none = record zero_cart { user_id = user_id; status = draft }
shown user_id db (some o) = record (of_row o) { items = rows_of o.id db }

with_items-eq-ok :
    (env : Env) (cart c : Cart) (s s' : Session)
    → with_items env cart s ≡ (ok c, s')
    → (c ≡ record cart { items = rows_of cart.id s.db }) × (s'.db ≡ s.db)
unfolding with_items
with_items-eq-ok env cart c s s' h =
    let (items, s1, e1, h1) = >>=-eq-ok (Repository.get_items env cart.id) _ s s' c h in
    let (rows, d1) = get_items-eq-ok env cart.id s s1 items e1 in
    let (ec, d2) = pure-eq-ok (record cart { items = items }) c s1 s' h1 in
    (
      sym ec ∙ ap (λ x. record cart { items = x }) (sym rows),
      ap (λ (x : Session). x.db) (sym d2) ∙ d1,
    )

-- The two ways of `GetCart`, by what the query has found.
viewed :
    (env : Env) (user_id : ℤ) (r : Option Order) (cart c : Cart) (s s' : Session)
    → ((o : Order) → r ≡ some o → eqb_ℤ o.id (pos 0) ≡ false)
    → draft_or_zero r ≡ ok cart
    → (if eqb_ℤ cart.id (pos 0)
          then pure (record zero_cart { user_id = user_id; status = draft })
          else with_items env cart)
        s
      ≡ (ok c, s')
    → (c ≡ shown user_id s.db r) × (s'.db ≡ s.db)
unfolding draft_or_zero shown zero_cart of_row eqb_ℤ
viewed env user_id none cart c s s' numbered e h =
    let same : zero_cart ≡ cart = cc in
    let zero : eqb_ℤ cart.id (pos 0) ≡ true = ap (λ (x : Cart). eqb_ℤ x.id (pos 0)) (sym same) in
    let (ec, es) = pure-eq-ok _ c s s' (rw zero at h) in
    (sym ec, ap (λ (x : Session). x.db) (sym es))
viewed env user_id (some o) cart c s s' numbered e h =
    let same : of_row o ≡ cart = cc in
    let other : eqb_ℤ cart.id (pos 0) ≡ false =
      ap (λ (x : Cart). eqb_ℤ x.id (pos 0)) (sym same) ∙ numbered o refl in
    let (ec, ed) = with_items-eq-ok env cart c s s' (rw other at h) in
    (ec ∙ ap (λ (x : Cart). record x { items = rows_of x.id s.db }) (sym same), ed)

get_cart_body-eq-ok :
    (env : Env) (user_id : ℤ) (s s' : Session) (c : Cart)
    → ((o : Order)
        → find_where (is_draft_of user_id) s.db.orders ≡ some o
        → eqb_ℤ o.id (pos 0) ≡ false)
    → get_cart_body env user_id s ≡ (ok c, s')
    → (c ≡ shown user_id s.db (find_where (is_draft_of user_id) s.db.orders)) × (s'.db ≡ s.db)
unfolding get_cart_body Repository.get_draft
get_cart_body-eq-ok env user_id s s' c numbered h =
    let (cart, s1, e1, h1) = >>=-eq-ok (Repository.get_draft env user_id) _ s s' c h in
    let (answer, d1, _) =
      query-eq-ok env (λ d. draft_or_zero (find_where (is_draft_of user_id) d.orders)) s s1 cart
        e1 in
    let (e, d) =
      viewed env user_id (find_where (is_draft_of user_id) s.db.orders) cart c s1 s' numbered answer
        h1 in
    (e ∙ ap (λ x. shown user_id x (find_where (is_draft_of user_id) s.db.orders)) d1, d ∙ d1)

-- If no draft has the id 0, which the sequence never gives out, GetCart without error shows the
-- user's draft with all of its items, or an empty cart if the user has no draft, and changes no row.
pub get_cart_lem :
    (env : Env) (user_id : ℤ) (s s' : Session) (c : Cart)
    → ((o : Order)
        → find_where (is_draft_of user_id) s.db.orders ≡ some o
        → eqb_ℤ o.id (pos 0) ≡ false)
    → get_cart env user_id s ≡ (ok c, s')
    → (c ≡ shown user_id s.db (find_where (is_draft_of user_id) s.db.orders)) × (s'.db ≡ s.db)
unfolding get_cart
get_cart_lem env user_id s s' c numbered h =
    let (_, h0) =
      guard-eq-ok (is_nonpositive user_id) _ (within_transaction env (get_cart_body env user_id)) s
        s' c h in
    let (t, e, d, _) = within_transaction-eq-ok env (get_cart_body env user_id) s s' c h0 in
    let (shows, same) =
      get_cart_body-eq-ok env user_id (record s { calls = suc s.calls }) t c numbered e in
    (shows, d ∙ same)
