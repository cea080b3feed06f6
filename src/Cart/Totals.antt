-- ===== src/Cart/Totals.antt =====
-- The total amount of a cart, after a change of its items.
use mathlib.Core.Option
use fincart.Prelude.{
  String, List, [], ◌∷◌, ◌≡◌, refl, sym, ◌∙◌, ap, Bool, Option, none, some, arith,
}
use fincart.Prelude.Tests.{if◌then◌else◌}
use fincart.Prelude.Lists.{is_empty}
use fincart.Prelude.Int.{ℤ, pos, eqb_ℤ, eqb_ℤ_iff}
use fincart.Store.Schema.{Order, Db}
use fincart.Store.Rows.{find_where, select_where, update_where}
use fincart.Store.Monad.{Result, ok, Env, Session, ◌>>=◌}
use fincart.Store.Hoare.{>>=-eq-ok}
use fincart.Store.Inversion.{ok_value, pure-eq-ok, statement-eq-ok, query-eq-ok}
use fincart.Cart.Model.{Cart, Item, of_row}
use fincart.Cart.Repository.{
  join, is_draft, set_total, update_total, get_items, get_draft_by_id, found_draft,
}
use fincart.Cart.Service.{add_up, lift, recalculate, load_cart, refreshed}

module _ {A : Type 0} where
  -- A row that an update leaves in its WHERE clause is found with its new columns.
  pub find_where-update_same :
      (p : A → Bool) (f : A → A) (xs : List A)
      → ((x : A) → p (f x) ≡ p x)
      → find_where p (update_where p f xs) ≡ Option.map f (find_where p xs)
  find_where-update_same p f [] same = refl
  find_where-update_same p f (x ∷ xs) same =
      ground (arith, same x, find_where-update_same p f xs same)

-- The items of a cart, as its queries read them.
abbrev pub rows_of : ℤ → Db → List Item
rows_of id db = join db.products (select_where (λ i. eqb_ℤ i.order_id id) db.items)

abbrev pub with_total : ℤ → ℤ → String → Db → Db
with_total id total currency db = record db {
  orders =
      update_where (is_draft id) (λ o. record o { total_amount = total; currency = currency })
        db.orders;
}

set_total_lem :
    (id total : ℤ) (currency : String) (d d' : Db) (u : Unit {0})
    → set_total id total currency d ≡ (ok u, d')
    → d' ≡ with_total id total currency d
unfolding set_total
set_total_lem id total currency d d' u h = ground arith

pub update_total-eq-ok :
    (env : Env) (id total : ℤ) (currency : String) (s s' : Session) (u : Unit {0})
    → update_total env id total currency s ≡ (ok u, s')
    → s'.db ≡ with_total id total currency s.db
unfolding update_total
update_total-eq-ok env id total currency s s' u h =
    let (e, _) = statement-eq-ok env (set_total id total currency) s s' u h in
    set_total_lem id total currency s.db s'.db u e

pub get_items-eq-ok :
    (env : Env) (id : ℤ) (s s' : Session) (items : List Item)
    → get_items env id s ≡ (ok items, s')
    → (rows_of id s.db ≡ items) × (s'.db ≡ s.db)
unfolding get_items
get_items-eq-ok env id s s' items h =
    let (rows, same, _) = query-eq-ok env (λ d. ok (rows_of id d)) s s' items h in
    (ok_value _ items rows, same)

lift-eq-ok :
    {A : Type 0} (r : Result A) (s s' : Session) (a : A)
    → lift r s ≡ (ok a, s')
    → (r ≡ ok a) × (s' ≡ s)
unfolding lift
lift-eq-ok r s s' a h = (cc, cc)

-- What the two ways of `recalculate` have in common.
total_written :
    (env : Env) (id : ℤ) (items : List Item) (s s' : Session) (u : Unit {0})
    → (if is_empty items then update_total env id (pos 0) "" else do
      (total, currency) ← lift (add_up items (pos 0) "")
      update_total env id total currency)
        s
      ≡ (ok u, s')
    → (t : ℤ × String) × (add_up items (pos 0) "" ≡ ok t) × (s'.db ≡ with_total id t.0 t.1 s.db)
total_written env id [] s s' u h =
    ((pos 0, ""), unfold add_up in refl, update_total-eq-ok env id (pos 0) "" s s' u h)
total_written env id (i ∷ items) s s' u h =
    let (t, s1, e, h1) = >>=-eq-ok (lift (add_up (i ∷ items) (pos 0) "")) _ s s' u h in
    let (sum, same) = lift-eq-ok (add_up (i ∷ items) (pos 0) "") s s1 t e in
    (
      t,
      sum,
      update_total-eq-ok env id t.0 t.1 s1 s' u h1
          ∙ ap (λ (x : Session). with_total id t.0 t.1 x.db) same,
    )

found_draft_row :
    (r : Option Order) (c : Cart)
    → found_draft r ≡ ok c
    → (o : Order) × (r ≡ some o) × (of_row o ≡ c)
unfolding found_draft
found_draft_row none c h = cc
found_draft_row (some o) c h = (o, refl, cc)

recalculate-eq-ok :
    (env : Env) (id : ℤ) (s s' : Session) (u : Unit {0})
    → recalculate env id s ≡ (ok u, s')
    → (t : ℤ × String) × (add_up (rows_of id s.db) (pos 0) "" ≡ ok t)
      × (s'.db ≡ with_total id t.0 t.1 s.db)
unfolding recalculate
recalculate-eq-ok env id s s' u h =
    let (items, s1, e, h1) = >>=-eq-ok (get_items env id) _ s s' u h in
    let (rows, same) = get_items-eq-ok env id s s1 items e in
    let (t, sum, written) = total_written env id items s1 s' u h1 in
    (t, ap (λ x. add_up x (pos 0) "") rows ∙ sum, written ∙ ap (with_total id t.0 t.1) same)

load_cart-eq-ok :
    (env : Env) (id : ℤ) (s s' : Session) (c : Cart)
    → load_cart env id s ≡ (ok c, s')
    → (o : Order) × (find_where (is_draft id) s.db.orders ≡ some o)
      × (c ≡ record (of_row o) { items = rows_of id s.db })
      × (s'.db ≡ s.db)
unfolding load_cart get_draft_by_id
load_cart-eq-ok env id s s' c h =
    let (cart, s1, e1, h1) = >>=-eq-ok (get_draft_by_id env id) _ s s' c h in
    let (items, s2, e2, h2) = >>=-eq-ok (get_items env id) _ s1 s' c h1 in
    let (eq, same3) = pure-eq-ok (record cart { items = items }) c s2 s' h2 in
    let (rows, same2) = get_items-eq-ok env id s1 s2 items e2 in
    let (answer, same1, _) =
      query-eq-ok env (λ d. found_draft (find_where (is_draft id) d.orders)) s s1 cart e1 in
    let (o, found, row) = found_draft_row _ cart answer in
    (
      o,
      found,
      sym eq
          ∙ ap (λ (x : Cart). record x { items = items }) (sym row)
          ∙ ap (λ x. record (of_row o) { items = x }) (sym rows ∙ ap (rows_of id) same1),
      ap (λ (x : Session). x.db) (sym same3) ∙ same2 ∙ same1,
    )

-- The cart is what the tables say of the draft, and the draft's total amount and currency are those
-- of its items.
abbrev pub IsTotalled : Cart → Db → Type 0
IsTotalled c db =
    (o : Order) × (find_where (is_draft o.id) db.orders ≡ some o)
    × (c ≡ record (of_row o) { items = rows_of o.id db })
    × (add_up (rows_of o.id db) (pos 0) "" ≡ ok (o.total_amount, o.currency))

totalled_row :
    (t : ℤ × String) (r : Option Order) (o : Order)
    → Option.map (λ (o : Order). record o { total_amount = t.0; currency = t.1 }) r ≡ some o
    → (o.total_amount ≡ t.0) × (o.currency ≡ t.1)
totalled_row t none o h = cc
totalled_row t (some x) o h =
    let e : record x { total_amount = t.0; currency = t.1 } ≡ o = cc in
    (ap (λ (r : Order). r.total_amount) (sym e), ap (λ (r : Order). r.currency) (sym e))

draft_id : (id : ℤ) (xs : List Order) (o : Order) → find_where (is_draft id) xs ≡ some o → o.id ≡ id
draft_id id [] o h = cc
draft_id id (x ∷ xs) o h = ground (arith, eqb_ℤ_iff x.id id, draft_id id xs o)

pub refreshed-IsTotalled :
    (env : Env) (id : ℤ) (s s' : Session) (c : Cart)
    → refreshed env id s ≡ (ok c, s')
    → IsTotalled c s'.db
unfolding refreshed
refreshed-IsTotalled env id s s' c h =
    let (u, s1, e1, h1) = >>=-eq-ok (recalculate env id) _ s s' c h in
    let (t, sum, d1) = recalculate-eq-ok env id s s1 u e1 in
    let (o, row, ec, d2) = load_cart-eq-ok env id s1 s' c h1 in
    let there : find_where (is_draft id) (with_total id t.0 t.1 s.db).orders ≡ some o =
      ap (λ (d : Db). find_where (is_draft id) d.orders) (sym d1) ∙ row in
    let (et, ecur) =
      totalled_row t (find_where (is_draft id) s.db.orders) o
        (sym (find_where-update_same (is_draft id) _ s.db.orders (λ x. refl)) ∙ there) in
    let ei = draft_id id s1.db.orders o row in
    (
      o,
      (λ i. find_where (is_draft (ei i)) (d2 i).orders) ∙ row,
      ec ∙ (λ i. record (of_row o) { items = rows_of (sym ei i) (sym d2 i) }),
      (λ i. add_up (rows_of (ei i) ((d2 ∙ d1) i)) (pos 0) "")
          ∙ sum
          ∙ (λ i. ok (sym et i, sym ecur i)),
    )
