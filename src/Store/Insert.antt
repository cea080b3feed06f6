-- ===== src/Store/Insert.antt =====
-- INSERT into the order tables, with their sequences and constraints (migrations 002, 004, 006).
use Prim.Native.String.{count}
use fincart.Prelude.{String, suc, Bool, List, [], ◌∷◌, ◌++◌, not, ◌&&◌, ◌||◌}
use fincart.Prelude.Tests.{leb, if◌then◌else◌}
use fincart.Prelude.Int.{ℤ, pos, eqb_ℤ, leb_ℤ, ltb_ℤ, in_int4}
use fincart.Order.Status.{draft, status_eq}
use fincart.Store.Schema.{Order, OrderItem, Db}
use fincart.Store.Rows.{any_where}
use fincart.Store.Monad.{Result, ok, err, violation, check, foreign_key, unique, out_of_range}

-- CHAR(3) and VARCHAR(3) hold three characters.
unfoldable pub fits_currency : String → Bool
fits_currency c = leb (count c) 3

-- The user has a draft: what idx_orders_one_draft_per_user looks for.
unfoldable pub has_draft : ℤ → List Order → Bool
has_draft user_id = any_where (λ o. eqb_ℤ o.user_id user_id && status_eq o.status draft)

-- The row with the next id; a refused row has used its id up.
unfoldable pub insert_order : Order → Db → Result Order × Db
insert_order row db =
    let id = pos (suc db.order_seq) in
    let stored = record row { id = id } in
    let counted = record db { order_seq = suc db.order_seq } in
    if not (fits_currency row.currency)
    then (err (violation out_of_range), counted)
    else if status_eq row.status draft && has_draft row.user_id db.orders
    then (err (violation unique), counted)
    else if any_where (λ u. eqb_ℤ u.id row.user_id) db.users
    then (ok stored, record db { orders = db.orders ++ stored ∷ []; order_seq = suc db.order_seq })
    else (err (violation foreign_key), counted)

unfoldable pub insert_item : OrderItem → Db → Result OrderItem × Db
insert_item row db =
    let stored = record row { id = pos (suc db.item_seq) } in
    let counted = record db { item_seq = suc db.item_seq } in
    if not (in_int4 row.quantity)
    then (err (violation out_of_range), db)
    else if leb_ℤ row.quantity (pos 0) || ltb_ℤ row.unit_price (pos 0)
    then (err (violation check), counted)
    else if any_where (λ o. eqb_ℤ o.id row.order_id) db.orders
        && any_where (λ p. eqb_ℤ p.id row.product_id) db.products
    then (ok stored, record db { items = db.items ++ stored ∷ []; item_seq = suc db.item_seq })
    else (err (violation foreign_key), counted)
