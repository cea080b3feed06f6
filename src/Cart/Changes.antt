-- ===== src/Cart/Changes.antt =====
-- What the changes of a cart leave behind: `AddItem`, `UpdateItem` and `DeleteItem`.
use fincart.Prelude.{
  some, str_eq, List, [], ◌∷◌, ◌≡◌, sym, ap, ◌∙◌, ◌||◌, Bool, true, false, arith, String,
}
use fincart.Prelude.Tests.{if◌then◌else◌}
use fincart.Prelude.Int.{
  ℤ, pos, ◌+ℤ◌, ◌*ℤ◌, IsInt64, wrap64, wrap64_of_IsInt64, wrap64-IsInt64, add64, mul64,
  is_nonpositive, +ℤ_zero_right, +ℤ_zero_left,
}
use fincart.Prelude.Wrap.{add64-mul64}
use fincart.Store.Schema.{Order}
use fincart.Store.Monad.{Error, cart_error, CartError, ok, Env, Session, M, fail, ◌>>=◌}
use fincart.Store.Hoare.{Triple, Triple->>=, Triple-fail}
use fincart.Store.Rows.{find_where}
use fincart.Database.Atomic.{Triple-within_transaction}
use fincart.Cart.Model.{Cart, Item, of_row}
use fincart.Cart.Repository.{is_draft}
use fincart.Cart.Service
use fincart.Cart.Totals.{IsTotalled, rows_of, refreshed-IsTotalled}

-- The exact price of the items.
unfoldable pub amount_of : List Item → ℤ
amount_of [] = pos 0
amount_of (item ∷ items) = item.unit_price *ℤ item.quantity +ℤ amount_of items

add_up_step :
    (item : Item) (items : List Item) (t t' : ℤ) (c c' : String)
    → Service.add_up (item ∷ items) t c ≡ ok (t', c')
    → (agreed : String) × (Service.add_up items
          (add64 t (mul64 item.unit_price item.quantity))
          agreed
        ≡ ok (t', c'))
unfolding Service.add_up
add_up_step item items t t' c c' h = (if str_eq c "" then item.currency else c, ground arith)

add_up_nil : (t t' : ℤ) (c c' : String) → Service.add_up [] t c ≡ ok (t', c') → t ≡ t'
unfolding Service.add_up
add_up_nil t t' c c' h = cc

-- The loop of `recalculate` gives the exact price, cut to 64 bits once.
pub add_up_lem :
    (items : List Item) (t t' : ℤ) (c c' : String)
    → IsInt64 t
    → Service.add_up items t c ≡ ok (t', c')
    → t' ≡ wrap64 (t +ℤ amount_of items)
unfolding amount_of
add_up_lem [] t t' c c' small h =
    sym (add_up_nil t t' c c' h)
    ∙ sym (wrap64_of_IsInt64 t small)
    ∙ ap wrap64 (sym (+ℤ_zero_right t))
add_up_lem (item ∷ items) t t' c c' small h =
    let (agreed, h') = add_up_step item items t t' c c' h in
    add_up_lem items (add64 t (mul64 item.unit_price item.quantity)) t' agreed c'
      (unfold add64 in wrap64-IsInt64 _) h'
    ∙ add64-mul64 t item.unit_price item.quantity (amount_of items)

-- A request that changes the items of a cart.
pub data CartChange : Type 0 where
  add : ℤ → ℤ → CartChange
  update : ℤ → ℤ → CartChange
  delete : ℤ → CartChange

unfoldable pub change_cart : Env → ℤ → CartChange → M Cart
change_cart env user_id (add product_id quantity) = Service.add_item env user_id product_id quantity
change_cart env user_id (update product_id quantity) =
    Service.update_item env user_id product_id quantity
change_cart env user_id (delete product_id) = Service.delete_item env user_id product_id

-- Anything at all may come before the part that fixes the total.
after_any :
    {A : Type 0} (m : M A) {f : A → M Cart}
    → ((a : A) → Triple (λ _. Unit) (f a) IsTotalled)
    → Triple (λ _. Unit {0}) (m >>= f) IsTotalled
after_any m h = Triple->>= (record { holds = λ s s' a p e. tt }) h

refreshed-Triple :
    (env : Env) (id : ℤ) → Triple (λ _. Unit {0}) (Service.refreshed env id) IsTotalled
refreshed-Triple env id = record { holds = λ s s' c p e. refreshed-IsTotalled env id s s' c e }

Triple-guard :
    (b : Bool) (e : Error) {m : M Cart}
    → Triple (λ _. Unit {0}) m IsTotalled
    → Triple (λ _. Unit {0}) (if b then fail e else m) IsTotalled
Triple-guard true e h = Triple-fail e
Triple-guard false e h = h

add_item_body-Triple :
    (env : Env) (user_id product_id quantity : ℤ)
    → Triple (λ _. Unit {0}) (Service.add_item_body env user_id product_id quantity) IsTotalled
unfolding Service.add_item_body
add_item_body-Triple env user_id product_id quantity = after_any _ (λ cart. after_any _ (λ product.
    after_any _ (λ existing. after_any _ (λ _. after_any _ (λ _. refreshed-Triple env cart.id)))))

update_item_body-Triple :
    (env : Env) (user_id product_id quantity : ℤ)
    → Triple (λ _. Unit {0}) (Service.update_item_body env user_id product_id quantity) IsTotalled
unfolding Service.update_item_body
update_item_body-Triple env user_id product_id quantity = after_any _ (λ cart.
    after_any _ (λ product. after_any _ (λ _. after_any _ (λ _. refreshed-Triple env cart.id))))

delete_item_body-Triple :
    (env : Env) (user_id product_id : ℤ)
    → Triple (λ _. Unit {0}) (Service.delete_item_body env user_id product_id) IsTotalled
unfolding Service.delete_item_body
delete_item_body-Triple env user_id product_id =
    after_any _ (λ cart. after_any _ (λ _. refreshed-Triple env cart.id))

change_cart-Triple :
    (env : Env) (user_id : ℤ) (change : CartChange)
    → Triple (λ _. Unit {0}) (change_cart env user_id change) IsTotalled
unfolding change_cart Service.add_item Service.update_item Service.delete_item
change_cart-Triple env user_id (add p q) =
    Triple-guard (is_nonpositive user_id || is_nonpositive p) (cart_error CartError.invalid_cart) (
      Triple-guard (is_nonpositive q) (cart_error CartError.invalid_quantity)
        (Triple-within_transaction env (add_item_body-Triple env user_id p q)))
change_cart-Triple env user_id (update p q) =
    Triple-guard (is_nonpositive user_id || is_nonpositive p) (cart_error CartError.invalid_cart) (
      Triple-guard (is_nonpositive q) (cart_error CartError.invalid_quantity)
        (Triple-within_transaction env (update_item_body-Triple env user_id p q)))
change_cart-Triple env user_id (delete p) =
    Triple-guard (is_nonpositive user_id || is_nonpositive p) (cart_error CartError.invalid_cart)
      (Triple-within_transaction env (delete_item_body-Triple env user_id p))

-- A change of a cart that returns no error returns the draft as it then is in the tables, with all
-- its items, and the draft's total amount is the price of those items, cut to 64 bits.
pub change_cart-totalled :
    (env : Env) (user_id : ℤ) (change : CartChange) (s s' : Session) (c : Cart)
    → change_cart env user_id change s ≡ (ok c, s')
    → (o : Order) × (find_where (is_draft o.id) s'.db.orders ≡ some o)
      × (c ≡ record (of_row o) { items = rows_of o.id s'.db })
      × (o.total_amount ≡ wrap64 (amount_of (rows_of o.id s'.db)))
change_cart-totalled env user_id change s s' c h =
    let (o, row, same, sum) = (change_cart-Triple env user_id change).holds s s' c tt h in
    (
      o,
      row,
      same,
      add_up_lem (rows_of o.id s'.db) (pos 0) o.total_amount "" o.currency (omega arith) sum
          ∙ ap wrap64 (+ℤ_zero_left (amount_of (rows_of o.id s'.db))),
    )
