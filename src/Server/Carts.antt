-- ===== src/Server/Carts.antt =====
-- The cart service makes steps.
pub mod Rows
pub mod Checkout
use fincart.Prelude.{
  String, Bool, List, [], ◌∷◌, Option, some, none, arith, ◌≡◌, refl, sym, subst, ◌||◌, inl, inr,
}
use fincart.Prelude.Tests.{if◌then◌else◌, Bool-cases}
use fincart.Prelude.Int.{ℤ, is_nonpositive}
use fincart.Order.Quantities.{Quantities}
use fincart.Store.Schema.{Order, OrderItem, Db}
use fincart.Store.Insert.{insert_order, insert_item}
use fincart.Store.Monad.{
  Error, Result, ok, err, no_rows, Env, Session, cart_error, CartError, invalid_cart, fail, M,
  statement,
}
use fincart.Database.{within_transaction}
use fincart.Cart.Model.{Cart, Item, zero_cart}
use fincart.Cart.Repository
use fincart.Cart.Repository.{
  returned_draft, returned_item, new_draft, added_row, is_item, first_row, join,
}
use fincart.Store.Rows.{select_where}
use fincart.Store.Hoare.{Triple, Triple-return_if}
use fincart.Cart.Service.{
  lift, require_draft, with_items, get_cart_body, get_cart, get_or_create_draft, load_cart,
  recalculate, existing_item, write_item, refreshed, add_item_body, add_item, update_item_body,
  update_item, delete_item_body, delete_item,
}
use fincart.Cart.Checkout.{price_cart, fix_prices, decrease_all, checkout_body, checkout}
use fincart.Server.Kept.{Kept}
use fincart.Server.Products.{get_by_id_for_update-Steps, decrease_stock-Steps}
use fincart.Server.Steps.{
  IsStep, Steps, Steps-still, Steps-fail, Steps-pure, Steps-statement, Steps-query, Steps-map_error,
  Steps->>=, Steps-if, Steps-return_if, Steps-within_transaction, StepsFrom, Steps-StepsFrom,
  StepsFrom-Steps, StepsFrom->>=, StepsFrom-first, StepsFrom-weaken,
}
use fincart.Server.Carts.Checkout.{require_draft-Steps}
use fincart.Server.Carts.Rows.{
  get_draft-Steps, create_draft-Steps, get_item-Steps, repository_add_item-StepsFrom,
  repository_update_item-Steps, repository_delete_item-Steps, get_items-Steps, update_total-Steps,
  repository_checkout-Steps, get_draft_by_id-Steps, update_item_price-Steps,
}

-- `existing_item` ends with the database that its query leaves.
existing_split :
    (r : Result Item) (s : Session)
    → (let x : Result (Option Item) × Session = elim r [
      | ok i ↦ (ok (some i), s)
      | err no_rows ↦ (ok none, s)
      | err e ↦ (err e, s)
    ] in
        x).1.db
      ≡ s.db
existing_split r s = ground arith

-- What is known where no item was found.
abbrev Unfound : ℤ → ℤ → Option Item → Db → Type 0
Unfound order_id product_id existing d =
    existing ≡ none
    → first_row (join d.products (select_where (is_item order_id product_id) d.items)) ≡ err no_rows

existing_none :
    (r : Result Item) (t s' : Session) (existing : Option Item)
    → ◌≡◌ {A = Result (Option Item) × Session}
        (elim r [ ok i ↦ (ok (some i), t) | err no_rows ↦ (ok none, t) | err e ↦ (err e, t) ])
        (ok existing, s')
    → existing ≡ none
    → (r ≡ err no_rows) × (t ≡ s')
existing_none r t s' existing h missing = ground arith

get_item-no_rows :
    (env : Env) (order_id product_id : ℤ) (s : Session)
    → (Repository.get_item env order_id product_id s).0 ≡ err no_rows
    → (let d = (Repository.get_item env order_id product_id s).1.db in
        first_row (join d.products (select_where (is_item order_id product_id) d.items)))
      ≡ err no_rows
unfolding Repository.get_item statement
get_item-no_rows env order_id product_id s h = elim (Bool-cases (env.fault s.calls)) [
  | inl broken ↦ ground (arith, h, broken)
  | inr fine ↦ rw fine (rw fine at h)
]

existing_item-Unfound :
    (env : Env) (order_id product_id : ℤ)
    → Triple (λ d. Unit {0}) (existing_item env order_id product_id) (Unfound order_id product_id)
unfolding existing_item
existing_item-Unfound env order_id product_id = record {
  holds = λ s s' existing _ h missing.
      let x = Repository.get_item env order_id product_id s in
      let (answer, same) = existing_none x.0 x.1 s' existing h missing in
      subst
        (λ (t : Session).
          first_row (join t.db.products (select_where (is_item order_id product_id) t.db.items))
          ≡ err no_rows)
        same (get_item-no_rows env order_id product_id s answer);
}

module _ {R : Db → Db → Type 0} (k : Kept R) (env : Env) where
  -- The parts of the service.
  with_items-Steps : (cart : Cart) → Steps R (with_items env cart)
  unfolding with_items
  with_items-Steps cart = Steps->>= k.step (get_items-Steps k env _) (λ items. Steps-pure k.step _)

  get_cart_body-Steps : (user_id : ℤ) → Steps R (get_cart_body env user_id)
  unfolding get_cart_body
  get_cart_body-Steps user_id =
      Steps->>= k.step (get_draft-Steps k env user_id)
        (λ cart. Steps-if k.step _ (Steps-pure k.step _) (with_items-Steps cart))

  get_or_create_draft-Steps : (user_id : ℤ) → Steps R (get_or_create_draft env user_id)
  unfolding get_or_create_draft
  get_or_create_draft-Steps user_id =
      Steps->>= k.step (get_draft-Steps k env user_id)
        (λ cart. Steps-if k.step _ (create_draft-Steps k env user_id) (Steps-pure k.step cart))

  load_cart-Steps : (order_id : ℤ) → Steps R (load_cart env order_id)
  unfolding load_cart
  load_cart-Steps order_id =
      Steps->>= k.step (get_draft_by_id-Steps k env order_id)
        (λ cart. Steps->>= k.step (get_items-Steps k env order_id) (λ items. Steps-pure k.step _))

  lift-Steps : {A : Type 0} (r : Result A) → Steps R (lift r)
  unfolding lift
  lift-Steps r = Steps-still k.step (λ s. refl)

  recalculate-Steps : (order_id : ℤ) → Steps R (recalculate env order_id)
  unfolding recalculate
  recalculate-Steps order_id = Steps->>= k.step (get_items-Steps k env order_id) (λ items.
      Steps-if k.step _ (update_total-Steps k env order_id _ _)
        (Steps->>= k.step (lift-Steps _) (λ sum. update_total-Steps k env order_id sum.0 sum.1)))

  existing_item-Steps : (order_id product_id : ℤ) → Steps R (existing_item env order_id product_id)
  unfolding existing_item
  existing_item-Steps order_id product_id = record {
    at = λ s.
        let x = Repository.get_item env order_id product_id s in
        subst (λ d. R s.db d) (sym (existing_split x.0 x.1))
          ((get_item-Steps k env order_id product_id).at s);
  }

  write_item-StepsFrom :
      (order_id product_id price quantity : ℤ) (existing : Option Item)
      → StepsFrom R
          (Unfound order_id product_id existing)
          (write_item env order_id product_id price quantity existing)
  unfolding write_item added_row
  write_item-StepsFrom order_id product_id price quantity none =
      StepsFrom-first k.step
        (StepsFrom-weaken k.step (λ d unfound. inr (unfound refl))
          (repository_add_item-StepsFrom k env _ _ _ _))
        (λ _. Steps-pure k.step tt)
  write_item-StepsFrom order_id product_id price quantity (some item) =
      Steps-StepsFrom (repository_update_item-Steps k env order_id product_id _)

  refreshed-Steps : (order_id : ℤ) → Steps R (refreshed env order_id)
  unfolding refreshed
  refreshed-Steps order_id =
      Steps->>= k.step (recalculate-Steps order_id) (λ _. load_cart-Steps order_id)

  add_item_body-Steps :
      (user_id product_id quantity : ℤ) → Steps R (add_item_body env user_id product_id quantity)
  unfolding add_item_body
  add_item_body-Steps user_id product_id quantity =
      Steps->>= k.step (get_or_create_draft-Steps user_id) (λ cart.
        Steps->>= k.step
          (Steps-map_error k.step _ (get_by_id_for_update-Steps k.step env product_id))
          (λ product. StepsFrom-Steps (
            StepsFrom->>= k.step (existing_item-Unfound env cart.id product_id)
              (existing_item-Steps cart.id product_id)
              (λ existing.
                StepsFrom->>= k.step {Q = λ _. Unfound cart.id product_id existing}
                  (Triple-return_if _ (λ d unfound c. unfound)) (Steps-return_if k.step _ _)
                  (λ _.
                    StepsFrom-first k.step
                      (write_item-StepsFrom cart.id product_id product.price quantity existing)
                      (λ _. refreshed-Steps cart.id))))))

  update_item_body-Steps :
      (user_id product_id quantity : ℤ) → Steps R (update_item_body env user_id product_id quantity)
  unfolding update_item_body
  update_item_body-Steps user_id product_id quantity =
      Steps->>= k.step (require_draft-Steps k env user_id) (λ cart.
        Steps->>= k.step
          (Steps-map_error k.step _ (get_by_id_for_update-Steps k.step env product_id))
          (λ product. Steps->>= k.step (Steps-return_if k.step _ _) (λ _.
            Steps->>= k.step
              (Steps-map_error k.step _
                (repository_update_item-Steps k env cart.id product_id quantity))
              (λ _. refreshed-Steps cart.id))))

  delete_item_body-Steps :
      (user_id product_id : ℤ) → Steps R (delete_item_body env user_id product_id)
  unfolding delete_item_body
  delete_item_body-Steps user_id product_id =
      Steps->>= k.step (require_draft-Steps k env user_id) (λ cart.
        Steps->>= k.step
          (Steps-map_error k.step _ (repository_delete_item-Steps k env cart.id product_id))
          (λ _. refreshed-Steps cart.id))

  -- The operations.
  pub get_cart-Steps : (user_id : ℤ) → Steps R (get_cart env user_id)
  unfolding get_cart
  get_cart-Steps user_id =
      Steps-if k.step _ (Steps-fail k.step _)
        (Steps-within_transaction k.step env (get_cart_body-Steps user_id))

  pub delete_item-Steps : (user_id product_id : ℤ) → Steps R (delete_item env user_id product_id)
  unfolding delete_item
  delete_item-Steps user_id product_id =
      Steps-if k.step _ (Steps-fail k.step _)
        (Steps-within_transaction k.step env (delete_item_body-Steps user_id product_id))

  -- The two guards of a change that names a quantity.
  guarded-Steps :
      {A : Type 0} (c c' : Bool) (e e' : Error) {body : M A}
      → Steps R body
      → Steps R (if c then fail e else if c' then fail e' else within_transaction env body)
  guarded-Steps c c' e e' h =
      Steps-if k.step c (Steps-fail k.step e)
        (Steps-if k.step c' (Steps-fail k.step e') (Steps-within_transaction k.step env h))

  pub add_item-Steps :
      (user_id product_id quantity : ℤ) → Steps R (add_item env user_id product_id quantity)
  unfolding add_item
  add_item-Steps user_id product_id quantity =
      guarded-Steps (is_nonpositive user_id || is_nonpositive product_id) (is_nonpositive quantity)
        (cart_error invalid_cart) (cart_error CartError.invalid_quantity)
        (add_item_body-Steps user_id product_id quantity)

  pub update_item-Steps :
      (user_id product_id quantity : ℤ) → Steps R (update_item env user_id product_id quantity)
  unfolding update_item
  update_item-Steps user_id product_id quantity =
      guarded-Steps (is_nonpositive user_id || is_nonpositive product_id) (is_nonpositive quantity)
        (cart_error invalid_cart) (cart_error CartError.invalid_quantity)
        (update_item_body-Steps user_id product_id quantity)
