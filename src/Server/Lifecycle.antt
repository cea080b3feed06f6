-- ===== src/Server/Lifecycle.antt =====
-- Orders over time: what any requests leave of an order that is there.
use fincart.Prelude.{
  suc, String, Bool, true, List, [], ◌∷◌, ◌++◌, ◌≡◌, ◌⊎◌, refl, subst, some, ◌≤◌, arith, inl, inr,
}
use fincart.Prelude.Lists.{All}
use fincart.Prelude.Int.{ℤ, pos, eqb_ℤ}
use fincart.Order.Status.{OrderStatus, draft, pending, can_transition}
use fincart.Order.Lifecycle.{can_transition_iff, status_eq_iff}
use fincart.Store.Schema.{Order, Db}
use fincart.Store.Rows.{find_where, update_where}
use fincart.Store.Rows.Keys.{
  All-of, All-found, HasKeys, HasKeys-grow, HasKeys-append_one, HasKeys-update_where,
}
use fincart.Store.Insert.{insert_order, insert_item}
use fincart.Store.Monad.{Session}
use fincart.Database.{restore}
use fincart.Order.Repository.{set_status}
use fincart.Product.Repository.{set_stock, insert_product, update_product, delete_product}
use fincart.Cart.Repository.{
  is_draft, set_item_quantity, remove_item, set_total, set_pending, set_item_price,
}
use fincart.User.Repository.{insert_user}
use fincart.Auth.Repository.{insert_token, revoke_token}
use fincart.Http.Message.{World, Request}
use fincart.Server.Steps.{IsStep}
use fincart.Server.Kept.{Kept}
use fincart.Server.Requests.{serve_all, serve_all-step}
use fincart.Server.Evolution.{
  Reaches, here, check_out, advance, Evolves, Follows, Follows-refl, Follows-trans, Follows-append,
  Follows-update_where, Follows-found,
}

-- Every order has an id of its own, which the sequence gave out.
abbrev pub HasOrderKeys : Db → Type 0
HasOrderKeys d = HasKeys (λ o. o.id) d.order_seq d.orders

-- The orders of the one database are further on in the other.
record Carries (d d' : Db) : Type 0 where
  grows : d.order_seq ≤ d'.order_seq
  follows : HasOrderKeys d → HasOrderKeys d' × Follows d.orders d'.orders

-- A statement on other tables.
elsewhere : (d d' : Db) → d'.orders ≡ d.orders → d'.order_seq ≡ d.order_seq → Carries d d'
elsewhere d d' same seq = record {
  grows = omega arith;
  follows = λ h. (rw (same, seq) h, rw same (Follows-refl d.orders));
}

-- An update of the rows of p.
rewritten :
    (d d' : Db) (p : Order → Bool) (f : Order → Order)
    → (d'.orders ≡ d.orders) ⊎ (d'.orders ≡ update_where p f d.orders)
    → d'.order_seq ≡ d.order_seq
    → ((x : Order) → (f x).id ≡ x.id)
    → (HasOrderKeys d → All (λ x. p x ≡ true → Evolves x (f x)) d.orders)
    → Carries d d'
rewritten d d' p f (inl same) seq ids h = elsewhere d d' same seq
rewritten d d' p f (inr set) seq ids h = record {
  grows = omega arith;
  follows = λ k. (
    rw (set, seq)
        (HasKeys-update_where (λ (o : Order). o.id) p f (λ x here. ids x) d.order_seq d.orders k),
    rw set (Follows-update_where p f d.orders (h k)),
  );
}

inserted :
    (d d' : Db) (o : Order)
    → o.id ≡ pos (suc d.order_seq)
    → (d'.orders ≡ d.orders) ⊎ (d'.orders ≡ d.orders ++ o ∷ [])
    → d'.order_seq ≡ suc d.order_seq
    → Carries d d'
inserted d d' o id (inl same) seq = record {
  grows = omega arith;
  follows = λ h. (
    rw (same, seq)
        (HasKeys-grow (λ (o : Order). o.id) d.order_seq (suc d.order_seq) d.orders (omega arith) h),
    rw same (Follows-refl d.orders),
  );
}
inserted d d' o id (inr more) seq = record {
  grows = omega arith;
  follows = λ h. (
    rw (more, seq) (HasKeys-append_one (λ (o : Order). o.id) d.order_seq d.orders o h id),
    rw more (Follows-append d.orders (o ∷ [])),
  );
}

Carries-step : IsStep Carries
unfolding restore
Carries-step = record {
  same = λ d. elsewhere d d refl refl;
  next = λ a b c h k. record {
    grows = omega (arith, h.grows, k.grows);
    follows = λ e.
        let (f, g) = h.follows e in
        let (f', g') = k.follows f in (f', Follows-trans a.orders b.orders c.orders g g');
  };
  restored = λ d d' h. record {
    grows = h.grows;
    follows = λ e. (
      HasKeys-grow (λ (o : Order). o.id) d.order_seq d'.order_seq d.orders h.grows e,
      Follows-refl d.orders,
    );
  };
}

insert_order-Carries : (row : Order) (d : Db) → Carries d (insert_order row d).1
unfolding insert_order
insert_order-Carries row d =
    inserted d (insert_order row d).1 (record row { id = pos (suc d.order_seq) }) refl
      (ground arith) (ground arith)

-- The orders that `o` is any order of, and `o` may come to `status`.
status-Evolves :
    (o : Order) (status : OrderStatus)
    → can_transition o.status status ≡ true
    → Evolves o (record o { status = status })
status-Evolves o status allowed = record {
  same_id = refl;
  same_owner = refl;
  same_time = refl;
  reached = advance here ((can_transition_iff o.status status).0 allowed);
  priced = λ h. (refl, refl);
}

set_status-Carries :
    (id : ℤ) (status : OrderStatus) (o : Order) (d : Db)
    → find_where (λ o. eqb_ℤ o.id id) d.orders ≡ some o
    → can_transition o.status status ≡ true
    → Carries d (set_status id status d).1
unfolding set_status
set_status-Carries id status o d found allowed =
    rewritten d (set_status id status d).1 (λ o. eqb_ℤ o.id id) (λ o. record o { status = status })
      (ground arith) (ground arith) (λ x. refl)
      (λ k.
        All-found (λ (o : Order). o.id) (λ x. Evolves x (record x { status = status })) id d.orders
          o k.distinct found (status-Evolves o status allowed))

draft-status : (id : ℤ) (o : Order) → is_draft id o ≡ true → o.status ≡ draft
draft-status id o h = ground (arith, status_eq_iff o.status draft)

total-Evolves :
    (id total : ℤ) (currency : String) (o : Order)
    → is_draft id o ≡ true
    → Evolves o (record o { total_amount = total; currency = currency })
total-Evolves id total currency o h = record {
  same_id = refl;
  same_owner = refl;
  same_time = refl;
  reached = here;
  priced = λ other. absurd (other (draft-status id o h));
}

pending-Evolves :
    (id : ℤ) (o : Order) → is_draft id o ≡ true → Evolves o (record o { status = pending })
pending-Evolves id o h = record {
  same_id = refl;
  same_owner = refl;
  same_time = refl;
  reached = check_out (subst (Reaches o.status) (draft-status id o h) here);
  priced = λ other. (refl, refl);
}

set_total-Carries :
    (id total : ℤ) (currency : String) (d : Db) → Carries d (set_total id total currency d).1
unfolding set_total
set_total-Carries id total currency d =
    rewritten d (set_total id total currency d).1 (is_draft id)
      (λ o. record o { total_amount = total; currency = currency }) (ground arith) (ground arith)
      (λ x. refl) (λ k. All-of _ d.orders (total-Evolves id total currency))

set_pending-Carries : (id : ℤ) (d : Db) → Carries d (set_pending id d).1
unfolding set_pending
set_pending-Carries id d =
    rewritten d (set_pending id d).1 (is_draft id) (λ o. record o { status = pending })
      (ground arith) (ground arith) (λ x. refl) (λ k. All-of _ d.orders (pending-Evolves id))

carries : Kept Carries
unfolding insert_item set_stock insert_product update_product delete_product set_item_quantity
    remove_item set_item_price insert_user insert_token revoke_token
carries = record {
  step = Carries-step;
  order_inserted = insert_order-Carries;
  item_inserted = λ row d free. elsewhere d _ (ground arith) (ground arith);
  status_set = set_status-Carries;
  stock_set = λ id quantity change d. elsewhere d _ (ground arith) (ground arith);
  product_inserted = λ row d. elsewhere d _ (ground arith) (ground arith);
  product_updated = λ row d. elsewhere d _ (ground arith) (ground arith);
  product_deleted = λ id d. elsewhere d _ (ground arith) (ground arith);
  quantity_set = λ order_id product_id quantity d. elsewhere d _ (ground arith) (ground arith);
  item_removed = λ order_id product_id d. elsewhere d _ (ground arith) (ground arith);
  total_set = set_total-Carries;
  pending_set = set_pending-Carries;
  price_set = λ order_id product_id unit_price d. elsewhere d _ (ground arith) (ground arith);
  user_inserted = λ now email password_hash d. elsewhere d _ (ground arith) (ground arith);
  token_inserted =
      λ now user_id token_hash expires_at d. elsewhere d _ (ground arith) (ground arith);
  token_revoked = λ now id d. elsewhere d _ refl refl;
}

-- An order that is there, if the ids of the orders are distinct, is there after any requests to the
-- server, with the same owner and time of creation. Its status is the same or has come from it by
-- the checkout of a cart and the edges of the life cycle, and once it is no cart its total amount
-- and currency stay.
pub serve_all-orders :
    (requests : List (World × Request)) (s : Session) (id : ℤ) (o : Order)
    → HasOrderKeys s.db
    → find_where (λ o. eqb_ℤ o.id id) s.db.orders ≡ some o
    → (p : Order) × (find_where (λ o. eqb_ℤ o.id id) (serve_all requests s).db.orders ≡ some p)
      × Evolves o p
serve_all-orders requests s id o keys found =
    let (_, follows) = (serve_all-step carries requests s).follows keys in
    Follows-found id s.db.orders (serve_all requests s).db.orders o follows found
