-- ===== src/Server/Integrity.antt =====
-- What the keys of the schema give: ids of one's own, rows that are there, and no doubles.
pub mod Orders
pub mod Items
pub mod Products
pub mod Accounts
pub mod Requests
use fincart.Prelude.{
  ◌⊎◌, inl, inr, sym, subst, ℕ, Bool, true, false, List, ◌≡◌, ◌≤◌, refl, arith, ◌&&◌, str_eq,
}
use fincart.Prelude.Lists.{All}
use fincart.Prelude.Int.{ℤ, eqb_ℤ}
use fincart.Order.Status.{draft, status_eq}
use fincart.Store.Schema.{Product, User, Order, OrderItem, RefreshToken, Db}
use fincart.Store.Rows.{any_where}
use fincart.Store.Rows.Keys.{Unlike, HasKeys, HasKeys-grow}
use fincart.Database.{restore}
use fincart.Server.Steps.{IsStep}

-- Two carts of one user.
abbrev pub two_drafts : Order → Order → Bool
two_drafts x y = (eqb_ℤ x.user_id y.user_id && status_eq x.status draft) && status_eq y.status draft

abbrev pub has_product : List Product → ℤ → Bool
has_product products id = any_where (λ p. eqb_ℤ p.id id) products

abbrev pub has_order : List Order → ℤ → Bool
has_order orders id = any_where (λ o. eqb_ℤ o.id id) orders

abbrev pub has_user : List User → ℤ → Bool
has_user users id = any_where (λ u. eqb_ℤ u.id id) users

-- The primary keys, the unique indexes, and the foreign keys.
pub record IsConsistent (d : Db) : Type 0 where
  pub product_keys : HasKeys (λ p. p.id) d.product_seq d.products
  pub order_keys : HasKeys (λ o. o.id) d.order_seq d.orders
  pub user_keys : HasKeys (λ u. u.id) d.user_seq d.users
  pub emails : Unlike (λ x y. str_eq x.email y.email) d.users
  pub hashes : Unlike (λ x y. str_eq x.token_hash y.token_hash) d.tokens
  pub drafts : Unlike two_drafts d.orders
  pub order_users : All (λ o. has_user d.users o.user_id ≡ true) d.orders
  pub item_orders : All (λ i. has_order d.orders i.order_id ≡ true) d.items
  pub item_products : All (λ i. has_product d.products i.product_id ≡ true) d.items
  pub token_users : All (λ t. has_user d.users t.user_id ≡ true) d.tokens

-- No sequence that a key is checked against goes back, and the rows stay consistent.
pub record Upholds (d d' : Db) : Type 0 where
  pub product_seq : d.product_seq ≤ d'.product_seq
  pub order_seq : d.order_seq ≤ d'.order_seq
  pub user_seq : d.user_seq ≤ d'.user_seq
  pub consistent : IsConsistent d → IsConsistent d'

pub Upholds-same : (d : Db) → Upholds d d
Upholds-same d = record {
  product_seq = omega arith;
  order_seq = omega arith;
  user_seq = omega arith;
  consistent = λ h. h;
}

-- A statement that has one of two outcomes.
pub either : (d a b d' : Db) → (d' ≡ a) ⊎ (d' ≡ b) → Upholds d a → Upholds d b → Upholds d d'
either d a b d' (inl e) h k = subst (Upholds d) (sym e) h
either d a b d' (inr e) h k = subst (Upholds d) (sym e) k

-- The tables as they were are consistent with later sequences.
restored-Upholds : (d d' : Db) → Upholds d d' → Upholds d (restore d d')
unfolding restore
restored-Upholds d d' k = record {
  product_seq = k.product_seq;
  order_seq = k.order_seq;
  user_seq = k.user_seq;
  consistent = λ h. record {
    product_keys =
        HasKeys-grow (λ (p : Product). p.id) d.product_seq d'.product_seq d.products k.product_seq
          h.product_keys;
    order_keys =
        HasKeys-grow (λ (o : Order). o.id) d.order_seq d'.order_seq d.orders k.order_seq
          h.order_keys;
    user_keys =
        HasKeys-grow (λ (u : User). u.id) d.user_seq d'.user_seq d.users k.user_seq h.user_keys;
    emails = h.emails;
    hashes = h.hashes;
    drafts = h.drafts;
    order_users = h.order_users;
    item_orders = h.item_orders;
    item_products = h.item_products;
    token_users = h.token_users;
  };
}

pub Upholds-step : IsStep Upholds
Upholds-step = record {
  same = Upholds-same;
  next = λ a b c h k. record {
    product_seq = omega (arith, h.product_seq, k.product_seq);
    order_seq = omega (arith, h.order_seq, k.order_seq);
    user_seq = omega (arith, h.user_seq, k.user_seq);
    consistent = λ e. k.consistent (h.consistent e);
  };
  restored = restored-Upholds;
}

-- A change of one table, with what the rows of that table are asked for.
pub changed_orders :
    (d : Db) (n : ℕ) (orders : List Order)
    → d.order_seq ≤ n
    → (IsConsistent d
        → HasKeys (λ o. o.id) n orders
          × Unlike two_drafts orders
          × All (λ o. has_user d.users o.user_id ≡ true) orders
          × All (λ i. has_order orders i.order_id ≡ true) d.items)
    → Upholds d (record d { orders = orders; order_seq = n })
changed_orders d n orders le f = record {
  product_seq = omega arith;
  order_seq = le;
  user_seq = omega arith;
  consistent = λ h.
      let (keys, drafts, users, items) = f h in
      record {
        product_keys = h.product_keys;
        order_keys = keys;
        user_keys = h.user_keys;
        emails = h.emails;
        hashes = h.hashes;
        drafts = drafts;
        order_users = users;
        item_orders = items;
        item_products = h.item_products;
        token_users = h.token_users;
      };
}

pub changed_items :
    (d : Db) (n : ℕ) (items : List OrderItem)
    → (IsConsistent d
        → All (λ i. has_order d.orders i.order_id ≡ true) items
          × All (λ i. has_product d.products i.product_id ≡ true) items)
    → Upholds d (record d { items = items; item_seq = n })
changed_items d n items f = record {
  product_seq = omega arith;
  order_seq = omega arith;
  user_seq = omega arith;
  consistent = λ h.
      let (of_orders, of_products) = f h in
      record {
        product_keys = h.product_keys;
        order_keys = h.order_keys;
        user_keys = h.user_keys;
        emails = h.emails;
        hashes = h.hashes;
        drafts = h.drafts;
        order_users = h.order_users;
        item_orders = of_orders;
        item_products = of_products;
        token_users = h.token_users;
      };
}

pub changed_products :
    (d : Db) (n : ℕ) (products : List Product)
    → d.product_seq ≤ n
    → (IsConsistent d
        → HasKeys (λ p. p.id) n products
          × All (λ i. has_product products i.product_id ≡ true) d.items)
    → Upholds d (record d { products = products; product_seq = n })
changed_products d n products le f = record {
  product_seq = le;
  order_seq = omega arith;
  user_seq = omega arith;
  consistent = λ h.
      let (keys, items) = f h in
      record {
        product_keys = keys;
        order_keys = h.order_keys;
        user_keys = h.user_keys;
        emails = h.emails;
        hashes = h.hashes;
        drafts = h.drafts;
        order_users = h.order_users;
        item_orders = h.item_orders;
        item_products = items;
        token_users = h.token_users;
      };
}

pub changed_users :
    (d : Db) (n : ℕ) (users : List User)
    → d.user_seq ≤ n
    → (IsConsistent d
        → HasKeys (λ u. u.id) n users
          × Unlike (λ x y. str_eq x.email y.email) users
          × All (λ o. has_user users o.user_id ≡ true) d.orders
          × All (λ t. has_user users t.user_id ≡ true) d.tokens)
    → Upholds d (record d { users = users; user_seq = n })
changed_users d n users le f = record {
  product_seq = omega arith;
  order_seq = omega arith;
  user_seq = le;
  consistent = λ h.
      let (keys, emails, orders, tokens) = f h in
      record {
        product_keys = h.product_keys;
        order_keys = h.order_keys;
        user_keys = keys;
        emails = emails;
        hashes = h.hashes;
        drafts = h.drafts;
        order_users = orders;
        item_orders = h.item_orders;
        item_products = h.item_products;
        token_users = tokens;
      };
}

pub changed_tokens :
    (d : Db) (n : ℕ) (tokens : List RefreshToken)
    → (IsConsistent d
        → Unlike (λ x y. str_eq x.token_hash y.token_hash) tokens
          × All (λ t. has_user d.users t.user_id ≡ true) tokens)
    → Upholds d (record d { tokens = tokens; token_seq = n })
changed_tokens d n tokens f = record {
  product_seq = omega arith;
  order_seq = omega arith;
  user_seq = omega arith;
  consistent = λ h.
      let (hashes, users) = f h in
      record {
        product_keys = h.product_keys;
        order_keys = h.order_keys;
        user_keys = h.user_keys;
        emails = h.emails;
        hashes = hashes;
        drafts = h.drafts;
        order_users = h.order_users;
        item_orders = h.item_orders;
        item_products = h.item_products;
        token_users = users;
      };
}
