-- ===== src/Server/Roles.antt =====
-- Accounts over time: no request changes an account that is there, or makes an administrator.
use fincart.Prelude.{
  ℕ, suc, String, List, [], ◌∷◌, ◌++◌, ◌≡◌, ◌⊎◌, refl, sym, ◌∙◌, ap, some, arith, inl, inr,
}
use fincart.Prelude.Lists.{All, All-append}
use fincart.Prelude.Int.{pos}
use fincart.Store.Schema.{User, Db}
use fincart.Store.Insert.{insert_order, insert_item}
use fincart.Store.Monad.{Session}
use fincart.Database.{restore}
use fincart.Order.Repository.{set_status}
use fincart.Product.Repository.{set_stock, insert_product, update_product, delete_product}
use fincart.Cart.Repository.{set_item_quantity, remove_item, set_total, set_pending, set_item_price}
use fincart.User.Model.{role_user}
use fincart.User.Repository.{insert_user}
use fincart.Auth.Repository.{insert_token, revoke_token}
use fincart.Http.Message.{World, Request}
use fincart.Server.Steps.{IsStep}
use fincart.Server.Kept.{Kept}
use fincart.Server.Requests.{serve_all, serve_all-step}

-- The accounts of the one database, and new ones of the role `user`.
record Enrols (d d' : Db) : Type 0 where
  new : List User
  all_there : d'.users ≡ d.users ++ new
  ordinary : All (λ u. u.role ≡ role_user) new

append_nil : {A : Type 0} (xs : List A) → xs ++ [] ≡ xs
append_nil [] = refl
append_nil (x ∷ xs) = ap (λ ys. x ∷ ys) (append_nil xs)

append_assoc : {A : Type 0} (xs ys zs : List A) → (xs ++ ys) ++ zs ≡ xs ++ (ys ++ zs)
append_assoc [] ys zs = refl
append_assoc (x ∷ xs) ys zs = ap (λ ys. x ∷ ys) (append_assoc xs ys zs)

elsewhere : (d d' : Db) → d'.users ≡ d.users → Enrols d d'
elsewhere d d' same = record {
  new = [];
  all_there = same ∙ sym (append_nil d.users);
  ordinary = tt;
}

Enrols-step : IsStep Enrols
unfolding restore
Enrols-step = record {
  same = λ d. elsewhere d d refl;
  next = λ a b c h k. record {
    new = h.new ++ k.new;
    all_there = k.all_there ∙ ap (λ us. us ++ k.new) h.all_there ∙ append_assoc a.users h.new k.new;
    ordinary = All-append (λ u. u.role ≡ role_user) h.new k.new h.ordinary k.ordinary;
  };
  restored = λ d d' h. elsewhere d (restore d d') refl;
}

one_more :
    (d d' : Db) (u : User)
    → u.role ≡ role_user
    → (d'.users ≡ d.users) ⊎ (d'.users ≡ d.users ++ u ∷ [])
    → Enrols d d'
one_more d d' u ordinary (inl same) = elsewhere d d' same
one_more d d' u ordinary (inr more) = record {
  new = u ∷ [];
  all_there = more;
  ordinary = (ordinary, tt);
}

insert_user-Enrols :
    (now : ℕ) (email password_hash : String) (d : Db)
    → Enrols d (insert_user now email password_hash role_user d).1
unfolding insert_user
insert_user-Enrols now email password_hash d =
    let row : User = record {
      id = pos (suc d.user_seq);
      email = email;
      password_hash = some password_hash;
      role = role_user;
      created_at = now;
    } in
    one_more d (insert_user now email password_hash role_user d).1 row refl (ground arith)

enrols : Kept Enrols
unfolding insert_order insert_item set_status set_stock insert_product update_product delete_product
    set_item_quantity remove_item set_total set_pending set_item_price insert_token revoke_token
enrols = record {
  step = Enrols-step;
  order_inserted = λ row d. elsewhere d _ (ground arith);
  item_inserted = λ row d free. elsewhere d _ (ground arith);
  status_set = λ id status o d found allowed. elsewhere d _ (ground arith);
  stock_set = λ id quantity change d. elsewhere d _ (ground arith);
  product_inserted = λ row d. elsewhere d _ (ground arith);
  product_updated = λ row d. elsewhere d _ (ground arith);
  product_deleted = λ id d. elsewhere d _ (ground arith);
  quantity_set = λ order_id product_id quantity d. elsewhere d _ (ground arith);
  item_removed = λ order_id product_id d. elsewhere d _ (ground arith);
  total_set = λ order_id total currency d. elsewhere d _ (ground arith);
  pending_set = λ order_id d. elsewhere d _ (ground arith);
  price_set = λ order_id product_id unit_price d. elsewhere d _ (ground arith);
  user_inserted = insert_user-Enrols;
  token_inserted = λ now user_id token_hash expires_at d. elsewhere d _ (ground arith);
  token_revoked = λ now id d. elsewhere d _ refl;
}

-- Whatever requests the server gets, the accounts that were there are there as they were, email,
-- password and role, and the accounts that have come after them have the role `user`.
pub serve_all-users :
    (requests : List (World × Request)) (s : Session)
    → (new : List User) × ((serve_all requests s).db.users ≡ s.db.users ++ new)
      × All (λ u. u.role ≡ role_user) new
serve_all-users requests s =
    let h = serve_all-step enrols requests s in (h.new, h.all_there, h.ordinary)
