-- ===== src/Server/Tokens.antt =====
-- Refresh tokens over time: a spent token stays spent, whatever requests come.
use fincart.Prelude.{
  ℕ, String, true, false, List, [], ◌∷◌, ◌++◌, ◌≡◌, ◌⊎◌, refl, some, arith, inl, inr,
}
use fincart.Prelude.Tests.{if◌then◌else◌}
use fincart.Prelude.Int.{ℤ}
use fincart.Prelude.Texts.{is_nil}
use fincart.Store.Schema.{RefreshToken, Db}
use fincart.Store.Rows.Laws.{find_where_updated, find_where-append}
use fincart.Store.Rows.Keys.{updated-cases}
use fincart.Store.Insert.{insert_order, insert_item}
use fincart.Store.Monad.{ok, err, auth_error, AuthError, Env, Session}
use fincart.Database.{restore}
use fincart.Order.Repository.{set_status}
use fincart.Product.Repository.{set_stock, insert_product, update_product, delete_product}
use fincart.Cart.Repository.{set_item_quantity, remove_item, set_total, set_pending, set_item_price}
use fincart.User.Repository.{insert_user}
use fincart.Auth.Tokens.{AuthEnv}
use fincart.Auth.Repository.{has_hash, is_live, new_row, insert_token, revoke_token}
use fincart.Auth.Service.{is_revoked, refresh, revoke}
use fincart.Auth.Replay.{IsSpent, spent-refused, refresh-spends, revoke-spends}
use fincart.Http.Message.{World, Request}
use fincart.Server.Steps.{IsStep}
use fincart.Server.Kept.{Kept}
use fincart.Server.Requests.{serve_all, serve_all-step}

module _ (auth : AuthEnv) (token : String) where
  -- A spent token stays spent.
  record Spends (d d' : Db) : Type 0 where
    stays : IsSpent auth token d → IsSpent auth token d'

  elsewhere : (d d' : Db) → d'.tokens ≡ d.tokens → Spends d d'
  elsewhere d d' same = record { stays = λ h. rw same h }

  Spends-step : IsStep Spends
  unfolding restore
  Spends-step = record {
    same = λ d. record { stays = λ h. h };
    next = λ a b c h k. record { stays = λ spent. k.stays (h.stays spent) };
    restored = λ d d' h. record { stays = λ spent. spent };
  }

  one_more :
      (d d' : Db) (t : RefreshToken)
      → (d'.tokens ≡ d.tokens) ⊎ (d'.tokens ≡ d.tokens ++ t ∷ [])
      → Spends d d'
  one_more d d' t (inl same) = elsewhere d d' same
  one_more d d' t (inr more) = record {
    stays = λ (row, found, spent). (
      row,
      rw more (find_where-append (has_hash (auth.digest token)) d.tokens (t ∷ []) row found),
      spent,
    );
  }

  revoke_token-Spends : (now : ℕ) (id : ℤ) (d : Db) → Spends d (revoke_token now id d).1
  unfolding revoke_token is_revoked
  revoke_token-Spends now id d = record {
    stays = λ (row, found, spent). (
      (if is_live id row then record row { revoked_at = some now } else row),
      find_where_updated (has_hash (auth.digest token)) (is_live id)
          (λ t. record t { revoked_at = some now }) d.tokens row (λ y. refl) found,
      updated-cases (λ t. is_revoked t ≡ true) (is_live id)
          (λ t. record t { revoked_at = some now }) row spent (λ live. refl),
    );
  }

  spends : Kept Spends
  unfolding insert_order insert_item set_status set_stock insert_product update_product
      delete_product set_item_quantity remove_item set_total set_pending set_item_price insert_user
      insert_token
  spends = record {
    step = Spends-step;
    order_inserted = λ row d. elsewhere d _ (ground arith);
    item_inserted = λ row d free. elsewhere d _ (ground arith);
    status_set = λ id status o d found allowed. elsewhere d _ (ground arith);
    stock_set = λ id quantity change d. elsewhere d _ (ground arith);
    product_inserted = λ row d. elsewhere d _ (ground arith);
    product_updated = λ row d. elsewhere d _ (ground arith);
    product_deleted = λ id d. elsewhere d _ (ground arith);
    quantity_set = λ order_id product_id quantity d. elsewhere d _ (ground arith);
    item_removed = λ order_id product_id d. elsewhere d _ (ground arith);
    total_set = λ order_id total currency d. elsewhere d _ (ground arith);
    pending_set = λ order_id d. elsewhere d _ (ground arith);
    price_set = λ order_id product_id unit_price d. elsewhere d _ (ground arith);
    user_inserted = λ now email password_hash d. elsewhere d _ (ground arith);
    token_inserted = λ now user_id token_hash expires_at d.
        one_more d (insert_token now user_id token_hash expires_at d).1
          (new_row d.token_seq now user_id token_hash expires_at) (ground arith);
    token_revoked = revoke_token-Spends;
  }

  -- A token that is spent before the requests is refused after them.
  still_refused :
      (requests : List (World × Request)) (later : Env) (s : Session)
      → ((n : ℕ) → later.fault n ≡ false)
      → is_nil token ≡ false
      → IsSpent auth token s.db
      → (refresh later auth token (serve_all requests s)).0
        ≡ err (auth_error AuthError.refresh_token_revoked)
  still_refused requests later s fine filled spent =
      spent-refused later auth token (serve_all requests s) fine filled
        ((serve_all-step spends requests s).stays spent)

-- A refresh token is good for one exchange: once `Refresh` has returned tokens for it, a `Refresh`
-- with the same token, whose calls all go through, is refused as revoked, whatever requests the
-- server has had in between.
pub refresh-once :
    (env later : Env) (auth : AuthEnv) (token access fresh : String) (s s' : Session)
    (requests : List (World × Request))
    → refresh env auth token s ≡ (ok (access, fresh), s')
    → ((n : ℕ) → later.fault n ≡ false)
    → (refresh later auth token (serve_all requests s')).0
      ≡ err (auth_error AuthError.refresh_token_revoked)
refresh-once env later auth token access fresh s s' requests h fine =
    let (filled, spent) = refresh-spends env auth token access fresh s s' h in
    still_refused auth token requests later s' fine filled spent

-- After `Revoke` has returned without error, a `Refresh` with the token, whose calls all go through,
-- is refused as revoked, whatever requests the server has had in between.
pub revoke-ends :
    (env later : Env) (auth : AuthEnv) (token : String) (s s' : Session)
    (requests : List (World × Request))
    → revoke env auth token s ≡ (ok tt, s')
    → ((n : ℕ) → later.fault n ≡ false)
    → (refresh later auth token (serve_all requests s')).0
      ≡ err (auth_error AuthError.refresh_token_revoked)
revoke-ends env later auth token s s' requests h fine =
    let (filled, spent) = revoke-spends env auth token s s' h in
    still_refused auth token requests later s' fine filled spent
