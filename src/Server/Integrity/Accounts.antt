-- ===== src/Server/Integrity/Accounts.antt =====
-- The statements on the tables of users and tokens keep the keys.
use fincart.Prelude.{
  ℕ, suc, String, true, false, some, [], ◌∷◌, ◌++◌, ◌≡◌, refl, arith, inl, inr, str_eq,
}
use fincart.Prelude.Tests.{Bool-cases}
use fincart.Prelude.Lists.{All-append, All-map}
use fincart.Prelude.Int.{ℤ, pos, eqb_ℤ}
use fincart.Store.Schema.{User, Order, RefreshToken, Db}
use fincart.Store.Rows.{update_where, any_where}
use fincart.Store.Rows.Laws.{All-update_where}
use fincart.Store.Rows.Keys.{
  updated, updated-cases, any_where-append, Unlike-append_one, Unlike-update_where, HasKeys-grow,
  HasKeys-append_one,
}
use fincart.User.Repository.{has_email, insert_user}
use fincart.User.Model.{role_user}
use fincart.Auth.Repository.{has_hash, is_live, new_row, insert_token, revoke_token}
use fincart.Server.Integrity.{has_user, Upholds, changed_users, changed_tokens}

used_up : (d : Db) → Upholds d (record d { user_seq = suc d.user_seq })
used_up d = changed_users d (suc d.user_seq) d.users (omega arith) (λ h. (
  HasKeys-grow (λ (u : User). u.id) d.user_seq (suc d.user_seq) d.users (omega arith) h.user_keys,
  h.emails,
  h.order_users,
  h.token_users,
))

more_users :
    (u : User) (d : Db)
    → u.id ≡ pos (suc d.user_seq)
    → any_where (has_email u.email) d.users ≡ false
    → Upholds d (record d { users = d.users ++ u ∷ []; user_seq = suc d.user_seq })
more_users u d id free = changed_users d (suc d.user_seq) (d.users ++ u ∷ []) (omega arith) (λ h. (
  HasKeys-append_one (λ (u : User). u.id) d.user_seq d.users u h.user_keys id,
  Unlike-append_one (λ x y. str_eq x.email y.email) d.users u h.emails free,
  All-map (λ (o : Order). has_user d.users o.user_id ≡ true)
      (λ o. has_user (d.users ++ u ∷ []) o.user_id ≡ true) d.orders
      (λ o there. any_where-append (λ u. eqb_ℤ u.id o.user_id) d.users (u ∷ []) there)
      h.order_users,
  All-map (λ (t : RefreshToken). has_user d.users t.user_id ≡ true)
      (λ t. has_user (d.users ++ u ∷ []) t.user_id ≡ true) d.tokens
      (λ t there. any_where-append (λ u. eqb_ℤ u.id t.user_id) d.users (u ∷ []) there)
      h.token_users,
))

pub insert_user-Upholds :
    (now : ℕ) (email password_hash : String) (d : Db)
    → Upholds d (insert_user now email password_hash role_user d).1
unfolding insert_user
insert_user-Upholds now email password_hash d =
    let u : User = record {
      id = pos (suc d.user_seq);
      email = email;
      password_hash = some password_hash;
      role = role_user;
      created_at = now;
    } in
    elim (Bool-cases (any_where (has_email email) d.users)) [
      | inl taken ↦ rw taken (used_up d)
      | inr free ↦ rw free (more_users u d refl free)
    ]

counted : (d : Db) → Upholds d (record d { token_seq = suc d.token_seq })
counted d = changed_tokens d (suc d.token_seq) d.tokens (λ h. (h.hashes, h.token_users))

more_tokens :
    (t : RefreshToken) (d : Db)
    → any_where (has_hash t.token_hash) d.tokens ≡ false
    → has_user d.users t.user_id ≡ true
    → Upholds d (record d { tokens = d.tokens ++ t ∷ []; token_seq = suc d.token_seq })
more_tokens t d free owner = changed_tokens d (suc d.token_seq) (d.tokens ++ t ∷ []) (λ h. (
  Unlike-append_one (λ x y. str_eq x.token_hash y.token_hash) d.tokens t h.hashes free,
  All-append (λ t. has_user d.users t.user_id ≡ true) d.tokens (t ∷ []) h.token_users (owner, tt),
))

pub insert_token-Upholds :
    (now : ℕ) (user_id : ℤ) (token_hash : String) (expires_at : ℕ) (d : Db)
    → Upholds d (insert_token now user_id token_hash expires_at d).1
unfolding insert_token new_row
insert_token-Upholds now user_id token_hash expires_at d =
    elim (Bool-cases (any_where (has_hash token_hash) d.tokens)) [
      | inl taken ↦ rw taken (counted d)
      | inr free ↦ elim (Bool-cases (has_user d.users user_id)) [
        | inl owner ↦
            rw (free, owner)
              (more_tokens (new_row d.token_seq now user_id token_hash expires_at) d free owner)
        | inr unknown ↦ rw (free, unknown) (counted d)
      ]
    ]

pub revoke_token-Upholds : (now : ℕ) (id : ℤ) (d : Db) → Upholds d (revoke_token now id d).1
unfolding revoke_token
revoke_token-Upholds now id d =
    let revoked = λ (t : RefreshToken). record t { revoked_at = some now } in
    let same : (t : RefreshToken) → (updated (is_live id) revoked t).token_hash ≡ t.token_hash =
      λ t.
        updated-cases (λ y. y.token_hash ≡ t.token_hash) (is_live id) revoked t refl
          (λ live. refl) in
    changed_tokens d d.token_seq (update_where (is_live id) revoked d.tokens) (λ h. (
      Unlike-update_where (λ x y. str_eq x.token_hash y.token_hash) (is_live id) revoked
          (λ x y other. rw (same x, same y) other) d.tokens h.hashes,
      All-update_where (λ (t : RefreshToken). t.id) (λ t. has_user d.users t.user_id ≡ true) revoked
          (is_live id) d.tokens (λ t there. there) h.token_users,
    ))
