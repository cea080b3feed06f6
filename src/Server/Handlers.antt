-- ===== src/Server/Handlers.antt =====
-- The handlers and the middleware make steps, whatever the request is.
use fincart.Prelude.{String, Option, not, str_eq}
use fincart.Prelude.Tests.{if-cases}
use fincart.Prelude.Texts.{is_nil}
use fincart.Store.Schema.{Db}
use fincart.Store.Monad.{Error, Result, ok, err, Session, M}
use fincart.User.Model.{User}
use fincart.User.Service as Service
use fincart.Http.Message.{World, Request, Response, Handler, respond, require}
use fincart.Http.Stages.{require-cases}
use fincart.Http.Middleware.{middleware, require_role, forbidden}
use fincart.Http.Router.{for_admins}
use fincart.Http.Orders
use fincart.Http.Carts
use fincart.Http.Products
use fincart.Http.Users
use fincart.Server.Kept.{Kept}
use fincart.Server.Products as ProductSteps
use fincart.Server.Orders as OrderSteps
use fincart.Server.Orders.Placing.{create_order-Steps}
use fincart.Server.Carts as CartSteps
use fincart.Server.Carts.Checkout.{checkout-Steps}
use fincart.Server.Accounts as AccountSteps
use fincart.Server.Steps.{Steps}

-- What a handler leaves in the database.
abbrev pub Leaves : (Db → Db → Type 0) → Session → Response × Session → Type 0
Leaves R s (response, t) = R s.db t.db

-- The handler makes a step.
abbrev pub Handles : (Db → Db → Type 0) → Handler → Type 0
Handles R handler = (r : Request) (s : Session) → Leaves R s (handler r s)

respond-Leaves :
    {R : Db → Db → Type 0} {A : Type 0} {m : M A} (good : A → Response) (bad : Error → Response)
    (s : Session)
    → Steps R m
    → Leaves R s (respond m good bad s)
unfolding respond
respond-Leaves good bad s h = h.at s

module _ {R : Db → Db → Type 0} (k : Kept R) where
  require-Leaves :
      {A : Type 0} (o : Option A) (response : Response) (next : A → Session → Response × Session)
      (s : Session)
      → ((a : A) → Leaves R s (next a s))
      → Leaves R s (require o response next s)
  require-Leaves o response next s h =
      require-cases (Leaves R s) o response next s (λ missing. k.step.same s.db) (λ a found. h a)

  pub middleware-Handles :
      (w : World) (next : Handler) → Handles R next → Handles R (middleware w next)
  unfolding middleware
  middleware-Handles w next h r s = require-Leaves _ _ _ s (λ claims. h _ s)

  require_role-Handles :
      (role : String) (next : Handler) → Handles R next → Handles R (require_role role next)
  unfolding require_role
  require_role-Handles role next h r s = require-Leaves r.claims _ _ s (λ claims.
      if-cases (Leaves R s) (not (str_eq claims.role role)) (forbidden, s) (next r s)
        (λ other. k.step.same s.db) (λ same. h r s))

  pub for_admins-Handles :
      (w : World) (next : Handler) → Handles R next → Handles R (for_admins w next)
  unfolding for_admins
  for_admins-Handles w next h =
      middleware-Handles w (require_role "admin" next) (require_role-Handles "admin" next h)

  module _ (w : World) where
    pub get_products-Handles : Handles R (Products.get_products w)
    unfolding Products.get_products
    get_products-Handles r s = respond-Leaves _ _ s (ProductSteps.get_products-Steps k w.env)

    pub get_product_by_id-Handles : Handles R (Products.get_product_by_id w)
    unfolding Products.get_product_by_id
    get_product_by_id-Handles r s =
        require-Leaves _ _ _ s
          (λ id. respond-Leaves _ _ s (ProductSteps.get_product_by_id-Steps k w.env id))

    pub create_product-Handles : Handles R (Products.create_product w)
    unfolding Products.create_product
    create_product-Handles r s = require-Leaves _ _ _ s (λ request.
        respond-Leaves _ _ s (ProductSteps.create_product-Steps k w.env w.letters request))

    pub update_product-Handles : Handles R (Products.update_product w)
    unfolding Products.update_product
    update_product-Handles r s = require-Leaves _ _ _ s (λ id. require-Leaves _ _ _ s (λ request.
        respond-Leaves _ _ s (ProductSteps.update_product-Steps k w.env w.letters id request)))

    pub delete_product-Handles : Handles R (Products.delete_product w)
    unfolding Products.delete_product
    delete_product-Handles r s =
        require-Leaves _ _ _ s
          (λ id. respond-Leaves _ _ s (ProductSteps.delete_product-Steps k w.env id))

    pub create_order-Handles : Handles R (Orders.create_order w)
    unfolding Orders.create_order
    create_order-Handles r s = require-Leaves _ _ _ s (λ claims.
        require-Leaves _ _ _ s
          (λ items. respond-Leaves _ _ s (create_order-Steps k w.env claims.user_id items)))

    pub cancel_order-Handles : Handles R (Orders.cancel_order w)
    unfolding Orders.cancel_order
    cancel_order-Handles r s = require-Leaves _ _ _ s (λ order_id. require-Leaves _ _ _ s (λ claims.
        respond-Leaves _ _ s (OrderSteps.cancel_order-Steps k w.env claims.user_id order_id)))

    pub get_order-Handles : Handles R (Orders.get_order w)
    unfolding Orders.get_order
    get_order-Handles r s = require-Leaves _ _ _ s (λ claims.
        require-Leaves _ _ _ s
          (λ id. respond-Leaves _ _ s (OrderSteps.get_order-Steps k w.env claims.user_id id)))

    pub pay_order-Handles : Handles R (Orders.pay_order w)
    unfolding Orders.pay_order
    pay_order-Handles r s = require-Leaves _ _ _ s (λ order_id. require-Leaves _ _ _ s (λ claims.
        respond-Leaves _ _ s
          (OrderSteps.pay_order-Steps k w.env w.payment claims.user_id order_id)))

    pub list_orders-Handles : Handles R (Orders.list_orders w)
    unfolding Orders.list_orders
    list_orders-Handles r s = respond-Leaves _ _ s (OrderSteps.list_orders-Steps k w.env)

    pub update_order_status-Handles : Handles R (Orders.update_order_status w)
    unfolding Orders.update_order_status
    update_order_status-Handles r s = require-Leaves _ _ _ s (λ order_id.
        require-Leaves _ _ _ s (λ status.
          respond-Leaves _ _ s (OrderSteps.update_order_status-Steps k w.env order_id status)))

    pub get_cart-Handles : Handles R (Carts.get_cart w)
    unfolding Carts.get_cart
    get_cart-Handles r s =
        require-Leaves _ _ _ s
          (λ user_id. respond-Leaves _ _ s (CartSteps.get_cart-Steps k w.env user_id))

    pub add_item-Handles : Handles R (Carts.add_item w)
    unfolding Carts.add_item
    add_item-Handles r s = require-Leaves _ _ _ s (λ user_id. require-Leaves _ _ _ s (λ request.
        respond-Leaves _ _ s (CartSteps.add_item-Steps k w.env user_id request.0 request.1)))

    pub update_item-Handles : Handles R (Carts.update_item w)
    unfolding Carts.update_item
    update_item-Handles r s = require-Leaves _ _ _ s (λ user_id.
        require-Leaves _ _ _ s (λ product_id. require-Leaves _ _ _ s (λ quantity.
          respond-Leaves _ _ s (CartSteps.update_item-Steps k w.env user_id product_id quantity))))

    pub delete_item-Handles : Handles R (Carts.delete_item w)
    unfolding Carts.delete_item
    delete_item-Handles r s = require-Leaves _ _ _ s (λ user_id.
        require-Leaves _ _ _ s (λ product_id.
          respond-Leaves _ _ s (CartSteps.delete_item-Steps k w.env user_id product_id)))

    pub checkout-Handles : Handles R (Carts.checkout w)
    unfolding Carts.checkout
    checkout-Handles r s =
        require-Leaves _ _ _ s (λ user_id. respond-Leaves _ _ s (checkout-Steps k w.env user_id))

    pub register-Handles : Handles R (Users.register w)
    unfolding Users.register
    register-Handles r s = require-Leaves _ _ _ s (λ request.
        respond-Leaves _ _ s
          (AccountSteps.register-Steps k w.env w.letters w.bcrypt request.0 request.1))

    -- The login has made a step already.
    after_login-Leaves :
        (x : Result User × Session) (s : Session)
        → R s.db x.1.db
        → Leaves R s (Users.after_login w x)
    unfolding Users.after_login Users.sign_in
    after_login-Leaves (err e, t) s h = h
    after_login-Leaves (ok u, t) s h =
        k.step.next s.db t.db _ h
          (respond-Leaves _ _ t (AccountSteps.create-Steps k w.env w.auth u.id u.role))

    pub login-Handles : Handles R (Users.login w)
    unfolding Users.login
    login-Handles r s = require-Leaves _ _ _ s (λ request.
        let m = Service.login w.env w.letters w.bcrypt request.0 request.1 in
        after_login-Leaves (m s) s
          ((AccountSteps.login-Steps k w.env w.letters w.bcrypt request.0 request.1).at s))

    pub refresh-Handles : Handles R (Users.refresh w)
    unfolding Users.refresh
    refresh-Handles r s = require-Leaves _ _ _ s (λ token.
        if-cases (Leaves R s) (is_nil token) _ _ (λ missing. k.step.same s.db)
          (λ given. respond-Leaves _ _ s (AccountSteps.refresh-Steps k w.env w.auth token)))

    pub logout-Handles : Handles R (Users.logout w)
    unfolding Users.logout
    logout-Handles r s = require-Leaves _ _ _ s (λ token.
        if-cases (Leaves R s) (is_nil token) _ _ (λ missing. k.step.same s.db)
          (λ given. respond-Leaves _ _ s (AccountSteps.revoke-Steps k w.env w.auth token)))
