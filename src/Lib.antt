-- ===== src/Lib.antt =====
-- FinCart, an online shop's backend in Go: products, a cart that is the user's draft order, orders
-- and their payment, accounts and their tokens, over PostgreSQL. The router hands a request through
-- the middleware to a handler, the handler calls a service, the service runs a function in a
-- transaction, and the function calls the repositories. This library models all of these.
--
-- Which file models what (paths from the repository's root):
--   Order/Status.antt: internal/order/status.go. A status is one of the seven constants, or
--   `unknown` with any other text.
--   Order/Repository.antt: internal/order/postgres_repository.go; Order/Service.antt and
--   Order/Quantities.antt: internal/order/service.go. The function that an operation hands to
--   WithinTransaction is `place_order`, `cancel_body`, `get_order_body`, `update_status_body`,
--   `pay_body`; each loop is a function of its own.
--   Cart/Model.antt, Cart/Repository.antt, Cart/Service.antt, Cart/Checkout.antt: model.go,
--   postgres_repository.go and service.go of internal/cart.
--   Product/Repository.antt and Product/Service.antt: transaction_repository.go,
--   postgres_repository.go and service.go of internal/product.
--   Product/Memory.antt: internal/product/memory_rpository.go, which the server does not use.
--   User/Model.antt, User/Repository.antt, User/Service.antt: model.go, postgres_repository.go and
--   service.go of internal/user.
--   Auth/Tokens.antt, Auth/Repository.antt, Auth/Service.antt, Auth/Access.antt: jwt.go,
--   postgres_refresh_repository.go and refresh_service.go of internal/auth.
--   Http/Orders.antt, Http/Carts.antt, Http/Products.antt, Http/Users.antt: handler.go of the four
--   packages; Http/Middleware.antt: jwt.go and middleware.go of internal/auth, and
--   internal/httpserver/cors.go; Http/Router.antt: internal/httpserver/router.go;
--   Http/Context.antt: context.go and admin.go of internal/auth, which the router does not use;
--   Http/Message.antt: requests, responses and the steps that the handlers share; Http/Mux.antt:
--   how net/http chooses a handler, for the patterns that this router registers.
--   Server.antt and its children: the server over a sequence of requests (`serve_all`). A relation
--   between the database before and after is shown of every statement that writes (Server/Kept.antt)
--   and carried from there through the services, the handlers and the routes to all requests, also
--   where a transaction is rolled back.
--   Migrate/Files.antt and Migrate/Runner.antt: `migrationInfo` and `runMigrations` of
--   cmd/migrate/main.go. What the migrations have made of the database is the list of their texts,
--   and whether PostgreSQL accepts one more text after these is a parameter (`Runner.accepts`).
--   Payment.antt: the outcomes in internal/payment/service.go; the service itself is a parameter of
--   `pay_order`, any function from an order's id, amount and currency to an answer.
--   Database.antt: internal/database/transaction.go.
--   Store.antt and its children: the rows (Schema), what a WHERE clause does (Rows), INSERT into the
--   order tables (Insert), and the functions that talk to the database (Monad).
--   Prelude.antt and its children: integers, Go's package strings as the services use it (Texts),
--   and strconv.ParseInt (Decimal).
--
-- The database. A table is the list of its rows in the order of their ids, which BIGSERIAL hands out
-- upwards, so ORDER BY id is the list itself. A statement is a function from the database to an
-- answer and a database; the constraints of migrations/*.sql (checks, foreign keys, unique indexes,
-- the width of INTEGER and CHAR(3)) are among its answers, and a refused statement changes no
-- row. Each call, BEGIN, COMMIT and ROLLBACK included, may also fail on the wire, as `Env.fault`
-- says of the n-th call; theorems hold for every such environment unless they say otherwise. A
-- COMMIT that reports an error may have been carried out, as `Env.carried_out` says. Sequences are
-- never taken back. products.currency is CHAR(3), which fills a shorter text up with spaces. NOW() is
-- a parameter, constant in a transaction as PostgreSQL has it.
--
-- Numbers. int64 and int are integers here; `add64` and `mul64` wrap as Go does where the services
-- add up quantities and amounts. The database's own arithmetic on INTEGER refuses to overflow.
-- Times are counted in microseconds, as the columns keep them. Every loop is over a list or a text,
-- so there is no fuel.
--
-- Parameters. `World` (Http/Message.antt) has what comes from outside of the repository: what
-- json.Decoder makes of a body (`Decoder`), bcrypt (`Bcrypt`), the JWT library (`Jwt`), the random
-- source, SHA-256 and the clock (`AuthEnv`, which answers by the number of calls made before), the
-- case of letters beyond ASCII (`Letters`), and the payment service. A theorem that relies on more
-- than their types says so in a hypothesis.
--
-- Not modelled: transactions run one after another, so row locks and isolation have no meaning here;
-- the columns that no query reads; the headers of responses, the encoding of
-- JSON, failing writes to the connection, and escapes in the text of a path; a panic, for which the
-- code has no handler; start-up and environment variables, and what the texts of the migrations do.
--
-- `Goods` is no part of the program: it says where the units of a product are, on stock or in
-- the items of orders that have taken them, and the theorems on conservation speak of it.
pub mod Auth
pub mod Cart
pub mod Database
pub mod Goods
pub mod Http
pub mod Migrate
pub mod Order
pub mod Payment
pub mod Prelude
pub mod Product
pub mod Server
pub mod Store
pub mod Tests
pub mod User
