-- ===== src/Tests/Shop.antt =====
-- Two products, one customer, and a pending order of two laptops.
use fincart.Prelude.{false, none, [], ◌∷◌}
use fincart.Prelude.Tests.{◌==◌}
use fincart.Prelude.Int.{pos}
use fincart.Order.Status.{draft, pending}
use fincart.Store.Schema.{Product, User, Order, OrderItem, Db}
use fincart.Store.Monad.{Env, Session}

abbrev pub laptop : Product
laptop = record {
  id = pos 1;
  name = "MacBook Pro";
  description = "Apple laptop";
  price = pos 150000;
  currency = "EUR";
  stock = pos 10;
}

abbrev pub keyboard : Product
keyboard = record {
  id = pos 2;
  name = "Mechanical Keyboard";
  description = "Mechanical keyboard";
  price = pos 12000;
  currency = "EUR";
  stock = pos 50;
}

abbrev pub customer : User
customer = record {
  id = pos 7;
  email = "ann@example.org";
  password_hash = none;
  role = "user";
  created_at = 1;
}

abbrev pub first_order : Order
first_order = record {
  id = pos 1;
  user_id = pos 7;
  status = pending;
  total_amount = pos 300000;
  currency = "EUR";
  created_at = 2;
}

abbrev pub first_item : OrderItem
first_item = record {
  id = pos 1;
  order_id = pos 1;
  product_id = pos 1;
  quantity = pos 2;
  unit_price = pos 150000;
}

abbrev pub shop : Db
shop = record {
  products = laptop ∷ keyboard ∷ [];
  orders = first_order ∷ [];
  items = first_item ∷ [];
  users = customer ∷ [];
  tokens = [];
  product_seq = 2;
  order_seq = 1;
  item_seq = 1;
  user_seq = 7;
  token_seq = 0;
}

abbrev pub session : Session
session = record { db = shop; calls = 0; charges = [] }

-- Every call goes through.
abbrev pub connected : Env
connected = record { fault = λ n. false; carried_out = λ n. false; now = 100 }

-- The fourth call fails.
abbrev pub flaky : Env
flaky = record { fault = λ n. n == 3; carried_out = λ n. false; now = 100 }

-- The same shop, where the customer also has a keyboard in the cart.
abbrev pub draft_order : Order
draft_order = record {
  id = pos 2;
  user_id = pos 7;
  status = draft;
  total_amount = pos 12000;
  currency = "EUR";
  created_at = 3;
}

abbrev pub draft_item : OrderItem
draft_item = record {
  id = pos 2;
  order_id = pos 2;
  product_id = pos 2;
  quantity = pos 1;
  unit_price = pos 12000;
}

abbrev pub browsing : Session
browsing = record {
  db = record shop {
    orders = first_order ∷ draft_order ∷ [];
    items = first_item ∷ draft_item ∷ [];
    order_seq = 2;
    item_seq = 2;
  };
  calls = 0;
  charges = [];
}
