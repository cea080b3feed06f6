-- ===== src/Cart.antt =====
-- Package internal/cart: the cart is the user's one draft order; its statements and its service.
pub mod Model
pub mod Repository
pub mod Service
pub mod Checkout
pub mod Totals
pub mod Changes
pub mod Pricing
pub mod Sale
pub mod Viewing
pub mod Quantities
pub mod Conservation
pub mod Moves
pub mod Goods
