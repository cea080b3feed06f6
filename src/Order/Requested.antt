-- ===== src/Order/Requested.antt =====
-- The quantities that `CreateOrder` adds up from the requested items.
use fincart.Prelude.{◌≡◌, refl, sym, ap, ◌∙◌, List, [], ◌∷◌, some, ◌||◌, false, arith, inl, inr}
use fincart.Prelude.Tests.{if◌then◌else◌, Bool-cases}
use fincart.Prelude.Int.{
  ℤ, pos, ◌+ℤ◌, eqb_ℤ, eqb_ℤ_iff, add64, IsInt64, wrap64, wrap64-IsInt64, wrap64_of_IsInt64,
  is_nonpositive, +ℤ_zero_right, +ℤ_zero_left,
}
use fincart.Prelude.Wrap.{wrap64-add_middle}
use fincart.Order.Quantities.{Quantities, CreateOrderItem, quantity_of, set_quantity, collect}

-- The units of a product that a request asks for, over all its lines.
unfoldable pub requested : ℤ → List CreateOrderItem → ℤ
requested id [] = pos 0
requested id (item ∷ items) =
    (if eqb_ℤ item.product_id id then item.quantity else pos 0) +ℤ requested id items

pub quantity_of-set_quantity :
    (k j q : ℤ) (m : Quantities)
    → quantity_of k (set_quantity j q m) ≡ (if eqb_ℤ j k then q else quantity_of k m)
unfolding quantity_of set_quantity
quantity_of-set_quantity k j q [] = refl
quantity_of-set_quantity k j q ((i, r) ∷ m) =
    ground (arith, eqb_ℤ_iff i j, eqb_ℤ_iff i k, eqb_ℤ_iff j k, quantity_of-set_quantity k j q m)

pub collect_step :
    (id : ℤ) (item : CreateOrderItem) (items : List CreateOrderItem) (m m' : Quantities)
    → collect (item ∷ items) m ≡ some m'
    → (is_nonpositive item.product_id || is_nonpositive item.quantity ≡ false)
      × (collect items
            (set_quantity item.product_id (add64 (quantity_of item.product_id m) item.quantity) m)
          ≡ some m')
unfolding collect
collect_step id item items m m' h = ground arith

-- One line of the request.
added_line :
    (id total : ℤ) (item : CreateOrderItem) (m : Quantities)
    → IsInt64 (quantity_of id m)
    → let m' =
        set_quantity item.product_id (add64 (quantity_of item.product_id m) item.quantity) m in
      IsInt64 (quantity_of id m')
      × (wrap64 (quantity_of id m' +ℤ total)
          ≡ wrap64 (
              quantity_of id m
              +ℤ ((if eqb_ℤ item.product_id id then item.quantity else pos 0) +ℤ total)))
added_line id total item m h =
    let line =
      quantity_of-set_quantity id item.product_id
        (add64 (quantity_of item.product_id m) item.quantity) m in
    elim (Bool-cases (eqb_ℤ item.product_id id)) [
      | inl this ↦
          let e = (eqb_ℤ_iff item.product_id id).0 this in
          rw (line, this, e)
            (unfold add64 in
              (wrap64-IsInt64 _, wrap64-add_middle (quantity_of id m) item.quantity total))
      | inr other ↦
          rw (line, other) (h, ap (λ x. wrap64 (quantity_of id m +ℤ x)) (sym (+ℤ_zero_left total)))
    ]

collect_from :
    (id : ℤ) (items : List CreateOrderItem) (m m' : Quantities)
    → IsInt64 (quantity_of id m)
    → collect items m ≡ some m'
    → quantity_of id m' ≡ wrap64 (quantity_of id m +ℤ requested id items)
unfolding requested
collect_from id [] m m' h e =
    let same : m ≡ m' = unfold collect in cc in
    ap (quantity_of id) (sym same)
    ∙ sym (wrap64_of_IsInt64 (quantity_of id m) h)
    ∙ ap wrap64 (sym (+ℤ_zero_right (quantity_of id m)))
collect_from id (item ∷ items) m m' h e =
    let (_, e') = collect_step id item items m m' e in
    let (h', line) = added_line id (requested id items) item m h in
    collect_from id items _ m' h' e' ∙ line

-- The map that the loop ends with has, for each product, the sum of the quantities on its lines,
-- cut to 64 bits.
pub collect_lem :
    (id : ℤ) (items : List CreateOrderItem) (m : Quantities)
    → collect items [] ≡ some m
    → quantity_of id m ≡ wrap64 (requested id items)
collect_lem id items m h =
    collect_from id items [] m (unfold quantity_of in omega arith) h
    ∙ ap wrap64 (unfold quantity_of in +ℤ_zero_left (requested id items))
