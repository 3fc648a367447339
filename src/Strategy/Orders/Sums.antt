-- ===== src/Strategy/Orders/Sums.antt =====
-- How the open quantities change when a fresh order joins the cache.
use qapp.Base.{
  ℕ, ◌+◌, ◌≡◌, ◌≢◌, refl, ap, true, ◌&&◌, Option, none, some, List, [], ◌∷◌, arith, if◌then◌else◌,
  All, Dict, lookup, insert, lookup-insert, Bool-cases, inl, inr,
}
use qapp.Strategy.Types.{Side, Order, World}
use qapp.Strategy.Orders.{matches, is_active_order, collect, values, active_orders, sum_by}

-- The identifier is not among the orders.
abbrev pub Fresh : ℕ → List Order → Type 0
Fresh k os = All (λ o. o.client_order_id ≢ k) os

module _ (f : Order → ℕ) where
  abbrev weight_of : Option Order → ℕ
  weight_of none = 0
  weight_of (some o) = f o

  abbrev old_weight : ℕ → Dict Order → ℕ
  old_weight k d = weight_of (lookup k d)

  total-insert :
      (k : ℕ) (o : Order) (d : Dict Order)
      → sum_by f (values (insert k o d)) + old_weight k d ≡ sum_by f (values d) + f o
  unfolding sum_by
  total-insert k o [] = omega arith
  total-insert k o ((j, p) ∷ d) = ground (arith, total-insert k o d)

  -- `d'` is `d` with the order `k` of weight `q` besides.
  record Extends (k q : ℕ) (d d' : Dict Order) : Type 0 where
    grown : sum_by f (values d') ≡ sum_by f (values d) + q
    others : (j : ℕ) → j ≢ k → lookup j d' ≡ lookup j d

  insert-Extends :
      (k q j : ℕ) (o : Order) (d d' : Dict Order)
      → j ≢ k
      → Extends k q d d'
      → Extends k q (insert j o d) (insert j o d')
  insert-Extends k q j o d d' ne x = record {
    grown =
        omega
          (arith, total-insert j o d, total-insert j o d', x.grown, ap weight_of (x.others j ne));
    others = λ i h. ground (arith, lookup-insert i j o d, lookup-insert i j o d', x.others i h);
  }

  collect-Extends :
      (k q : ℕ) (id : Option ℕ) (side : Option Side) (os : List Order) (d d' : Dict Order)
      → Fresh k os
      → Extends k q d d'
      → Extends k q (collect id side os d) (collect id side os d')
  unfolding collect
  collect-Extends k q id side [] d d' fr x = x
  collect-Extends k q id side (o ∷ os) d d' fr x =
      elim (Bool-cases (matches id side o && is_active_order o)) [
        | inl yes_found ↦ rw yes_found (
            collect-Extends k q id side os _ _ fr.1
              (insert-Extends k q o.client_order_id o d d' fr.0 x))
        | inr not_found ↦ rw not_found (collect-Extends k q id side os d d' fr.1 x)
      ]

  start : (k : ℕ) (o : Order) → Extends k (f o) [] ((k, o) ∷ [])
  unfolding sum_by
  start k o = record { grown = omega arith; others = λ j ne. ground arith }

collect-cons :
    (id : Option ℕ) (side : Option Side) (o : Order) (os : List Order) (d : Dict Order)
    → collect id side (o ∷ os) d
      ≡ collect id side os
          (if matches id side o && is_active_order o then insert o.client_order_id o d else d)
unfolding collect
collect-cons id side o os d = refl

-- A fresh active order that a query asks for adds its weight to the query's sum.
pub active_orders-cons :
    (f : Order → ℕ) (w : World) (o : Order) (id : Option ℕ) (side : Option Side)
    → Fresh o.client_order_id w.orders
    → Fresh o.client_order_id w.orders_open
    → Fresh o.client_order_id w.orders_inflight
    → (matches id side o && is_active_order o) ≡ true
    → sum_by f (active_orders (record w { orders = o ∷ w.orders }) id side)
      ≡ sum_by f (active_orders w id side) + f o
unfolding active_orders
active_orders-cons f w o id side f1 f2 f3 m =
    (collect-Extends f k q id side w.orders_inflight _ _ f3
      (collect-Extends f k q id side w.orders_open _ _ f2 with_new)).grown
  where
    k : ℕ
    k = o.client_order_id

    q : ℕ
    q = f o

    with_new : Extends f k q (collect id side w.orders []) (collect id side (o ∷ w.orders) [])
    with_new =
        rw collect-cons
          (rw m (collect-Extends f k q id side w.orders [] ((k, o) ∷ []) f1 (start f k o)))
