-- ===== src/Strategy/Submit/Oversell.antt =====
-- No oversell, for the loop over the slices and the whole `_submit_target_quantity`.
use qapp.Base.{
  ℕ, zero, suc, Bool, false, ◌||◌, Option, none, some, List, [], ◌∷◌, arith, Result, ok, err, ◌≡◌,
  ◌∙◌, refl, inl, inr, Bool-cases,
}
use qapp.Base.Int.{ℤ}
use qapp.Strategy.Types.{Intent, Strategy, Config, sell, Failure}
use qapp.Strategy.Orders.{open_sell_quantity}
use qapp.Strategy.Monad.{bind_keeps}
use qapp.Strategy.Submit.{
  Engine, clamp_sell_quantity, send_clamped, submit_order_quantity, submit_slices, submit_all,
  is_some, submit_target_quantity, order_slices,
}
use qapp.Strategy.Submit.Limit.{IsQuiet, base, Within, send_quantity-Within, Clamped, clamp-Clamped}

module _ (e : Engine) (quiet : IsQuiet e) (today unit n : ℕ) (limit : ℤ) (reason : ℕ) (i : Intent)
    (sells : i.side ≡ sell) where
  abbrev Holds : Strategy → Type 0
  Holds t = Within e today i.instrument_id n limit t.world

  send_clamped-Holds :
      (out : Intent × Option ℕ) (s t : Strategy)
      → Clamped e quiet today i.instrument_id i s (ok out, t)
      → Holds s
      → Holds (send_clamped e unit today reason out t).1
  unfolding send_clamped
  send_clamped-Holds (i', none) s t c h = rw c.world_same h
  send_clamped-Holds (i', some zero) s t c h = rw c.world_same h
  send_clamped-Holds (i', some (suc q)) s t c h =
      let k = c.clamped refl in
      send_quantity-Within e quiet today i.instrument_id unit n limit reason i' (suc q) t k.0
        (k.1 ∙ sells) (rw c.world_same k.2) (rw c.world_same h)

  submit_order_quantity-Holds :
      (quantity : ℕ) (s : Strategy)
      → Holds s
      → Holds (submit_order_quantity e unit today reason i quantity s).1
  unfolding submit_order_quantity
  submit_order_quantity-Holds quantity s h =
      rw (sells, submit_order_quantity)
        (bind_keeps Holds (clamp_sell_quantity e today i quantity) _ s (rw c.world_same h) (λ out r.
          send_clamped-Holds out s _
            (record { world_same = c.world_same; clamped = λ {i'} {c = v} g. c.clamped (r ∙ g) })
            h))
    where
      c : Clamped e quiet today i.instrument_id i s (clamp_sell_quantity e today i quantity s)
      c = clamp-Clamped e quiet today i.instrument_id i quantity s refl

  submit_slices-Holds :
      (any : Bool) (qs : List ℕ) (s : Strategy)
      → Holds s
      → Holds (submit_slices e unit today reason i any qs s).1
  unfolding submit_slices
  submit_slices-Holds any [] s h = h
  submit_slices-Holds any (q ∷ qs) s h =
      bind_keeps Holds (submit_order_quantity e unit today reason i q) _ s
        (submit_order_quantity-Holds q s h)
        (λ done r. submit_slices-Holds (any || done) qs _ (submit_order_quantity-Holds q s h))

  submit_all-Holds :
      (out : Result Failure (List ℕ)) (s : Strategy)
      → Holds s
      → Holds (submit_all e unit today reason i out s).1
  unfolding submit_all
  submit_all-Holds (err x) s h = h
  submit_all-Holds (ok []) s h = h
  submit_all-Holds (ok (q ∷ qs)) s h = submit_slices-Holds false (q ∷ qs) s h

-- On a quiet engine, whatever `_submit_target_quantity` of a sell does and however it ends, the
-- strategy's open sell orders of the instrument, those with a cancel on the way not counted, stay
-- within the larger of what was open before and what may be sold of it (the broker's figure, or else
-- the position less today's buys): a submission never brings them above what may be sold, and where
-- they are above it already it does not raise them. What may be sold is unchanged.
pub submit_target_quantity-Within :
    (e : Engine) (quiet : IsQuiet e) (config : Config) (today unit reason : ℕ) (i : Intent)
    (s : Strategy)
    → i.side ≡ sell
    → Within e today i.instrument_id
        (open_sell_quantity s.world i.instrument_id)
        (base e today i.instrument_id s.world)
        (submit_target_quantity e unit config today reason i s).1.world
unfolding submit_target_quantity
submit_target_quantity-Within e quiet config today unit reason i s sells =
    elim (Bool-cases (is_some (s.world.instrument i.instrument_id))) [
      | inl found ↦ rw found (
          submit_all-Holds e quiet today unit open_before limit reason i sells
            (order_slices unit config i) s start)
      | inr missing ↦ rw missing start
    ]
  where
    open_before : ℕ
    open_before = open_sell_quantity s.world i.instrument_id

    limit : ℤ
    limit = base e today i.instrument_id s.world

    start : Within e today i.instrument_id open_before limit s.world
    start = record { same_base = refl; bounded = omega arith }
