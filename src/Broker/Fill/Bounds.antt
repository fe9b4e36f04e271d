-- ===== src/Broker/Fill/Bounds.antt =====
-- Bounds on the numbers of a fill.
use dse_auto.Common.{ℕ, ◌+◌, ◌-◌, ◌*◌, ◌≤◌, arith}
use dse_auto.Money.{round_half_even}
use dse_auto.Money.Rounding.{round_half_even-price}
use dse_auto.Store.{Order, buy, sell}
use dse_auto.Broker.{PaperBroker}
use dse_auto.Broker.Fill.{fill_quantity, fill_fee, capped_price, fill_price}

-- A fee is never above the gross amount.
pub fill_fee-le : (gross : ℕ) → fill_fee gross ≤ gross
unfolding fill_fee round_half_even
fill_fee-le gross = ground arith

-- A fill is at most what remains of the order, and at most the broker's share of the volume.
pub fill_quantity-le :
    (b : PaperBroker) (o : Order) (volume : ℕ)
    → (fill_quantity b o volume ≤ o.quantity - o.filled_quantity)
      × (fill_quantity b o volume * 10000 ≤ volume * b.participation_rate)
unfolding fill_quantity
fill_quantity-le b o volume = omega arith

-- A buy is filled at most half a cent above its limit price, for the rounding to cents, and a sale at
-- most half a cent below.
pub fill_price-limit :
    (b : PaperBroker) (limit_price market_price : ℕ)
    → (fill_price b buy limit_price market_price ≤ limit_price + 50)
      × (limit_price ≤ fill_price b sell limit_price market_price + 50)
unfolding fill_price capped_price
fill_price-limit b l m = (
  omega (arith, round_half_even-price (capped_price b buy l m)),
  omega (arith, round_half_even-price (capped_price b sell l m)),
)

-- Where the limit price is a whole number of cents, a buy is never filled above it and a sale never
-- below it.
pub fill_price-whole_cents :
    (b : PaperBroker) (cents market_price : ℕ)
    → (fill_price b buy (cents * 100) market_price ≤ cents * 100)
      × (cents * 100 ≤ fill_price b sell (cents * 100) market_price)
unfolding fill_price capped_price round_half_even
fill_price-whole_cents b c m = ground arith
