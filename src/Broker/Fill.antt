-- ===== src/Broker/Fill.antt =====
-- The numbers of one fill in `submit_order`: quantity, price, fee and average price.
pub mod Bounds
use dse_auto.Common.{
  ℕ, ◌+◌, ◌-◌, ◌*◌, ◌/◌, Option, none, some, leb, if◌then◌else◌, Bool, true, false, min, max,
}
use dse_auto.Money.{round_half_even}
use dse_auto.Store.{Order, Side, buy, sell}
use dse_auto.Broker.{PaperBroker}
use dse_auto.Broker.Rules.{price_scale}

-- order.limit_price >= market_price for a buy, <= for a sell
abbrev pub crosses : Side → ℕ → ℕ → Bool
crosses buy limit_price market_price = leb market_price limit_price
crosses sell limit_price market_price = leb limit_price market_price

-- min(remaining, max(0, int(Decimal(available_volume) * self.participation_rate))). The remaining
-- quantity is not negative for an order that is not filled beyond its quantity.
unfoldable pub fill_quantity : PaperBroker → Order → ℕ → ℕ
fill_quantity b order available_volume =
    min (order.quantity - order.filled_quantity) (available_volume * b.participation_rate / 10000)

-- market_price + slippage or market_price - slippage, with ten places. A slippage above the price
-- gives 0, where the source has a negative price; the limit price that follows is above both.
unfoldable pub simulated_price : PaperBroker → Side → ℕ → ℕ
simulated_price b buy market_price = market_price * price_scale + market_price * b.slippage_percent
simulated_price b sell market_price = market_price * price_scale - market_price * b.slippage_percent

-- The simulated price held at the limit price.
unfoldable pub capped_price : PaperBroker → Side → ℕ → ℕ → ℕ
unfolding simulated_price
capped_price b buy limit_price market_price =
    min (simulated_price b buy market_price) (limit_price * price_scale)
capped_price b sell limit_price market_price =
    max (simulated_price b sell market_price) (limit_price * price_scale)

-- fill_price.quantize(Decimal("0.01"))
unfoldable pub fill_price : PaperBroker → Side → ℕ → ℕ → ℕ
fill_price b side limit_price market_price =
    round_half_even (capped_price b side limit_price market_price) 100000000 * 100

-- (gross * Decimal("0.004")).quantize(Decimal("0.01"))
unfoldable pub fill_fee : ℕ → ℕ
fill_fee gross = round_half_even (gross * 4) 100000 * 100

abbrev pub or_zero : Option ℕ → ℕ
or_zero none = 0
or_zero (some n) = n

-- (total_cost / order.filled_quantity).quantize(Decimal("0.01"), rounding=ROUND_DOWN)
unfoldable pub average_price : Order → ℕ → ℕ → ℕ
average_price order quantity price =
    let total_cost = or_zero order.average_fill_price * order.filled_quantity + price * quantity in
    total_cost / ((order.filled_quantity + quantity) * 100) * 100
