-- ===== src/Broker/Admission.antt =====
-- The guards of `submit_order`, before anything is written.
use dse_auto.Common.{
  ℕ, ◌-◌, Bool, true, false, not, ◌&&◌, ◌||◌, Option, none, some, ltb, leb, if◌then◌else◌, Result,
  ok, raise, value_error, ◌>>=◌, ◌>>◌, raise_if,
}
use dse_auto.Store.{
  Order, OrderType, Side, buy, sell, limit, stop, stop_limit, trailing_stop, market,
}
use dse_auto.Broker.{PaperBroker, is_fillable}
use dse_auto.Broker.Rules.{ExecutionContext, ExecutionRules, band, fillable_volume}

-- What the guards leave: the order is skipped, or goes on with its limit price and a volume.
pub data Admission : Type 0 where
  skipped : Admission
  admitted : ℕ → ℕ → Admission

abbrev pub is_market : OrderType → Bool
is_market market = true
is_market limit = false
is_market stop = false
is_market stop_limit = false
is_market trailing_stop = false

abbrev pub buys : Side → Bool
buys buy = true
buys sell = false

-- context.settled_quantity is not None and context.settled_quantity < remaining
abbrev pub unsettled : Option ℕ → ℕ → Bool
unsettled none remaining = false
unsettled (some n) remaining = ltb n remaining

-- The checks that need both the context and the rules.
unfoldable pub admit_by_rules :
    PaperBroker → Order → ℕ → ℕ → ExecutionRules → ExecutionContext → Result Admission
admit_by_rules b order limit_price market_price rules context =
    if context.suspended || context.no_trade then ok skipped else (do
      (lower, upper) ← band rules context.previous_close
      raise_if (buys order.side && leb upper market_price)
          (value_error "Buy blocked at configured limit-up band")
      raise_if (not (buys order.side) && leb market_price lower)
          (value_error "Sell blocked at configured limit-down band")
      raise_if (ltb context.available_volume rules.minimum_liquidity)
          (value_error "Minimum liquidity threshold not met")
      raise_if
          (not (buys order.side)
            && unsettled context.settled_quantity (order.quantity - order.filled_quantity))
          (value_error "Insufficient settled shares")
      volume ← fillable_volume rules context b.fill_model
      ok (admitted limit_price volume))

-- `if context is not None and self.rules is not None`
abbrev pub admit_context :
    PaperBroker
    → Order
    → ℕ
    → ℕ
    → ℕ
    → Option ExecutionRules
    → Option ExecutionContext
    → Result Admission
admit_context b order limit_price market_price volume (some rules) (some context) =
    admit_by_rules b order limit_price market_price rules context
admit_context b order limit_price market_price volume none context =
    ok (admitted limit_price volume)
admit_context b order limit_price market_price volume (some rules) none =
    ok (admitted limit_price volume)

abbrev pub admit_limit :
    PaperBroker → Order → ℕ → ℕ → Option ExecutionContext → Option ℕ → Result Admission
admit_limit b order market_price volume context none =
    raise (value_error "Paper execution requires a limit price")
admit_limit b order market_price volume context (some limit_price) =
    admit_context b order limit_price market_price volume b.rules context

unfoldable pub admit : PaperBroker → Order → ℕ → ℕ → Option ExecutionContext → Result Admission
unfolding admit_by_rules
admit b order market_price volume context = do
  raise_if (not (is_fillable order.status)) (value_error "Order cannot be submitted")
  raise_if (is_market order.order_type) (value_error "Market orders are disabled")
  admit_limit b order market_price volume context order.limit_price
