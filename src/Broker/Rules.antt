-- ===== src/Broker/Rules.antt =====
-- backend/app/brokers/dse_execution.py. The configuration file is the record `ExecutionRules`; its
-- decimals are in ten-thousandths.
use dse_auto.Common.{
  ℕ, ◌+◌, ◌-◌, ◌*◌, ◌/◌, Bool, Option, List, [], ◌∷◌, String, str_eq, leb, ◌==◌, if◌then◌else◌,
  Result, ok, raise, other_error, key_error, ◌>>=◌,
}
use dse_auto.Money.{round_half_up}

pub record ExecutionContext : Type 0 where
  pub previous_close : ℕ
  pub available_volume : ℕ
  pub queue_ahead : ℕ
  pub suspended : Bool
  pub no_trade : Bool
  pub settled_quantity : Option ℕ

pub record TickSize : Type 0 where
  pub up_to : ℕ
  pub tick : ℕ

pub record FillMode : Type 0 where
  pub participation_rate : ℕ
  pub queue_penalty : ℕ

pub record ExecutionRules : Type 0 where
  pub tick_sizes : List TickSize
  pub price_limit_percent : ℕ
  pub fill_modes : List (String × FillMode)
  pub minimum_liquidity : ℕ

-- A price inside a computation has ten places.
abbrev pub price_scale : ℕ
price_scale = 1000000

-- self.config["tick_sizes"][-1]["tick"]; an empty table is an IndexError.
abbrev pub last_tick : List TickSize → Result ℕ
last_tick [] = raise other_error
last_tick (row ∷ []) = ok row.tick
last_tick (row ∷ next ∷ rest) = last_tick (next ∷ rest)

-- The loop over the rows, with the table for the row at its end.
abbrev pub tick_in : List TickSize → ℕ → List TickSize → Result ℕ
tick_in table price [] = last_tick table
tick_in table price (row ∷ rows) =
    if leb price (row.up_to * price_scale) then ok row.tick else tick_in table price rows

unfoldable pub tick_size : ExecutionRules → ℕ → Result ℕ
tick_size rules price = tick_in rules.tick_sizes price rules.tick_sizes

-- (price / tick).quantize(Decimal("1"), rounding=ROUND_HALF_UP) * tick; the result has four places.
-- A tick of zero is a DivisionByZero.
unfoldable pub normalize_price : ExecutionRules → ℕ → Result ℕ
unfolding tick_size
normalize_price rules price = do
  tick ← tick_size rules price
  if tick == 0 then raise other_error else ok (round_half_up price (tick * price_scale) * tick)

-- `percent` is price_limit_percent / 100, a number of millionths. A limit above one hundred percent
-- gives the lower band 0, where the source has a negative one; no price lies below either.
unfoldable pub band : ExecutionRules → ℕ → Result (ℕ × ℕ)
band rules previous_close = do
  lower ← normalize_price rules (previous_close * (1000000 - rules.price_limit_percent))
  upper ← normalize_price rules (previous_close * (1000000 + rules.price_limit_percent))
  ok (lower, upper)

-- self.config["fill_modes"][mode]
abbrev pub fill_mode : String → List (String × FillMode) → Result FillMode
fill_mode mode [] = raise (key_error "fill_modes")
fill_mode mode ((name, m) ∷ rest) = if str_eq name mode then ok m else fill_mode mode rest

-- int(Decimal(visible) * participation * (1 - queue_penalty)), at least 0. Subtraction stops at 0,
-- where the source takes the maximum with 0.
unfoldable pub fillable_volume : ExecutionRules → ExecutionContext → String → Result ℕ
fillable_volume rules context mode = do
  m ← fill_mode mode rules.fill_modes
  ok (
      (context.available_volume - context.queue_ahead)
      * m.participation_rate
      * (10000 - m.queue_penalty)
      / 100000000)
