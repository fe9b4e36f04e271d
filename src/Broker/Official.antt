-- ===== src/Broker/Official.antt =====
-- backend/app/brokers/base.py: the adapter to the official broker is disabled, and every operation
-- that would execute raises.
use dse_auto.Common.{ℕ, Bool, false, String, Result, raise, Error, runtime_error}
use dse_auto.Store.{Order, Session}

abbrev disabled : Error
disabled = runtime_error "Official live broker execution is disabled in Milestone 1"

unfoldable pub submit_order : Order → ℕ → ℕ → Session → Result Order × Session
submit_order order market_price available_volume s = (raise disabled, s)

unfoldable pub cancel_order : Order → Session → Result Order × Session
cancel_order order s = (raise disabled, s)

unfoldable pub replace_order : Order → ℕ → ℕ → Session → Result Order × Session
replace_order order quantity limit_price s = (raise disabled, s)

pub record Report : Type 0 where
  pub healthy : Bool
  pub reason : String

unfoldable pub reconcile : Report
reconcile = record { healthy = false; reason = "live adapter disabled" }
