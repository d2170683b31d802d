-- ===== src/Tests.antt =====
-- A small shop, and runs of the services on it.
pub mod Shop
pub mod NumberRuns
pub mod CountRuns
pub mod StockRuns
pub mod ReservationRuns
pub mod TransferRuns
pub mod Desk
pub mod PaymentRuns
pub mod ChequeRuns
pub mod CreditRuns
pub mod MoneyRuns
pub mod PayableRuns
pub mod UnitRuns
pub mod PriceRuns
