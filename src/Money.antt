-- ===== src/Money.antt =====
-- packages/domain/src/money: currencies, amounts, and the split of an amount.
mod Tests
pub mod Currency
pub mod Decimal
pub mod Amount
pub mod Allocate
