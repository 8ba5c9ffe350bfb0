-- ===== src/Deal.antt =====
-- packages/domain/src/deal: milestone conditions, their evaluation, and the amounts of milestones.
mod Tests
pub mod Conditions
pub mod Evaluate
pub mod Amounts
