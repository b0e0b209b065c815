-- ===== src/Fixtures.antt =====
-- The services that the unit tests of unittests/ call, and the helpers that they use.
pub mod Calculator
pub mod CalculatorService
pub mod Events
pub mod TestUtil
