-- ===== src/Portfolio.antt =====
-- cpp/portfolio: PortfolioEngine.
pub mod Engine
pub mod Quantities
pub mod Marking
pub mod FillLoop
