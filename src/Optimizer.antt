-- ===== src/Optimizer.antt =====
-- src/investment_tracker/quant/optimizer: the search over candidates and the grid that makes them.
pub mod Search
pub mod Grid
