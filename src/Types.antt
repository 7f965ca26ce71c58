-- ===== src/Types.antt =====
-- cpp/common/types.hpp: the data that the components exchange.
mod Enums
mod Market
mod Orders
mod Positions
mod Config
pub use Enums.*
pub use Market.*
pub use Orders.*
pub use Positions.*
pub use Config.*
