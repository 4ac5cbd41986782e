-- ===== src/Billing/Frame.antt =====
-- What every method that saves an organisation keeps: the owners there are, and that the plan of
-- each is one of the known plans.
pub mod Rows
pub mod Methods
pub mod Handlers
pub mod Post
pub mod Client
pub use Rows.*
