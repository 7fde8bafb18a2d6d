-- ===== src/Prelude/Table.antt =====
-- Tables as lists of rows. A query for one row gives the first that passes the test; a write by
-- primary key reaches every row with that key, of which `Unique` says that there is one at most.
mod Defs
mod Laws
pub use Defs.*
pub use Laws.*
