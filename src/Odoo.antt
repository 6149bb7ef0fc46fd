-- ===== src/Odoo.antt =====
-- What the models of addons/ take from Odoo: its exceptions, the environment of a call, field values
-- and the shape of a method that loops over a recordset. An exception rolls the transaction back, so
-- the result of a method that raises holds no new records.
mod Results
mod Environment
mod Fields
mod Writes
pub use Results.*
pub use Environment.*
unfoldable pub use Fields.*
pub use Writes.*
