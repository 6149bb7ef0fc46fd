-- ===== src/License.antt =====
-- addons/pm_qms_license: signed licenses, their term, their import and the capacity that they grant.
pub mod Term
pub mod Timeline
pub mod Document
pub mod Checking
pub mod Trust
mod Tests
pub mod Capacity
pub mod Seats
pub mod Register
pub mod Replacement
mod CapacityTests
