-- ===== src/Guide.antt =====
-- Shipping guides: apps/api/src/modules/shipping, the jobs that create a guide at the carrier, their
-- repository and their worker.
pub mod State
pub mod Jobs
pub mod Marks
pub mod Laws
pub mod Worker
