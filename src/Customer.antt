-- ===== src/Customer.antt =====
-- Customers: apps/api/src/modules/customers.
pub mod Contact
