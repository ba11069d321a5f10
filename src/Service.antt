-- ===== src/Service.antt =====
-- apps/execution_gateway/src/execution_gateway/services/order_state_service.py over the statements of
-- order_repo.py, order_intent_repo.py, outbox_repo.py and order_state_repo.py.
pub mod Repository
pub mod OrderState
pub mod Transitions
pub mod Keeps
pub mod Agreement
pub mod Consistency
pub mod Loads
pub mod Lists
pub mod ListLoads
pub mod Lookups
pub mod Finds
pub mod Found
pub mod LookupLoads
pub mod Pages
pub mod Ascending
pub mod Paging
pub mod Batches
pub mod Reads
