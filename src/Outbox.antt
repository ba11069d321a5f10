-- ===== src/Outbox.antt =====
-- The transactional outbox: the rows of outbox_events (Rows), the publisher (World, Publisher), and
-- what the two guarantee.
pub mod Rows
pub mod World
pub mod Publisher
pub mod Ends
pub mod Updates
pub mod Delivery
pub mod Retries
pub mod Candidates
pub mod Claims
pub mod InHand
pub mod Progress
pub mod Rounds
