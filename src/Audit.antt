-- ===== src/Audit.antt =====
-- internal/audit: the events, the scrubber, the batchers and the ClickHouse writer.
pub mod Event
pub mod Scrubber
pub mod Batcher
pub mod Writer
pub mod Delivery
pub mod Stopping
pub mod Outage
pub mod Unprocessed
