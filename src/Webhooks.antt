-- ===== src/Webhooks.antt =====
-- Webhooks (modules/notifications/src): which events a destination wants, how a post is judged, and the
-- queue of deliveries.
pub mod Rules
pub mod Queue
pub mod Results
pub mod Retries
pub mod Claims
pub mod Enqueue
pub mod Addresses
pub mod Blocks
pub mod Dispatcher
pub mod Payload
mod PayloadTests
pub mod Events
mod EventTests
pub mod Requests
pub mod Destinations
pub mod Sealing
mod EditTests
pub mod Rounds
mod Tests
mod RoundTests
mod AddressTests
