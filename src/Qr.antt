-- ===== src/Qr.antt =====
-- The QR code encoder of apps/web/qr.js.
pub mod Field
pub mod Codewords
pub mod Matrix
pub mod Place
pub mod Encode
pub mod Version
pub mod Choice
pub mod Bits
pub mod Reading
pub mod RoundTrip
mod Tests
