-- ===== src/Qr.antt =====
-- The QR-code service, qr_code_generator/scaffold/app.
mod Tests
pub mod Token
pub mod UrlValidator
pub mod Service
pub mod Cache
pub mod Routes
pub mod Consumer
