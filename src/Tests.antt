-- ===== src/Tests.antt =====
-- Tests, and the examples of the theorems.
mod Frames
mod Delivery
pub mod Toys
mod Quality
mod Registry
mod Access
mod Egress
mod Server
mod Routes
mod Onboard
mod Here4
mod Headers
mod Jwks
mod Limiter
mod Account
mod Uploads
mod Rovers
mod Codec
mod Sessions
