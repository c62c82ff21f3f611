-- ===== src/Tests.antt =====
-- Concrete inputs on which the theorems are applied, and the test vectors of the program.
mod Crypto
mod Wire
mod Base91
mod Channel
mod Signaling
mod RamCache
mod Server
mod Handles
mod Mount
mod Requests
mod Flights
mod Handshake
mod Client
mod Clients
