-- ===== src/Examples.antt =====
-- The theorems at concrete inputs, by the part of the program.
mod Toy
mod Worker
mod Handlers
mod Sessions
mod Requests
mod Boot
mod System
mod Logins
mod Tools
mod Guard
