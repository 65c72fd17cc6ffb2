-- ===== src/Tests.antt =====
-- Runs of the definitions on small inputs, and instances of the theorems.
mod Parsing
mod Trees
mod Claims
mod Devices
mod Times
mod Rings
mod Requests
mod Handles
mod Busses
mod Reaping
mod Splitting
