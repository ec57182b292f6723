-- ===== src/Examples.antt =====
-- A small machine for the code to run on, and runs of the code on it.
mod Machine
mod Links
mod Packets
mod Scripts
mod Building
mod Channels
mod Plans
mod Suites
mod Datagrams
mod Programs
