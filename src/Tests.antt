-- ===== src/Tests.antt =====
-- Runs of the program's parts on concrete inputs.
pub mod Data
mod Batch
mod Driver
mod Github
mod Loop
mod Permission
mod Question
mod Reminder
mod Stall
mod Usage
mod Worker
