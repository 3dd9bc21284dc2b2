-- ===== src/Checks.antt =====
-- Runs of the model on concrete inputs, and the theorems at inputs that meet their conditions.
mod Texts
mod Screens
mod Lines
mod Processes
mod Sessions
mod Handlers
mod Commands
mod Devices
mod Arrays
