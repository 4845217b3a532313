-- ===== src/Tests.antt =====
-- Runs of the definitions on concrete inputs, and the theorems at such inputs.
mod Routes
mod Keys
mod Requests
mod Credentials
mod Databases
mod Admin
mod Logins
mod Processes
