-- ===== src/Tests.antt =====
-- Concrete databases, a platform that meets its laws, tests of the definitions, and the theorems at
-- concrete inputs.
mod Data
mod Api
mod Worker
mod Completion
mod Pool
mod Server
mod Page
mod Upgrade
mod Programs
