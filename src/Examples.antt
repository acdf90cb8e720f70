-- ===== src/Examples.antt =====
-- Concrete runs of the definitions, and of the theorems that have conditions. Models no code of its
-- own.
mod Interfaces
mod FlowRuns
mod Steers
mod Probing
mod Managing
mod Starting
mod Tunnelling
mod Screens
mod Commanding
mod Setting
mod Channels
mod Requests
mod Documents
mod Mocking
