-- ===== src/Tests.antt =====
-- Concrete runs of the modelled code, and each theorem at an input where its hypotheses hold.
mod Sample
mod Ledger
mod Upcast
mod Guards
mod Velocity
mod WhatIf
mod Client
mod Packs
mod Contracts
mod Accounts
mod Keys
mod Sessions
mod Routes
mod Wrap
