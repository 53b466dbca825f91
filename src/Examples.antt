-- ===== src/Examples.antt =====
-- Tests of the definitions at concrete inputs, and instances of the theorems that have hypotheses.
mod Memory
mod Loans
mod Reductions
mod Projections
mod Domains
mod LoanDetails
mod Networks
mod Deletions
mod Schemas
mod Stores
mod Arrivals
mod Rebuilds
mod Access
