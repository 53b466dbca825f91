-- ===== src/Domain.antt =====
-- The domain models of the example services: reducers and command handlers.
pub mod Handlers
pub mod Loan
pub mod Document
pub mod DocContents
pub mod User
pub mod Acl
pub mod LoanDetails
pub mod Organization
