-- ===== src/Security.antt =====
-- app/security: claims and the hash chain.
pub mod RbacPolicy
pub mod HashChain
