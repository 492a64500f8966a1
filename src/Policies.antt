-- ===== src/Policies.antt =====
-- packages/policies/src: the helpers that the policy packs share.
pub mod Json
pub mod IamPolicy
pub mod Oidc
pub mod Suppressions
pub mod Urn
