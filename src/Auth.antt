-- ===== src/Auth.antt =====
-- internal/auth: users, tokens and roles.
pub mod Store
pub mod Jwt
pub mod Password
pub mod Service
pub mod Tests
pub mod Races
