-- ===== src/Onboarding.antt =====
-- onboarding/server.go: the server that answers the onboarding issues on GitHub.
mod Tests
pub mod Team
pub mod Label
