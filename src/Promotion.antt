-- ===== src/Promotion.antt =====
-- The worker that opens a pull request for an approved submission, api/internal/githubpr.
pub mod Queue
pub mod Text
pub mod PullRequest
pub mod Retry
