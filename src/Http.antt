-- ===== src/Http.antt =====
-- api/internal/httpapi: what the server does before a handler runs.
pub mod RateLimit
