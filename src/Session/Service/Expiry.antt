-- ===== src/Session/Service/Expiry.antt =====
-- How long a session lives: the expiry that is set, and what idling and age do to it.
use authpad.Prelude.{ℕ, ◌+◌, ◌≡◌, arith}
use authpad.Session.Service.{SessionConfig, effective_ttl, session_expiry}

-- The cap by the maximal lifetime never takes effect: a session expires after the lifetime asked
-- for, or the default one, whatever `max_lifetime` is.
pub session_expiry-uncapped :
    (cfg : SessionConfig) (ttl now : ℕ) → session_expiry cfg ttl now ≡ now + effective_ttl cfg ttl
unfolding session_expiry effective_ttl
session_expiry-uncapped cfg ttl now = ground arith
