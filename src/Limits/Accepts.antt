-- ===== src/Limits/Accepts.antt =====
-- Which limits `Validate` accepts.
use inkmail.Base.{ℕ, ◌≤◌, ◌≡◌, ◌↔◌, refl, List, [], ◌∷◌, ok, arith, All, Result-cases, inl, inr}
use inkmail.Limits.{Limits, Check, checks, run_checks, validate, defaults}

abbrev pub InRange : Check → Type 0
InRange c = (c.minimum ≤ c.value) × (c.value ≤ c.maximum)

-- The relations between limits that the last four tests ask for.
pub record Related (limits : Limits) : Type 0 where
  pub source : limits.connections_per_source ≤ limits.connections_global
  pub handshakes : limits.concurrent_handshakes ≤ limits.connections_global
  pub requests : limits.concurrent_requests ≤ limits.connections_global
  pub identity : limits.concurrent_requests_per_identity ≤ limits.concurrent_requests

pub run_checks_sound : (cs : List Check) → run_checks cs ≡ ok tt → All InRange cs
unfolding run_checks
run_checks_sound [] h = tt
run_checks_sound (c ∷ cs) h = ground (arith, run_checks_sound cs)

pub run_checks_complete : (cs : List Check) → All InRange cs → run_checks cs ≡ ok tt
unfolding run_checks
run_checks_complete [] h = refl
run_checks_complete (c ∷ cs) h = ground (arith, run_checks_complete cs)

accepted :
    (limits : Limits) → validate limits ≡ ok tt → All InRange (checks limits) × Related limits
unfolding validate
accepted limits h = elim (Result-cases (run_checks (checks limits))) [
  | inl (u, e) ↦ (run_checks_sound _ e, ground arith)
  | inr (x, e) ↦ absurd (ground arith)
]

abbrev Between : ℕ → ℕ → ℕ → Type 0
Between low value high = (low ≤ value) × (value ≤ high)

-- The range of each limit.
pub record Ranges (limits : Limits) : Type 0 where
  pub connections_per_source : Between 1 limits.connections_per_source 64
  pub connections_global : Between 1 limits.connections_global 512
  pub concurrent_handshakes : Between 1 limits.concurrent_handshakes 256
  pub concurrent_requests : Between 1 limits.concurrent_requests 128
  pub concurrent_requests_per_identity : Between 1 limits.concurrent_requests_per_identity 32
  pub handshake_failures_per_window : Between 1 limits.handshake_failures_per_window 100
  pub handshake_failure_window_seconds : Between 1 limits.handshake_failure_window_seconds 3600
  pub handshake_cooldown_seconds : Between 1 limits.handshake_cooldown_seconds 3600
  pub requests_per_minute : Between 1 limits.requests_per_minute 60000
  pub request_burst : Between 272 limits.request_burst 10000
  pub held_messages_per_user : Between 1 limits.held_messages_per_user 4096
  pub held_bytes_per_user : Between 1 limits.held_bytes_per_user 134217728
  pub held_messages_per_mailbox : Between 1 limits.held_messages_per_mailbox 8192
  pub held_bytes_per_mailbox : Between 1 limits.held_bytes_per_mailbox 536870912
  pub held_messages_global : Between 1 limits.held_messages_global 1000000
  pub held_bytes_global : Between 1 limits.held_bytes_global 8589934592
  pub replay_records_per_user : Between 1 limits.replay_records_per_user 100000
  pub replay_records_global : Between 1 limits.replay_records_global 2000000
  pub routes_per_identity : Between 1 limits.routes_per_identity 1024
  pub mailbox_owners_global : Between 1 limits.mailbox_owners_global 500000
  pub outbox_messages : Between 1 limits.outbox_messages 100000
  pub outbox_bytes : Between 1 limits.outbox_bytes 1073741824
  pub peer_identities_global : Between 1 limits.peer_identities_global 500000
  pub peer_routes_global : Between 1 limits.peer_routes_global 500000
  pub peer_routes_per_identity : Between 1 limits.peer_routes_per_identity 64

ranges : (limits : Limits) → All InRange (checks limits) → Ranges limits
unfolding checks
ranges limits r = record {
  connections_per_source = r.0;
  connections_global = r.1.0;
  concurrent_handshakes = r.1.1.0;
  concurrent_requests = r.1.1.1.0;
  concurrent_requests_per_identity = r.1.1.1.1.0;
  handshake_failures_per_window = r.1.1.1.1.1.0;
  handshake_failure_window_seconds = r.1.1.1.1.1.1.0;
  handshake_cooldown_seconds = r.1.1.1.1.1.1.1.0;
  requests_per_minute = r.1.1.1.1.1.1.1.1.0;
  request_burst = r.1.1.1.1.1.1.1.1.1.0;
  held_messages_per_user = r.1.1.1.1.1.1.1.1.1.1.0;
  held_bytes_per_user = r.1.1.1.1.1.1.1.1.1.1.1.0;
  held_messages_per_mailbox = r.1.1.1.1.1.1.1.1.1.1.1.1.0;
  held_bytes_per_mailbox = r.1.1.1.1.1.1.1.1.1.1.1.1.1.0;
  held_messages_global = r.1.1.1.1.1.1.1.1.1.1.1.1.1.1.0;
  held_bytes_global = r.1.1.1.1.1.1.1.1.1.1.1.1.1.1.1.0;
  replay_records_per_user = r.1.1.1.1.1.1.1.1.1.1.1.1.1.1.1.1.0;
  replay_records_global = r.1.1.1.1.1.1.1.1.1.1.1.1.1.1.1.1.1.0;
  routes_per_identity = r.1.1.1.1.1.1.1.1.1.1.1.1.1.1.1.1.1.1.0;
  mailbox_owners_global = r.1.1.1.1.1.1.1.1.1.1.1.1.1.1.1.1.1.1.1.0;
  outbox_messages = r.1.1.1.1.1.1.1.1.1.1.1.1.1.1.1.1.1.1.1.1.0;
  outbox_bytes = r.1.1.1.1.1.1.1.1.1.1.1.1.1.1.1.1.1.1.1.1.1.0;
  peer_identities_global = r.1.1.1.1.1.1.1.1.1.1.1.1.1.1.1.1.1.1.1.1.1.1.0;
  peer_routes_global = r.1.1.1.1.1.1.1.1.1.1.1.1.1.1.1.1.1.1.1.1.1.1.1.0;
  peer_routes_per_identity = r.1.1.1.1.1.1.1.1.1.1.1.1.1.1.1.1.1.1.1.1.1.1.1.1.0;
}

in_ranges : (limits : Limits) → Ranges limits → All InRange (checks limits)
unfolding checks
in_ranges limits r = (
  r.connections_per_source,
  (
    r.connections_global,
    (
      r.concurrent_handshakes,
      (
        r.concurrent_requests,
        (
          r.concurrent_requests_per_identity,
          (
            r.handshake_failures_per_window,
            (
              r.handshake_failure_window_seconds,
              (
                r.handshake_cooldown_seconds,
                (
                  r.requests_per_minute,
                  (
                    r.request_burst,
                    (
                      r.held_messages_per_user,
                      (
                        r.held_bytes_per_user,
                        (
                          r.held_messages_per_mailbox,
                          (
                            r.held_bytes_per_mailbox,
                            (
                              r.held_messages_global,
                              (
                                r.held_bytes_global,
                                (
                                  r.replay_records_per_user,
                                  (
                                    r.replay_records_global,
                                    (
                                      r.routes_per_identity,
                                      (
                                        r.mailbox_owners_global,
                                        (
                                          r.outbox_messages,
                                          (
                                            r.outbox_bytes,
                                            (
                                              r.peer_identities_global,
                                              (
                                                r.peer_routes_global,
                                                (r.peer_routes_per_identity, tt),
                                              ),
                                            ),
                                          ),
                                        ),
                                      ),
                                    ),
                                  ),
                                ),
                              ),
                            ),
                          ),
                        ),
                      ),
                    ),
                  ),
                ),
              ),
            ),
          ),
        ),
      ),
    ),
  ),
)

-- `Validate` accepts exactly the limits of which each lies in its range, as `Ranges` writes them out, and
-- whose four relations hold.
pub validate_iff : (limits : Limits) → (validate limits ≡ ok tt) ↔ (Ranges limits × Related limits)
unfolding validate
validate_iff limits = (
  λ h. let a = accepted limits h in (ranges limits a.0, a.1),
  λ h. rw (run_checks_complete (checks limits) (in_ranges limits h.0)) (ground arith),
)

-- The defaults pass.
pub validate-defaults : validate defaults ≡ ok tt
unfolding validate run_checks checks defaults
validate-defaults = refl

-- Accepted limits leave every identity a burst of at least 272 requests.
pub burst-validated : (limits : Limits) → validate limits ≡ ok tt → 272 ≤ limits.request_burst
burst-validated limits h = ((validate_iff limits).0 h).0.request_burst.0
