-- ===== src/Serving/InFlight.antt =====
-- The slots of the requests in flight, over a whole session: however the exchanges end, each gives back
-- the slot it took.
use inkmail.Base.{
  ℕ, zero, suc, ◌≡◌, true, List, Option, none, some, if◌then◌else◌, arith, refl, ◌∙◌, inl, inr,
  Bool-cases, Option-cases, Bytes,
}
use inkmail.Limits.{Limits}
use inkmail.Limiter.Requests as Requests
use inkmail.Limiter.Requests.{named}
use inkmail.Limiter.Slots.{Slots, held, take_slot, drop_slot}
use inkmail.Limiter.Slots.Bounds.{held-take_slot, held-drop_slot}
use inkmail.Wire.Channel.{Message}
use inkmail.Serving.{
  Serving, Server, Event, request, closed, unreadable, handle, charge, charged_keys,
  dispatch_request, exchange, guarded_exchange, peer_fingerprint, head_event, tail_events, serve,
  serve_session, max_session_requests,
}

-- Two states of the counters that no caller can tell apart.
pub record SameCounts (s t : Slots) : Type 0 where
  pub per_key : (key : Bytes) → held key t ≡ held key s
  pub in_all : t.total ≡ s.total

release-acquire :
    (limits : Limits) (key : Bytes) (s : Slots)
    → (Requests.acquire limits key s).1 ≡ true
    → SameCounts s (Requests.release key (Requests.acquire limits key s).0)
unfolding Requests.acquire Requests.release
release-acquire limits key s h = record {
  per_key = λ other. omega (
    arith,
    held-drop_slot other (named key)
        (take_slot limits.concurrent_requests limits.concurrent_requests_per_identity (named key)
          s).0,
    held-take_slot limits.concurrent_requests limits.concurrent_requests_per_identity other
        (named key) s h,
  );
  in_all = unfold take_slot drop_slot in ground arith;
}

same_counts : (s : Slots) → SameCounts s s
same_counts s = record { per_key = λ key. refl; in_all = refl }

chain : {s t u : Slots} → SameCounts s t → SameCounts t u → SameCounts s u
chain p q = record { per_key = λ k. q.per_key k ∙ p.per_key k; in_all = q.in_all ∙ p.in_all }

module _ (env : Serving) where
  handle-in_flight :
      (r : Message) (clock : ℕ) (v : Server) → (handle env r clock v).1.in_flight ≡ v.in_flight
  unfolding handle
  handle-in_flight r clock v = ground arith

  dispatch_request-in_flight :
      (r : Message) (clock : ℕ) (v : Server)
      → (dispatch_request env r clock v).1.in_flight ≡ v.in_flight
  unfolding dispatch_request
  dispatch_request-in_flight r clock v = ground (
    arith,
    handle-in_flight r clock
        (record v { buckets = (charge env clock (charged_keys env r v.session) v.buckets).0 }),
  )

  exchange-in_flight :
      (e : Option Event) (v : Server) → (exchange env e v).1.in_flight ≡ v.in_flight
  unfolding exchange
  exchange-in_flight none v = refl
  exchange-in_flight (some closed) v = refl
  exchange-in_flight (some unreadable) v = refl
  exchange-in_flight (some (request clock r)) v = dispatch_request-in_flight r clock v

  -- One exchange, whatever comes of it.
  guarded_exchange-SameCounts :
      (e : Option Event) (v : Server)
      → SameCounts v.in_flight (guarded_exchange env e v).1.in_flight
  unfolding guarded_exchange
  guarded_exchange-SameCounts e v =
      let key = peer_fingerprint v.session in
      let taken = (Requests.acquire env.limits key v.in_flight).0 in
      let kept = exchange-in_flight e (record v { in_flight = taken }) in
      elim (Bool-cases (Requests.acquire env.limits key v.in_flight).1) [
        | inl granted ↦
            rw (granted, kept, if◌then◌else◌) (release-acquire env.limits key v.in_flight granted)
        | inr refused ↦ rw (refused, if◌then◌else◌) (same_counts v.in_flight)
      ]

  serve-SameCounts :
      (n : ℕ) (es : List Event) (v : Server) → SameCounts v.in_flight (serve env n es v).1.in_flight
  unfolding serve
  serve-SameCounts zero es v = record { per_key = λ k. refl; in_all = refl }
  serve-SameCounts (suc n) es v =
      let one = guarded_exchange-SameCounts (head_event es) v in
      let t = (guarded_exchange env (head_event es) v).1 in
      elim (Option-cases (guarded_exchange env (head_event es) v).0) [
        | inl e ↦ rw (e, serve) (chain one (serve-SameCounts n (tail_events es) t))
        | inr (x, e) ↦ rw (e, serve) one
      ]

  -- However a session goes, whatever requests arrive and with whatever error it ends, every identity and
  -- the process have as many requests in flight after it as before.
  pub serve_session-SameCounts :
      (es : List Event) (v : Server) → SameCounts v.in_flight (serve_session env es v).1.in_flight
  unfolding serve_session
  serve_session-SameCounts es v = serve-SameCounts max_session_requests es v
