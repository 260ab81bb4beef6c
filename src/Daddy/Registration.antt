-- ===== src/Daddy/Registration.antt =====
-- A route that was registered is the one that is looked up.
use inkmail.Base.{
  ℕ, ◌+◌, ◌≤◌, ◌<◌, ◌≡◌, refl, not, ◌||◌, some, leb, ◌==◌, Bytes, same, length, ok, arith,
  Option-cases, Result-cases, Bool-cases, inl, inr, ap, ◌∙◌, sym,
}
use inkmail.Session.{validate_mailbox_id, authorize_mailbox_id}
use inkmail.Store.Routes.{set_owned_route, get_route_with_expiry}
use inkmail.Store.Routes.Lookup.{registered_route_found}
use inkmail.Daddy.{
  Libraries, Node, RouteRegistration, max_route_lifetime, registered, validate_advertised_address,
  relay,
}
use inkmail.Daddy.Guards.{authorize_mailbox_id_keeps}
use inkmail.Daddy.Handlers.{clamp_expiry, store_route, register_in_session, handle_register_route}

module _ (lib : Libraries) where
  -- A registration that was answered as accepted until a time.
  pub record Routed (r : RouteRegistration) (until now : ℕ) (n t : Node) : Type 0 where
    pub key_size : length n.session.peer ≡ 32
    pub capped : until ≤ now + max_route_lifetime
    pub unexpired : now < until
    pub looked_up :
        (at : ℕ)
        → at < until
        → get_route_with_expiry r.mailbox_id at t.store ≡ ok (r.address, until)

  store_route_effect :
      (r : RouteRegistration) (expires now : ℕ) (n : Node) (until : ℕ)
      → (store_route lib r expires now n).0 ≡ ok (registered until)
      → (until ≡ expires)
        × (set_owned_route lib.sha256 r.mailbox_id r.address expires n.session.peer now n.store
            ≡ ok (store_route lib r expires now n).1.store)
  unfolding store_route
  store_route_effect r expires now n until h =
      elim (Result-cases
        (set_owned_route lib.sha256 r.mailbox_id r.address expires n.session.peer now n.store)) [
          | inr (x, e) ↦ absurd (ground arith)
          | inl (s, e) ↦ (ground arith, ground arith)
        ]

  register_in_session_effect :
      (r : RouteRegistration) (now : ℕ) (n : Node) (until : ℕ)
      → (register_in_session lib r now n).0 ≡ ok (registered until)
      → Routed r until now n (register_in_session lib r now n).1
  unfolding register_in_session clamp_expiry
  register_in_session_effect r now n until h =
      elim (Bool-cases (not (length n.session.peer == 32) || same n.session.peer_namespace relay)) [
        | inl e ↦ absurd (ground arith)
        | inr e ↦ elim (Bool-cases (not (validate_advertised_address lib r.address))) [
          | inl f ↦ absurd (ground arith)
          | inr f ↦ elim (Bool-cases (leb (clamp_expiry lib now r.expires_at) now)) [
            | inl g ↦ absurd (ground arith)
            | inr g ↦
                let expires = clamp_expiry lib now r.expires_at in
                let stored : register_in_session lib r now n ≡ store_route lib r expires now n =
                  rw (e, f, g, register_in_session) refl in
                let (equal, set) =
                  store_route_effect r expires now n until (sym (ap (λ p. p.0) stored) ∙ h) in
                let bounds : (expires ≤ now + max_route_lifetime) × (now < expires) =
                  ground arith in
                rw (stored, equal)
                  (record {
                    key_size = ground arith;
                    capped = bounds.0;
                    unexpired = bounds.1;
                    looked_up =
                        (registered_route_found lib.sha256 r.mailbox_id r.address expires
                          n.session.peer now n.store (store_route lib r expires now n).1.store set);
                  })
          ]
        ]
      ]

  -- A registration is answered as accepted until a time only for a caller with a 32-byte key; the time is in
  -- the future, a day ahead at most, and until then the mailbox's lookup gives the address that was
  -- registered, with that time.
  pub handle_register_route-Routed :
      (body : Bytes) (now : ℕ) (n : Node) (until : ℕ)
      → let h = handle_register_route lib body now n in
        h.0 ≡ ok (registered until)
        → (r : RouteRegistration) × (lib.parse_registration body ≡ some r)
          × Routed r until now n h.1
  unfolding handle_register_route
  handle_register_route-Routed body now n until =
      elim (Option-cases (lib.parse_registration body)) [
        | inl e ↦ rw (e, handle_register_route) (λ q. absurd (ground arith))
        | inr (r, e) ↦ elim (Bool-cases (validate_mailbox_id r.mailbox_id)) [
          | inr bad ↦ rw (e, bad, handle_register_route) (λ q. absurd (ground arith))
          | inl good ↦ elim (Result-cases (authorize_mailbox_id r.mailbox_id n.session)) [
            | inr (x, denied) ↦
                rw (e, good, denied, handle_register_route) (λ q. absurd (ground arith))
            | inl (s, granted) ↦
                rw (e, good, granted, handle_register_route)
                  (λ q.
                    let routed =
                      register_in_session_effect r now (record n { session = s }) until q in
                    let (peer, anonymous, fetched) =
                      authorize_mailbox_id_keeps lib r.mailbox_id n.session s granted in
                    (
                      r,
                      refl,
                      record {
                        key_size = ap length (sym peer) ∙ routed.key_size;
                        capped = routed.capped;
                        unexpired = routed.unexpired;
                        looked_up = routed.looked_up;
                      },
                    ))
          ]
        ]
      ]
