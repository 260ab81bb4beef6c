-- ===== src/Ghost/Hops.antt =====
-- The hop count of internal/network/ghost.go bounds how far an envelope is passed on.
use inkmail.Base.{
  ℕ, zero, suc, ◌+◌, ◌≤◌, ◌≡◌, ◌⊎◌, subst, refl, sym, Bool, false, not, ◌||◌, List, [], ◌∷◌, ◌++◌,
  some, Bytes, All, length, same, arith, Bool-cases, Result-cases, inl, inr, ap, ok, ◌==◌,
}
use inkmail.Base.Int.{ℤ, pos, negsuc}
use inkmail.Identity.{Identity}
use inkmail.Session.{Session}
use inkmail.Daddy.{Libraries}
use inkmail.Mailbox
use inkmail.Mailbox.{MailboxEnvelope}
use inkmail.Meta.{get_or_create_mailbox_id}
use inkmail.Outgoing.{is_blank}
use inkmail.Receiving.{Site, World, receive_mailbox_envelope}
use inkmail.Store.Routes.{get_route_with_expiry}
use inkmail.Ghost.{
  GhostForward, Attempt, minus_one, out_of_hops, next_forward, try_siblings, past_route,
  forward_ghost_envelope, forward_or_receive, handle_ghost_forward,
}

-- What is passed on: the same envelope, with one hop less.
abbrev pub PassedOn : GhostForward → Attempt → Type 0
PassedOn b a = ((a.1).envelope ≡ b.envelope) × ((a.1).hops_left ≡ minus_one b.hops_left)

module _ (lib : Libraries) (forwards : Bytes → GhostForward → Bool) (siblings : List Bytes) where
  try_siblings-PassedOn :
      (as_ : List Bytes) (b : GhostForward)
      → All (PassedOn b) (try_siblings lib forwards siblings as_ b).0
  unfolding try_siblings
  try_siblings-PassedOn [] b = tt
  try_siblings-PassedOn (a ∷ as_) b = elim (Bool-cases (is_blank a)) [
    | inl e ↦ rw (e, try_siblings) (try_siblings-PassedOn as_ b)
    | inr e ↦
        elim (Bool-cases (forwards a (next_forward lib forwards siblings b.next_mailbox_id b))) [
          | inl f ↦ rw (e, f, try_siblings) ((refl, refl), tt)
          | inr f ↦ rw (e, f, try_siblings) ((refl, refl), try_siblings-PassedOn as_ b)
        ]
  ]

  All-join {ℓ} :
      (P : Attempt → Type ℓ) (xs ys : List Attempt) → All P xs → All P ys → All P (xs ++ ys)
  All-join P [] ys h k = k
  All-join P (x ∷ xs) ys h k = (h.0, All-join P xs ys h.1 k)

  forward_ghost_envelope-PassedOn :
      (b : GhostForward) (submitter : Bytes) (now : ℕ) (s : Site)
      → All (PassedOn b) (forward_ghost_envelope lib forwards siblings b submitter now s).0
  unfolding forward_ghost_envelope past_route
  forward_ghost_envelope-PassedOn b submitter now s =
      elim (Result-cases (get_route_with_expiry b.envelope.mailbox_id now s.store)) [
        | inl ((route, expiry), e) ↦
            elim (Bool-cases
              (forwards route (next_forward lib forwards siblings b.envelope.mailbox_id b))) [
                | inl f ↦ rw (e, f, forward_ghost_envelope) ((refl, refl), tt)
                | inr f ↦
                    rw (e, f, forward_ghost_envelope)
                      ((refl, refl), try_siblings-PassedOn siblings b)
              ]
        | inr (x, e) ↦ rw (e, forward_ghost_envelope) (try_siblings-PassedOn siblings b)
      ]

  -- What lets an envelope be passed on: it is well formed, its submitter is a named identity, and hops
  -- are left.
  pub record Allowed (session : Session) (b : GhostForward) : Type 0 where
    pub valid : Mailbox.validate b.envelope ≡ ok tt
    pub identified : length session.peer ≡ 32
    pub named : session.peer_anonymous ≡ false
    pub hops : out_of_hops b.hops_left ≡ false

  forward_or_receive-PassedOn :
      (w : World) (local : Identity) (b : GhostForward) (submitter : Bytes) (now : ℕ) (s : Site)
      → All (PassedOn b) (forward_or_receive lib forwards siblings w local b submitter now s).0
  unfolding forward_or_receive
  forward_or_receive-PassedOn w local b submitter now s =
      let (found, meta) = get_or_create_mailbox_id w.draws.mailbox s.meta in
      let s' : Site = record s { meta = meta } in
      elim (Result-cases found) [
        | inl (mailbox, e) ↦ elim (Bool-cases (same b.envelope.mailbox_id mailbox)) [
          | inl mine ↦ elim (Result-cases (receive_mailbox_envelope w local b.envelope s').0) [
            | inl (u, r) ↦ rw (e, mine, r, forward_or_receive) tt
            | inr (x, r) ↦ rw (e, mine, r, forward_or_receive) tt
          ]
          | inr other ↦
              rw (e, other, forward_or_receive) (forward_ghost_envelope-PassedOn b submitter now s')
        ]
        | inr (x, e) ↦ rw (e, forward_or_receive) tt
      ]

  All-with {ℓ κ} :
      (P : Attempt → Type ℓ) {Q : Type κ} (xs : List Attempt) → Q → All P xs → All (λ a. P a × Q) xs
  All-with P [] q h = tt
  All-with P (x ∷ xs) q h = ((h.0, q), All-with P xs q h.1)

  -- Whatever GHOST_FORWARD passes on is the envelope that came, with one hop less, and it is passed on
  -- only if the envelope is well formed, its submitter is a named identity with a 32-byte key, and
  -- between 0 and 5 hops were left.
  pub handle_ghost_forward-PassedOn :
      (w : World) (local : Identity) (session : Session) (b : GhostForward) (now : ℕ) (s : Site)
      → All
          (λ a. PassedOn b a × Allowed session b)
          (handle_ghost_forward lib forwards siblings w local session (some b) now s).0
  unfolding handle_ghost_forward
  handle_ghost_forward-PassedOn w local session b now s =
      elim (Result-cases (Mailbox.validate b.envelope)) [
        | inr (x, e) ↦ rw (e, handle_ghost_forward) tt
        | inl (u, e) ↦
            elim (Bool-cases (not (length session.peer == 32) || session.peer_anonymous)) [
              | inl p ↦ rw (e, p, handle_ghost_forward) tt
              | inr p ↦ elim (Bool-cases (out_of_hops b.hops_left)) [
                | inl h ↦ rw (e, p, h, handle_ghost_forward) tt
                | inr h ↦
                    let allowed : Allowed session b = record {
                      valid = e;
                      identified = ground arith;
                      named = ground arith;
                      hops = h;
                    } in
                    rw (e, p, h, handle_ghost_forward)
                      (All-with (PassedOn b)
                        (forward_or_receive lib forwards siblings w local b session.peer now s).0
                        allowed (forward_or_receive-PassedOn w local b session.peer now s))
              ]
            ]
      ]

-- One of the attempts.
abbrev pub Among : Attempt → List Attempt → Type 0
Among a [] = ⊥
Among a (x ∷ xs) = (a ≡ x) ⊎ Among a xs

All-Among {ℓ} :
    (P : Attempt → Type ℓ) (a : Attempt) (xs : List Attempt) → All P xs → Among a xs → P a
All-Among P a [] h m = absurd m
All-Among P a (x ∷ xs) h (inl e) = subst P (sym e) h.0
All-Among P a (x ∷ xs) h (inr m) = All-Among P a xs h.1 m

-- An envelope that is passed on this many times, by nodes with any libraries, relays, stores, sessions
-- and clocks.
pub data Passed : ℕ → GhostForward → Type 1 where
  kept : (b : GhostForward) → Passed zero b
  passed :
      (n : ℕ) (b next : GhostForward) (address : Bytes) (lib : Libraries)
      (forwards : Bytes → GhostForward → Bool) (siblings : List Bytes) (w : World)
      (local : Identity) (session : Session) (now : ℕ) (s : Site)
      → Among
          (address, next)
          (handle_ghost_forward lib forwards siblings w local session (some b) now s).0
      → Passed n next
      → Passed (suc n) b

-- How often an envelope with such a count can be passed on.
abbrev budget : ℤ → ℕ
budget (pos n) = suc n
budget (negsuc n) = zero

budget-minus_one :
    (h : ℤ) → out_of_hops h ≡ false → (budget (minus_one h) + 1 ≡ budget h) × (budget h ≤ 6)
unfolding out_of_hops
budget-minus_one (pos zero) e = (omega arith, omega arith)
budget-minus_one (pos (suc n)) e = (omega arith, ground arith)
budget-minus_one (negsuc n) e = absurd (ground arith)

Passed-within : (n : ℕ) (b : GhostForward) → Passed n b → n ≤ budget b.hops_left
Passed-within n b (kept _) = omega arith
Passed-within n b (passed m _ next address lib forwards siblings w local session now s one rest) =
    let (sent, allowed) =
      All-Among (λ a. PassedOn b a × Allowed lib forwards siblings session b) (address, next) _
        (handle_ghost_forward-PassedOn lib forwards siblings w local session b now s) one in
    let less = budget-minus_one b.hops_left allowed.hops in
    let fewer = ap budget sent.1 in
    let later = Passed-within m next rest in omega (arith, less.0, fewer)

-- Whatever the nodes and their relays are, no envelope is passed on more than six times, so that
-- forwarding ends even among relays that name one another.
pub Passed-le : (n : ℕ) (b : GhostForward) → Passed n b → n ≤ 6
Passed-le n b (kept _) = omega arith
Passed-le n b (passed m _ next address lib forwards siblings w local session now s one rest) =
    let (sent, allowed) =
      All-Among (λ a. PassedOn b a × Allowed lib forwards siblings session b) (address, next) _
        (handle_ghost_forward-PassedOn lib forwards siblings w local session b now s) one in
    let less = budget-minus_one b.hops_left allowed.hops in
    let within =
      Passed-within (suc m) b
        (passed m b next address lib forwards siblings w local session now s one rest) in
    omega (arith, less.1)
