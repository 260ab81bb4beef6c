-- ===== src/Handshake/Agreement.antt =====
-- What the checks on a hello give, and that the two ends of a handshake agree.
use inkmail.Base.{
  ℕ, ◌≡◌, refl, sym, ◌∙◌, Bool, true, false, not, Option, none, some, ◌==◌, Bytes, length, arith,
  Result, ok, ◌>>=◌, bind-ok, or_err-ok, reject_if-ok, map_err-ok, Bool-cases, inl, inr,
  if◌then◌else◌,
}
use inkmail.Hex.{decode_hex}
use inkmail.Hex.Laws.{decode_hex_no_bar}
use inkmail.Identity.{validate_namespace}
use inkmail.Session.{Session}
use inkmail.Handshake.{
  HandshakeHello, Primitives, HandshakeError, unsupported_version, invalid_namespace,
  invalid_peer_key, invalid_encryption_key, invalid_ephemeral_key, malformed_signature,
  signature_failed, outside_window, agreement_failed, Verified, protocol_version, outside_skew,
  sized, transcript_bytes, verify_hello, install_session_keys, finish_handshake, direction_key,
  session_label_initiator, session_label_responder,
}
use inkmail.Handshake.Transcript.{NoBar, SameTerms, Readable, transcript_bytes-SameTerms}

-- What an accepted hello has.
pub record Checked (prim : Primitives) (h : HandshakeHello) (now : ℕ) (v : Verified) : Type 0 where
  pub current : h.version ≡ protocol_version
  pub named : validate_namespace prim.unicode h.namespace ≡ ok tt
  pub key : decode_hex h.public_key ≡ some v.peer_key
  pub key_size : length v.peer_key ≡ 32
  pub encryption : decode_hex h.encryption_key ≡ some v.encryption_key
  pub encryption_size : length v.encryption_key ≡ 32
  pub ephemeral : decode_hex h.ephemeral_key ≡ some v.ephemeral
  pub ephemeral_size : length v.ephemeral ≡ 32
  pub signature_bytes : Bytes
  pub signature : decode_hex h.signature ≡ some signature_bytes
  pub signed : prim.verify v.peer_key (transcript_bytes prim h) signature_bytes ≡ true
  pub fresh : outside_skew now h.timestamp ≡ false

sized-ok {ℓ} :
    {B : Type ℓ} (n : ℕ) (o : Option Bytes) (e : HandshakeError)
    (f : Bytes → Result HandshakeError B) (b : B)
    → (sized n o e >>= f) ≡ ok b
    → (k : Bytes) × (o ≡ some k) × (length k ≡ n) × (f k ≡ ok b)
sized-ok n none e f b h = absurd (ground arith)
sized-ok n (some j) e f b h = elim (Bool-cases (length j == n)) [
  | inl same_size ↦ (j, refl, ground arith, rw same_size at h)
  | inr other ↦ absurd (ground arith)
]

module _ (prim : Primitives) where
  verify_hello-Checked :
      (h : HandshakeHello) (now : ℕ) (v : Verified)
      → verify_hello prim h now ≡ ok v
      → Checked prim h now v
  unfolding verify_hello
  verify_hello-Checked h now v e =
      let (version, e1) =
        reject_if-ok (not (h.version == protocol_version)) unsupported_version _ v e in
      let (u, named, e2) =
        map_err-ok (λ x. invalid_namespace) (validate_namespace prim.unicode h.namespace) _ v e1 in
      let (key, k, ks, e3) = sized-ok 32 (decode_hex h.public_key) invalid_peer_key _ v e2 in
      let (encryption, n, ns, e4) =
        sized-ok 32 (decode_hex h.encryption_key) invalid_encryption_key _ v e3 in
      let (ephemeral, p, ps, e5) =
        sized-ok 32 (decode_hex h.ephemeral_key) invalid_ephemeral_key _ v e4 in
      let (sig, s, e6) = or_err-ok (decode_hex h.signature) malformed_signature _ v e5 in
      let (signed, e7) =
        reject_if-ok (not (prim.verify key (transcript_bytes prim h) sig)) signature_failed _ v
          e6 in
      let (fresh, e8) = reject_if-ok (outside_skew now h.timestamp) outside_window _ v e7 in
      let eq : v ≡ record { peer_key = key; encryption_key = encryption; ephemeral = ephemeral } =
        ground arith in
      rw eq (record {
        current = ground arith;
        named = named;
        key = k;
        key_size = ks;
        encryption = n;
        encryption_size = ns;
        ephemeral = p;
        ephemeral_size = ps;
        signature_bytes = sig;
        signature = s;
        signed = ground arith;
        fresh = fresh;
      })

  Checked-Readable :
      (h : HandshakeHello) (now : ℕ) (v : Verified) → Checked prim h now v → Readable h
  Checked-Readable h now v c = record {
    public_key_apart = decode_hex_no_bar h.public_key v.peer_key c.key;
    encryption_key_apart = decode_hex_no_bar h.encryption_key v.encryption_key c.encryption;
    ephemeral_key_apart = decode_hex_no_bar h.ephemeral_key v.ephemeral c.ephemeral;
  }

  -- The session that a handshake leaves: the keys of both directions from the agreed secret, counters at 0, and
  -- the peer's identity from its hello.
  abbrev pub agreed_session :
      Session → Bool → Bytes → Verified → HandshakeHello → HandshakeHello → Session
  agreed_session s initiator shared v local_hello peer_hello =
      let first = if initiator then local_hello else peer_hello in
      let second = if initiator then peer_hello else local_hello in
      let initiator_key = direction_key prim shared first second session_label_initiator in
      let responder_key = direction_key prim shared first second session_label_responder in
      record s {
        send_aead = some (if initiator then initiator_key else responder_key);
        recv_aead = some (if initiator then responder_key else initiator_key);
        send_counter = 0;
        recv_counter = 0;
        peer = v.peer_key;
        peer_namespace = peer_hello.namespace;
        peer_anonymous = peer_hello.anonymous;
        peer_encryption_key = v.encryption_key;
      }

  pub record Finished (s s' : Session) (initiator : Bool) (ephemeral : Bytes)
      (local_hello peer_hello : HandshakeHello) (now : ℕ) : Type 0 where
    pub verified : Verified
    pub checked : Checked prim peer_hello now verified
    pub shared : Bytes
    pub agreed : prim.ecdh ephemeral verified.ephemeral ≡ some shared
    pub session : s' ≡ agreed_session s initiator shared verified local_hello peer_hello

  -- If a handshake finishes, the other end's hello passed every check (the version, the namespace, three
  -- 32-byte keys, the signature over the transcript under the key that becomes the session's peer, and the test
  -- on the time), the key exchange succeeded, and the session has the peer's identity from that hello, the two
  -- directions' keys from the shared secret and both hellos, counters at 0, and is otherwise as it was.
  pub finish_handshake-Finished :
      (s s' : Session) (initiator : Bool) (ephemeral : Bytes)
      (local_hello peer_hello : HandshakeHello) (now : ℕ)
      → finish_handshake prim s initiator ephemeral local_hello peer_hello now ≡ ok s'
      → Finished s s' initiator ephemeral local_hello peer_hello now
  unfolding finish_handshake install_session_keys
  finish_handshake-Finished s s' initiator ephemeral local_hello peer_hello now h =
      let (v, verified, h1) = bind-ok (verify_hello prim peer_hello now) _ s' h in
      let (installed, done, h2) =
        bind-ok
          (install_session_keys prim s initiator ephemeral v.ephemeral
            (if initiator then local_hello else peer_hello)
            (if initiator then peer_hello else local_hello))
          _ s' h1 in
      let (shared, agreed, h3) =
        or_err-ok (prim.ecdh ephemeral v.ephemeral) agreement_failed _ installed done in
      record {
        verified = v;
        checked = verify_hello-Checked peer_hello now v verified;
        shared = shared;
        agreed = agreed;
        session = cc;
      }

  -- Two accepted hellos with one transcript agree in every field but the signature, when decimal numbers are
  -- unambiguous and have no bar: a signature fixes who says what.
  pub verify_hello-SameTerms :
      (decimal_apart : (n : ℕ) → NoBar (prim.decimal n))
      (decimal-injective : (m n : ℕ) → prim.decimal m ≡ prim.decimal n → m ≡ n)
      (h k : HandshakeHello) (now later : ℕ) (v w : Verified)
      → verify_hello prim h now ≡ ok v
      → verify_hello prim k later ≡ ok w
      → transcript_bytes prim h ≡ transcript_bytes prim k
      → SameTerms h k
  verify_hello-SameTerms decimal_apart decimal-injective h k now later v w p q e =
      let c = verify_hello-Checked h now v p in
      let d = verify_hello-Checked k later w q in
      transcript_bytes-SameTerms prim decimal_apart decimal-injective h k
        (Checked-Readable h now v c) (Checked-Readable k later w d) (c.current ∙ sym d.current) e
