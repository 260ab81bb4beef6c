-- ===== src/Handshake/Transcript.antt =====
-- What the transcript of a hello fixes, transcriptBytes of internal/network/handshake.go: its parts are joined
-- by bars, and only the namespace may hold a bar.
use inkmail.Base.{
  ℕ, ◌≡◌, ◌≢◌, refl, sym, ap, ◌∙◌, Bool, true, false, [], ◌∷◌, ◌++◌, Bytes, ◌==◌, All, arith,
  append_assoc,
}
use inkmail.Handshake.{
  HandshakeHello, Primitives, transcript_bytes, transcript_head, bar, bool_text, handshake_label,
}

-- The text has no bar.
abbrev pub NoBar : Bytes → Type 0
NoBar = All (λ c. (c == b'|') ≡ false)

tail : Bytes → Bytes
tail [] = []
tail (c ∷ s) = s

head_or : Bytes → ℕ
head_or [] = 0
head_or (c ∷ s) = c

tails : {c d : ℕ} {a b : Bytes} → c ∷ a ≡ d ∷ b → a ≡ b
unfolding tail
tails e = ap tail e

heads : {c d : ℕ} {a b : Bytes} → c ∷ a ≡ d ∷ b → c ≡ d
unfolding head_or
heads e = ap head_or e

NoBar-inside : (x a y : Bytes) → NoBar x → x ≢ a ++ (bar ++ y)
NoBar-inside [] [] y h e = absurd (ground arith)
NoBar-inside [] (c ∷ a) y h e = absurd (ground arith)
NoBar-inside (d ∷ x) [] y h e = absurd (ground (arith, h.0, heads e))
NoBar-inside (d ∷ x) (c ∷ a) y h e = NoBar-inside x a y h.1 (tails e)

-- The last bar splits a text in one way.
split_last :
    (a b x y : Bytes) → NoBar x → NoBar y → a ++ (bar ++ x) ≡ b ++ (bar ++ y) → (a ≡ b) × (x ≡ y)
split_last [] [] x y h k e = (refl, tails e)
split_last [] (c ∷ b) x y h k e = absurd (NoBar-inside x b y h (tails e))
split_last (c ∷ a) [] x y h k e = absurd (NoBar-inside y a x k (sym (tails e)))
split_last (c ∷ a) (d ∷ b) x y h k e =
    let (p, q) = split_last a b x y h k (tails e) in (rw (heads e, p) refl, q)

append-injective : (a x y : Bytes) → a ++ x ≡ a ++ y → x ≡ y
append-injective [] x y e = e
append-injective (c ∷ a) x y e = append-injective a x y (tails e)

-- The parts that follow the head, joined from the left.
abbrev left_joined : Bytes → Bytes → Bytes → Bytes → Bytes → Bytes
left_joined a x y z t = (((a ++ (bar ++ x)) ++ (bar ++ y)) ++ (bar ++ z)) ++ (bar ++ t)

left_joined-parts :
    (a b x x' y y' z z' t t' : Bytes)
    → NoBar x
    → NoBar x'
    → NoBar y
    → NoBar y'
    → NoBar z
    → NoBar z'
    → NoBar t
    → NoBar t'
    → left_joined a x y z t ≡ left_joined b x' y' z' t'
    → (a ≡ b) × (x ≡ x') × (y ≡ y') × (z ≡ z') × (t ≡ t')
left_joined-parts a b x x' y y' z z' t t' nx nx' ny ny' nz nz' nt nt' e =
    let (e3, et) = split_last _ _ t t' nt nt' e in
    let (e2, ez) = split_last _ _ z z' nz nz' e3 in
    let (e1, ey) = split_last _ _ y y' ny ny' e2 in
    let (ea, ex) = split_last _ _ x x' nx nx' e1 in (ea, ex, ey, ez, et)

bool_text-apart :
    (p q : Bool) (a b : Bytes)
    → bool_text p ++ (bar ++ a) ≡ bool_text q ++ (bar ++ b)
    → (p ≡ q) × (a ≡ b)
bool_text-apart true true a b e = (refl, tails (tails (tails (tails (tails e)))))
bool_text-apart false false a b e = (refl, tails (tails (tails (tails (tails (tails e))))))
bool_text-apart true false a b e = absurd (ground (arith, heads e))
bool_text-apart false true a b e = absurd (ground (arith, heads e))

-- The fields that a transcript fixes.
pub record SameTerms (h k : HandshakeHello) : Type 0 where
  pub same_anonymous : h.anonymous ≡ k.anonymous
  pub same_namespace : h.namespace ≡ k.namespace
  pub same_public_key : h.public_key ≡ k.public_key
  pub same_encryption_key : h.encryption_key ≡ k.encryption_key
  pub same_ephemeral_key : h.ephemeral_key ≡ k.ephemeral_key
  pub same_timestamp : h.timestamp ≡ k.timestamp

-- The keys of a hello are hexadecimal.
pub record Readable (h : HandshakeHello) : Type 0 where
  pub public_key_apart : NoBar h.public_key
  pub encryption_key_apart : NoBar h.encryption_key
  pub ephemeral_key_apart : NoBar h.ephemeral_key

module _ (prim : Primitives) (decimal_apart : (n : ℕ) → NoBar (prim.decimal n))
    (decimal-injective : (m n : ℕ) → prim.decimal m ≡ prim.decimal n → m ≡ n) where
  transcript_bytes-left :
      (h : HandshakeHello)
      → transcript_bytes prim h
        ≡ left_joined
            (transcript_head prim h.version h.anonymous ++ h.namespace)
            h.public_key
            h.encryption_key
            h.ephemeral_key
            (prim.decimal h.timestamp)
  unfolding transcript_bytes
  transcript_bytes-left h = simp (append_assoc)

  transcript_head-apart :
      (v : ℕ) (p q : Bool) (a b : Bytes)
      → transcript_head prim v p ++ a ≡ transcript_head prim v q ++ b
      → (p ≡ q) × (a ≡ b)
  transcript_head-apart v p q a b e =
      let before = handshake_label ++ (bar ++ (prim.decimal v ++ bar)) in
      let shape : (r : Bool) (c : Bytes)
          → transcript_head prim v r ++ c ≡ before ++ (bool_text r ++ (bar ++ c)) =
        λ r c. simp (append_assoc) in
      bool_text-apart p q a b (append-injective before _ _ (sym (shape p a) ∙ e ∙ shape q b))

  pub transcript_bytes-SameTerms :
      (h k : HandshakeHello)
      → Readable h
      → Readable k
      → h.version ≡ k.version
      → transcript_bytes prim h ≡ transcript_bytes prim k
      → SameTerms h k
  transcript_bytes-SameTerms h k r s v e =
      let (front, key, encryption, ephemeral, time) =
        left_joined-parts (transcript_head prim h.version h.anonymous ++ h.namespace)
          (transcript_head prim k.version k.anonymous ++ k.namespace) h.public_key k.public_key
          h.encryption_key k.encryption_key h.ephemeral_key k.ephemeral_key
          (prim.decimal h.timestamp) (prim.decimal k.timestamp) r.public_key_apart
          s.public_key_apart r.encryption_key_apart s.encryption_key_apart r.ephemeral_key_apart
          s.ephemeral_key_apart (decimal_apart h.timestamp) (decimal_apart k.timestamp)
          (sym (transcript_bytes-left h) ∙ e ∙ transcript_bytes-left k) in
      let (anonymous, named) =
        transcript_head-apart k.version h.anonymous k.anonymous h.namespace k.namespace
          (rw v at front) in
      record {
        same_anonymous = anonymous;
        same_namespace = named;
        same_public_key = key;
        same_encryption_key = encryption;
        same_ephemeral_key = ephemeral;
        same_timestamp = decimal-injective h.timestamp k.timestamp time;
      }
