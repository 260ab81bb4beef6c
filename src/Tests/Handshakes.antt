-- ===== src/Tests/Handshakes.antt =====
-- The handshake at concrete inputs. In the tests every public key and every signature is a row of equal
-- bytes, a number is printed as that many digits, and the exchange always gives one secret.
use inkmail.Base.{
  ℕ, zero, suc, ◌+◌, ◌<◌, ◌≡◌, refl, true, false, some, Bytes, codes, ok, arith, length, same,
  contains, has_prefix, ltb, ap,
}
use inkmail.Identity.{Unicode, Identity, validate_namespace, any_space_or_control}
use inkmail.Session.{Session}
use inkmail.Handshake.{
  Primitives, HandshakeHello, new_hello, verify_hello, finish_handshake, outside_skew,
}
use inkmail.Handshake.Agreement.{verify_hello-SameTerms}
use inkmail.Handshake.Transcript.{SameTerms, NoBar}
use inkmail.Handshake.BothEnds.{
  Sound, Exchange, BothLinked, verified_keys, finish_handshake-BothLinked, verify_hello-far_ahead,
}
use inkmail.Tests.Frames.{plain_aead, session}
use inkmail.Tests.Envelopes.{bytes_of_size, length-bytes_of_size, sized-IsBytes}

abbrev pub unicode : Unicode
unicode = record { runes = λ b. b; is_space = λ c. false; is_control = λ c. ltb c 32 }

abbrev prim : Primitives
prim = record {
  unicode = unicode;
  decimal = bytes_of_size;
  sha256 = λ b. b;
  x25519_public = λ k. bytes_of_size 32;
  ecdh = λ a b. some (codes "secret");
  sign = λ k m. bytes_of_size 32;
  verify = λ k m s. true;
  hkdf = λ secret salt info. info;
}

exchange : Exchange prim
exchange = record {
  public_bytes = λ k. sized-IsBytes;
  public_size = λ k. length-bytes_of_size 32;
  agree = λ a b. refl;
}

abbrev pub identity : Bytes → Identity
identity name = record {
  namespace = name;
  public_key = bytes_of_size 32;
  private_key = bytes_of_size 64;
  anonymous = false;
  encryption_public_key = bytes_of_size 32;
  encryption_private_key = bytes_of_size 32;
}

pub alice_named : validate_namespace unicode (codes "alice") ≡ ok tt
unfolding validate_namespace any_space_or_control same contains has_prefix
alice_named = refl

pub bob_named : validate_namespace unicode (codes "bob") ≡ ok tt
unfolding validate_namespace any_space_or_control same contains has_prefix
bob_named = refl

sound : (name : Bytes) → validate_namespace unicode name ≡ ok tt → Sound prim (identity name)
sound name named = record {
  named = named;
  key_bytes = sized-IsBytes;
  key_size = length-bytes_of_size 32;
  encryption_bytes = sized-IsBytes;
  encryption_size = length-bytes_of_size 32;
  signature_bytes = λ m. sized-IsBytes;
  signs = λ m. refl;
}

close : outside_skew 1700000000000000000 1700000300 ≡ false
unfolding outside_skew
close = refl

finish_handshake-BothLinked_example :
    let hi = new_hello prim (identity (codes "alice")) (codes "a") 1700000300 in
    let hr = new_hello prim (identity (codes "bob")) (codes "b") 1700000300 in
    (i : Session) × (r : Session) × (finish_handshake prim session true
        (codes "a")
        hi
        hr
        1700000000000000000
      ≡ ok i)
    × (finish_handshake prim session false (codes "b") hr hi 1700000000000000000 ≡ ok r)
    × (i.peer ≡ bytes_of_size 32)
    × (r.peer ≡ bytes_of_size 32)
    × BothLinked prim exchange plain_aead i r
finish_handshake-BothLinked_example =
    finish_handshake-BothLinked prim exchange plain_aead session session (identity (codes "alice"))
      (identity (codes "bob")) (codes "a") (codes "b") 1700000300 1700000300 1700000000000000000
      1700000000000000000 (codes "secret") (sound (codes "alice") alice_named)
      (sound (codes "bob") bob_named) close close refl

verify_hello-far_ahead_example :
    verify_hello prim
      (new_hello prim (identity (codes "alice")) (codes "a") 20000000000)
      1700000000000000000
    ≡ ok (verified_keys prim exchange (identity (codes "alice")) (codes "a"))
verify_hello-far_ahead_example =
    verify_hello-far_ahead prim exchange (identity (codes "alice")) (codes "a") 20000000000
      1700000000000000000 (sound (codes "alice") alice_named) (omega arith) (omega arith)

digits_apart : (n : ℕ) → NoBar (bytes_of_size n)
unfolding bytes_of_size
digits_apart zero = tt
digits_apart (suc n) = (refl, digits_apart n)

digits-injective : (m n : ℕ) → bytes_of_size m ≡ bytes_of_size n → m ≡ n
digits-injective m n e = omega (arith, length-bytes_of_size m, length-bytes_of_size n, ap length e)

abbrev hello : HandshakeHello
hello = new_hello prim (identity (codes "alice")) (codes "a") 20000000000

seen :
    (now : ℕ)
    → now + 9223372036854775807 < 20000000000000000000
    → verify_hello prim hello now
      ≡ ok (verified_keys prim exchange (identity (codes "alice")) (codes "a"))
seen now far =
    verify_hello-far_ahead prim exchange (identity (codes "alice")) (codes "a") 20000000000 now
      (sound (codes "alice") alice_named) (omega arith) far

verify_hello-SameTerms_example : SameTerms hello hello
verify_hello-SameTerms_example =
    verify_hello-SameTerms prim digits_apart digits-injective hello hello 1700000000000000000
      1700000000000000001 (verified_keys prim exchange (identity (codes "alice")) (codes "a"))
      (verified_keys prim exchange (identity (codes "alice")) (codes "a"))
      (seen 1700000000000000000 (omega arith)) (seen 1700000000000000001 (omega arith)) refl
