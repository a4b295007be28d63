-- ===== src/Keys/Stable.antt =====
-- The key stays the same over restarts, and peers read the public half that the gateway publishes.
use activity_pub_gw.Base.{◌≡◌, refl, subst, Option, some}
use activity_pub_gw.Base.Result.{Result, ok, or_fail-eq-ok, >>=-eq-ok}
use activity_pub_gw.Text.{Str, codes}
use activity_pub_gw.Keys.{
  Block, rsa, Pki, File, holds, Write, load_or_create_key, public_key_pem, parse_rsa_public_key_pem,
  marshal_failed, pkix_or_pkcs1, rsa_only,
}

ok_inj : {E A : Type 0} {a b : A} → ◌≡◌ {A = Result E A} (ok a) (ok b) → a ≡ b
ok_inj h = cc

-- What encoding/pem and crypto/x509 document: they read back what they write.
pub record IsCodec {Key Pub : Type 0} (pki : Pki Key Pub) : Type 0 where
  pub pem : (b : Block) → pki.pem_decode (pki.pem_encode b) ≡ some b
  pub pkcs1 : (k : Key) → pki.parse_pkcs1_private (pki.marshal_pkcs1_private k) ≡ some k
  pub pkix :
      (p : Pub) (der : Str)
      → pki.marshal_pkix_public p ≡ some der
      → pki.parse_pkix_public der ≡ some (rsa p)

module _ {Key Pub : Type 0} (pki : Pki Key Pub) where
  -- A start that has a key, whatever it found: every later start from the file it left, whatever the
  -- generator and the disk would do then, has that key and leaves the file alone; and a file that
  -- could be read was not changed.
  pub record IsStable (before : File) (key : Key) (after : File) : Type 0 where
    pub again :
        (generated : Option Key) (write : Write)
        → load_or_create_key pki after generated write ≡ (ok key, after)
    pub kept : (text : Str) → before ≡ holds text → after ≡ before

module _ {Key Pub : Type 0} (pki : Pki Key Pub) (laws : IsCodec pki) where
  parse-encoded :
      (p : Pub) (kind der : Str)
      → pki.marshal_pkix_public p ≡ some der
      → parse_rsa_public_key_pem pki (pki.pem_encode (record { kind = kind; bytes = der })) ≡ ok p
  unfolding parse_rsa_public_key_pem pkix_or_pkcs1 rsa_only
  parse-encoded p kind der e = rw (laws.pem _, laws.pkix p der e) refl

  parse-text :
      (p : Pub) (kind der text : Str)
      → pki.marshal_pkix_public p ≡ some der
      → pki.pem_encode (record { kind = kind; bytes = der }) ≡ text
      → parse_rsa_public_key_pem pki text ≡ ok p
  parse-text p kind der text e is_text =
      subst (λ t. parse_rsa_public_key_pem pki t ≡ ok p) is_text (parse-encoded p kind der e)

  -- A peer that parses the PEM text of the actor document gets the public half of the gateway's key.
  pub parse_rsa_public_key_pem-public_key_pem :
      (key : Key) (text : Str)
      → public_key_pem pki key ≡ ok text
      → parse_rsa_public_key_pem pki text ≡ ok (pki.public_half key)
  unfolding public_key_pem
  parse_rsa_public_key_pem-public_key_pem key text h =
      let (der, marshalled, e) = >>=-eq-ok _ _ h in
      parse-text (pki.public_half key) (codes "PUBLIC KEY") der text
        (or_fail-eq-ok (pki.marshal_pkix_public (pki.public_half key)) marshal_failed marshalled)
        (ok_inj e)
