-- ===== src/Keys.antt =====
-- keys.go, httpsig.go: the gateway's RSA key in its file, and the PEM text of the public half. The
-- PEM and X.509 codecs and the key generator are arguments.
pub mod Stable
use activity_pub_gw.Base.{ℕ, Option, none, some}
use activity_pub_gw.Base.Result.{Result, ok, err, or_fail, ◌>>=◌}
use activity_pub_gw.Text.{Str, codes}

-- A pem.Block: its type and its bytes.
pub record Block : Type 0 where
  pub kind : Str
  pub bytes : Str

-- A public key that x509 decodes: an RSA key, or one of another kind.
pub data PublicKey (Pub : Type 0) : Type 0 where
  rsa : Pub → PublicKey Pub
  other_kind : PublicKey Pub

-- encoding/pem and crypto/x509, at private keys and their public halves; none is an error.
pub record Pki (Key Pub : Type 0) : Type 0 where
  pub public_half : Key → Pub
  pub pem_decode : Str → Option Block
  pub pem_encode : Block → Str
  pub parse_pkcs1_private : Str → Option Key
  pub marshal_pkcs1_private : Key → Str
  pub parse_pkix_public : Str → Option (PublicKey Pub)
  pub marshal_pkix_public : Pub → Option Str
  pub parse_pkcs1_public : Str → Option Pub

-- The key file: os.ReadFile finds none, fails, or reads a text.
pub data File : Type 0 where
  missing unreadable : File
  holds : Str → File

-- What os.WriteFile does on a missing file: writes all, or fails with the file it leaves.
pub data Write : Type 0 where
  written : Write
  failed : File → Write

pub data KeyError : Type 0 where
  not_pem bad_key read_failed generate_failed write_failed : KeyError
  marshal_failed bad_public_key : KeyError

module _ {Key Pub : Type 0} (pki : Pki Key Pub) where
  -- The first case of loadOrCreateKey, on the text of the file.
  load : Str → Result KeyError Key
  load text = do
    block ← or_fail (pki.pem_decode text) not_pem
    or_fail (pki.parse_pkcs1_private block.bytes) bad_key

  encoded : Key → Str
  encoded key =
      pki.pem_encode
        (record { kind = codes "RSA PRIVATE KEY"; bytes = pki.marshal_pkcs1_private key })

  store : Key → Write → Result KeyError Key × File
  store key written = (ok key, holds (encoded key))
  store key (failed file) = (err write_failed, file)

  create : Option Key → Write → Result KeyError Key × File
  create none write = (err generate_failed, missing)
  create (some key) write = store key write

  -- loadOrCreateKey: its result and the file after it, from the file, what rsa.GenerateKey would give
  -- and what os.WriteFile would do.
  unfoldable pub load_or_create_key : File → Option Key → Write → Result KeyError Key × File
  unfolding load store create encoded
  load_or_create_key missing generated write = create generated write
  load_or_create_key unreadable generated write = (err read_failed, unreadable)
  load_or_create_key (holds text) generated write = (load text, holds text)

  -- publicKeyPEM.
  unfoldable pub public_key_pem : Key → Result KeyError Str
  public_key_pem key = do
    der ← or_fail (pki.marshal_pkix_public (pki.public_half key)) marshal_failed
    ok (pki.pem_encode (record { kind = codes "PUBLIC KEY"; bytes = der }))

  rsa_only : PublicKey Pub → Result KeyError Pub
  rsa_only (rsa key) = ok key
  rsa_only other_kind = err bad_public_key

  pkix_or_pkcs1 : Str → Option (PublicKey Pub) → Result KeyError Pub
  pkix_or_pkcs1 bytes none = or_fail (pki.parse_pkcs1_public bytes) bad_public_key
  pkix_or_pkcs1 bytes (some key) = rsa_only key

  -- parseRSAPublicKeyPEM.
  unfoldable pub parse_rsa_public_key_pem : Str → Result KeyError Pub
  unfolding pkix_or_pkcs1 rsa_only
  parse_rsa_public_key_pem text = do
    block ← or_fail (pki.pem_decode text) bad_public_key
    pkix_or_pkcs1 block.bytes (pki.parse_pkix_public block.bytes)
