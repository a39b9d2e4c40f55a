-- ===== src/Examples/Signing.antt =====
-- A signature with RSA-PSS.
use tasecureapi.Prelude.{refl, true, false, some, [], ◌∷◌, ◌≡◌, status_ok}
use tasecureapi.Prelude.KeyType
use tasecureapi.Rights.{allowed_sign, allowed_time, bit_test}
use tasecureapi.KeySize.{supports_rsa, valid_rsa_size}
use tasecureapi.StoredKey.{Key}
use tasecureapi.Sign.{
  rsa_pss, digest_length, SignParameters, Signing, Environment, Request, sign_rsa_pss,
  sign_algorithm, sign_found, crypto_sign,
}
use tasecureapi.Sign.Allowed.{SignedWith, crypto_sign_allowed}
use tasecureapi.Examples.Samples.{rights}

abbrev signing_key : Key
signing_key = record {
  header = record {
    magic = [];
    rights = record rights { usage_flags = 32 };
    key_type = KeyType.rsa;
    type_parameters = record { curve = 0; dh_parameters = [] };
    size = 256;
  };
  key_length = 2;
  key = 1 ∷ 2 ∷ [];
}

abbrev env : Environment
env = record { sign = λ c. (status_ok, 256); now = 150 }

abbrev request : Request
request = record { out_given = true; out_length = 256; in_missing = false }

abbrev pss : SignParameters
pss = record {
  digest_algorithm = 1;
  mgf1_digest_algorithm = 1;
  precomputed_digest = false;
  salt_length = 20;
}

abbrev signing : Signing
signing = record { algorithm = rsa_pss; key = signing_key; parameters = some pss }

signs :
    (crypto_sign env true request status_ok (status_ok, some signing_key) rsa_pss (some pss)).signed
    ≡ some signing
unfolding crypto_sign sign_found sign_algorithm sign_rsa_pss digest_length supports_rsa
    valid_rsa_size allowed_sign allowed_time bit_test
signs = refl

crypto_sign_allowed_example : SignedWith env request (status_ok, some signing_key) rsa_pss signing
crypto_sign_allowed_example =
    crypto_sign_allowed env true request status_ok (status_ok, some signing_key) rsa_pss (some pss)
      signing signs
