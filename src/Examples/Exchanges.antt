-- ===== src/Examples/Exchanges.antt =====
-- A Netflix exchange.
use tasecureapi.Prelude.{refl, true, none, some, [], status_ok}
use tasecureapi.Prelude.KeyType
use tasecureapi.StoredKey.{Key}
use tasecureapi.KeyExchange.{Environment, NetflixParameters, key_exchange}
use tasecureapi.KeyExchange.Kept.{KeptIfGood, given_by, key_exchange_kept}
use tasecureapi.Examples.Samples.{rights}

abbrev dh_key : Key
dh_key = record {
  header = record {
    magic = [];
    rights = record rights { usage_flags = 3 };
    key_type = KeyType.dh;
    type_parameters = record { curve = 0; dh_parameters = [] };
    size = 256;
  };
  key_length = 0;
  key = [];
}

abbrev symmetric_key : Key
symmetric_key = record dh_key {
  header = record dh_key.header { key_type = KeyType.symmetric; size = 16 };
}

abbrev env : Environment
env = record {
  compute_dh = λ r key. (status_ok, some dh_key);
  compute_ecdh = λ r key. (status_ok, none);
  derive_shared = λ ke kh key secret. (status_ok, (some symmetric_key, some symmetric_key));
  derive_wrapping = λ r s enc hmac. (status_ok, some symmetric_key);
  store = λ key. (status_ok, 7);
  now = 150;
}

abbrev parameters : NetflixParameters
parameters = record {
  found_in = (status_ok, some symmetric_key);
  ke_given = true;
  rights_ke = some rights;
  kh_given = true;
  rights_kh = some rights;
}

key_exchange_kept_example : KeptIfGood (given_by 2) (
    key_exchange env rights
      (status_ok, some dh_key)
      true
      status_ok
      2
      (some parameters)
      (record { key = 0; ke = 0; kh = 0 }))
key_exchange_kept_example =
    key_exchange_kept env rights (status_ok, some dh_key) true status_ok 2 (some parameters)
      (record { key = 0; ke = 0; kh = 0 }) (λ key good. refl)
