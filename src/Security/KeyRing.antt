-- ===== src/Security/KeyRing.antt =====
-- The key ring of the stored payloads: `DataProtector` of flood_system/security.py.
pub mod Rings
pub mod Rotation
use flood_agent.Base.{
  ℕ, Bool, true, false, not, Option, none, some, List, [], ◌∷◌, ◌++◌, ◌==◌, if◌then◌else◌, Ident,
  filter_by, is_some, map,
}

abbrev pub Key : Type 0
Key = Ident

-- A stored payload, as `json.loads` and the tests of `decrypt_payload` see it.
pub data Stored : Type 0 where
  -- no JSON
  garbage : Ident → Stored
  -- JSON that is not a protected envelope
  plain : Ident → Stored
  -- a protected envelope: its key identifier, and its ciphertext if there is one
  envelope : Ident → Option Ident → Stored

-- What the ring takes from outside: the shortened SHA-256 of a key, and Fernet, which raises a
-- ValueError for a key that is not well formed, and whose encryption depends on a random vector and
-- the time.
pub record CryptoEnv : Type 0 where
  pub key_identifier : Key → Ident
  pub is_valid_key : Key → Bool
  pub encrypt : Key → ℕ → Ident → Ident
  pub decrypt : Key → Ident → Option Ident

abbrev pub KeyTable : Type 0
KeyTable = List (Ident × Key)

-- `_fernets.get(key_id)`
abbrev pub key_of : Ident → KeyTable → Option Key
key_of id [] = none
key_of id ((i, k) ∷ ks) = if i == id then some k else key_of id ks

pub record DataProtector : Type 0 where
  pub key : Key
  pub key_id : Ident
  pub keys : KeyTable

-- One round of the loop of `__init__`; `none` is the ValueError of `Fernet(candidate)`.
abbrev pub add_key : CryptoEnv → KeyTable → Key → Option KeyTable
add_key env table k =
    let id = env.key_identifier k in
    if is_some (key_of id table)
    then some table
    else (if env.is_valid_key k then some (table ++ (id, k) ∷ []) else none)

abbrev pub add_keys : CryptoEnv → KeyTable → List Key → Option KeyTable
add_keys env table [] = some table
add_keys env table (k ∷ ks) = elim (add_key env table k) [
  | none ↦ none
  | some more ↦ add_keys env more ks
]

-- `__init__`
unfoldable pub new_protector : CryptoEnv → Key → List Key → Option DataProtector
new_protector env key decryption_keys = elim (add_keys env [] (key ∷ decryption_keys)) [
  | none ↦ none
  | some keys ↦ some (record { key = key; key_id = env.key_identifier key; keys = keys })
]

-- The keys whose identifier is another.
abbrev pub other_keys : Ident → KeyTable → List Key
other_keys id [] = []
other_keys id ((i, k) ∷ ks) = let rest = other_keys id ks in if i == id then rest else k ∷ rest

-- `with_active_key`
unfoldable pub with_active_key : CryptoEnv → DataProtector → Key → Option DataProtector
unfolding new_protector
with_active_key env p new_key = new_protector env new_key (p.key ∷ other_keys p.key_id p.keys)

-- `encrypt_payload`; `none` is the KeyError of `__init__`, which finds the active key in the ring.
unfoldable pub encrypt_payload : CryptoEnv → DataProtector → ℕ → Ident → Option Stored
encrypt_payload env p vector raw = elim (key_of p.key_id p.keys) [
  | none ↦ none
  | some k ↦ some (envelope p.key_id (some (env.encrypt k vector raw)))
]

pub data ProtectionError : Type 0 where
  invalid_json unknown_key authentication_failed : ProtectionError

pub data Opened : Type 0 where
  opened : Ident → Opened
  refused : ProtectionError → Opened

abbrev authenticated : Option Ident → Opened
authenticated none = refused authentication_failed
authenticated (some raw) = opened raw

abbrev open_with : CryptoEnv → Key → Option Ident → Opened
open_with env k none = refused authentication_failed
open_with env k (some ciphertext) = authenticated (env.decrypt k ciphertext)

-- `decrypt_payload`
unfoldable pub decrypt_payload : CryptoEnv → DataProtector → Stored → Opened
decrypt_payload env p (garbage s) = refused invalid_json
decrypt_payload env p (plain s) = opened s
decrypt_payload env p (envelope id ciphertext) = elim (key_of id p.keys) [
  | none ↦ refused unknown_key
  | some k ↦ open_with env k ciphertext
]

-- `is_encrypted_payload`
unfoldable pub is_encrypted_payload : Stored → Bool
is_encrypted_payload (envelope id ciphertext) = true
is_encrypted_payload _ = false

-- `payload_key_id`; an empty identifier is none.
unfoldable pub payload_key_id : Stored → Option Ident
payload_key_id (envelope id ciphertext) = if id == 0 then none else some id
payload_key_id _ = none

-- `with_active_key` time after time.
unfoldable pub rotate_all : CryptoEnv → DataProtector → List Key → Option DataProtector
unfolding with_active_key
rotate_all env p [] = some p
rotate_all env p (k ∷ ks) = elim (with_active_key env p k) [
  | none ↦ none
  | some q ↦ rotate_all env q ks
]
