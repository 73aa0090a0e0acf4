-- ===== src/Security/KeyRing/Rings.antt =====
-- The key rings that well-formed keys make: no change of the key raises.
use flood_agent.Base.{
  ◌≡◌, inl, inr, refl, arith, Bool-cases, true, if◌then◌else◌, some, List, [], ◌∷◌, ◌++◌, ◌==◌,
  Ident, is_some, All, All-append,
}
use flood_agent.Security.KeyRing.{
  Key, CryptoEnv, KeyTable, key_of, DataProtector, add_keys, new_protector, other_keys,
  with_active_key, rotate_all,
}

-- What the loop of `__init__` makes of a table where every key is well formed.
abbrev pub extend : CryptoEnv → KeyTable → Key → KeyTable
extend env table k =
    let id = env.key_identifier k in
    if is_some (key_of id table) then table else table ++ (id, k) ∷ []

abbrev pub extend_all : CryptoEnv → KeyTable → List Key → KeyTable
extend_all env table [] = table
extend_all env table (k ∷ ks) = extend_all env (extend env table k) ks

abbrev pub ring_of : CryptoEnv → Key → List Key → DataProtector
ring_of env key decryption_keys = record {
  key = key;
  key_id = env.key_identifier key;
  keys = extend_all env [] (key ∷ decryption_keys);
}

abbrev pub rekey : CryptoEnv → DataProtector → Key → DataProtector
rekey env p new_key = ring_of env new_key (p.key ∷ other_keys p.key_id p.keys)

abbrev pub rekey_all : CryptoEnv → DataProtector → List Key → DataProtector
rekey_all env p [] = p
rekey_all env p (k ∷ ks) = rekey_all env (rekey env p k) ks

-- The keys are well formed.
abbrev pub AllValid : CryptoEnv → List Key → Type 0
AllValid env = All (λ k. env.is_valid_key k ≡ true)

add_keys-extend_all :
    (env : CryptoEnv) (table : KeyTable) (ks : List Key)
    → AllValid env ks
    → add_keys env table ks ≡ some (extend_all env table ks)
add_keys-extend_all env table [] h = refl
add_keys-extend_all env table (k ∷ ks) h =
    elim (Bool-cases (is_some (key_of (env.key_identifier k) table))) [
      | inl e ↦ ground (arith, add_keys-extend_all env table ks h.1)
      | inr e ↦
          ground
            (arith, h.0, add_keys-extend_all env (table ++ (env.key_identifier k, k) ∷ []) ks h.1)
    ]

pub new_protector-ring_of :
    (env : CryptoEnv) (k : Key) (ks : List Key)
    → AllValid env (k ∷ ks)
    → new_protector env k ks ≡ some (ring_of env k ks)
unfolding new_protector
new_protector-ring_of env k ks h = rw (new_protector, add_keys-extend_all env [] (k ∷ ks) h) refl

-- The keys of a table are well formed.
abbrev pub TableValid : CryptoEnv → KeyTable → Type 0
TableValid env = All (λ row. env.is_valid_key row.1 ≡ true)

pub extend_all-TableValid :
    (env : CryptoEnv) (table : KeyTable) (ks : List Key)
    → TableValid env table
    → AllValid env ks
    → TableValid env (extend_all env table ks)
extend_all-TableValid env table [] t h = t
extend_all-TableValid env table (k ∷ ks) t h =
    elim (Bool-cases (is_some (key_of (env.key_identifier k) table))) [
      | inl e ↦ rw e (extend_all-TableValid env table ks t h.1)
      | inr e ↦ rw e (
          extend_all-TableValid env (table ++ (env.key_identifier k, k) ∷ []) ks
            (All-append (λ row. env.is_valid_key row.1 ≡ true) table (env.key_identifier k, k) t
              h.0)
            h.1)
    ]

other_keys-AllValid :
    (env : CryptoEnv) (id : Ident) (table : KeyTable)
    → TableValid env table
    → AllValid env (other_keys id table)
other_keys-AllValid env id [] h = tt
other_keys-AllValid env id ((i, k) ∷ table) h = elim (Bool-cases (i == id)) [
  | inl e ↦ rw e (other_keys-AllValid env id table h.1)
  | inr e ↦ rw e (h.0, other_keys-AllValid env id table h.1)
]

-- A change to well-formed keys returns a ring, of well-formed keys.
pub rotate_all-rekey_all :
    (env : CryptoEnv) (p : DataProtector) (ns : List Key)
    → env.is_valid_key p.key ≡ true
    → TableValid env p.keys
    → AllValid env ns
    → rotate_all env p ns ≡ some (rekey_all env p ns)
unfolding rotate_all with_active_key
rotate_all-rekey_all env p [] own rows h = refl
rotate_all-rekey_all env p (n ∷ ns) own rows h =
    let old = p.key ∷ other_keys p.key_id p.keys in
    let old_valid : AllValid env old = (own, other_keys-AllValid env p.key_id p.keys rows) in
    ground (
      arith,
      new_protector-ring_of env n old (h.0, old_valid),
      rotate_all-rekey_all env (rekey env p n) ns h.0
          (extend_all-TableValid env [] (n ∷ old) tt (h.0, old_valid)) h.1,
    )
