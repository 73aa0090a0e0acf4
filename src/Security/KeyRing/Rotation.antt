-- ===== src/Security/KeyRing/Rotation.antt =====
-- What was encrypted stays readable through changes of the key.
use mathlib.Core.Path.{subst}
use flood_agent.Base.{
  ℕ, ◌≡◌, ◌≢◌, inl, inr, refl, arith, Bool-cases, none, some, List, [], ◌∷◌, ◌++◌, ◌==◌, Ident,
  is_some, All, All-append,
}
use flood_agent.Security.KeyRing.{
  Key, Stored, envelope, CryptoEnv, KeyTable, key_of, DataProtector, new_protector, other_keys,
  encrypt_payload, decrypt_payload, opened, rotate_all,
}
use flood_agent.Security.KeyRing.Rings.{
  extend, extend_all, ring_of, rekey, rekey_all, AllValid, new_protector-ring_of,
  extend_all-TableValid, rotate_all-rekey_all,
}

-- A key that the table has stays under its identifier when others are added.
extend-keeps :
    (env : CryptoEnv) (table : KeyTable) (k n : Key) (id : Ident)
    → key_of id table ≡ some k
    → key_of id (extend env table n) ≡ some k
extend-keeps env table k n id h =
    elim (Bool-cases (is_some (key_of (env.key_identifier n) table))) [
      | inl e ↦ rw e h
      | inr e ↦ rw e (kept table h)
    ]
  where
    kept :
        (t : KeyTable)
        → key_of id t ≡ some k
        → key_of id (t ++ (env.key_identifier n, n) ∷ []) ≡ some k
    kept [] h = absurd (ground arith)
    kept (row ∷ t) h = ground (arith, kept t)

extend_all-keeps :
    (env : CryptoEnv) (table : KeyTable) (ns : List Key) (k : Key) (id : Ident)
    → key_of id table ≡ some k
    → key_of id (extend_all env table ns) ≡ some k
extend_all-keeps env table [] k id h = h
extend_all-keeps env table (n ∷ ns) k id h =
    extend_all-keeps env (extend env table n) ns k id (extend-keeps env table k n id h)

-- A key is added under its identifier, unless another key has it.
extend-new :
    (env : CryptoEnv) (table : KeyTable) (k : Key)
    → key_of (env.key_identifier k) table ≡ none
    → key_of (env.key_identifier k) (extend env table k) ≡ some k
extend-new env table k free = rw free (last table free)
  where
    last :
        (t : KeyTable)
        → key_of (env.key_identifier k) t ≡ none
        → key_of (env.key_identifier k) (t ++ (env.key_identifier k, k) ∷ []) ≡ some k
    last [] e = ground arith
    last (row ∷ t) e = ground (arith, last t)

pub active_key :
    (env : CryptoEnv) (k : Key) (ks : List Key)
    → key_of (env.key_identifier k) (ring_of env k ks).keys ≡ some k
active_key env k ks =
    extend_all-keeps env (extend env [] k) ks k (env.key_identifier k) (extend-new env [] k refl)

-- Every row stands under the identifier of its key.
abbrev pub WellKeyed : CryptoEnv → KeyTable → Type 0
WellKeyed env table = All (λ row. row.0 ≡ env.key_identifier row.1) table

extend-WellKeyed :
    (env : CryptoEnv) (table : KeyTable) (n : Key)
    → WellKeyed env table
    → WellKeyed env (extend env table n)
extend-WellKeyed env table n h = elim (Bool-cases (is_some (key_of (env.key_identifier n) table))) [
  | inl e ↦ rw e h
  | inr e ↦
      rw e (
        All-append (λ row. row.0 ≡ env.key_identifier row.1) table (env.key_identifier n, n) h refl)
]

extend_all-WellKeyed :
    (env : CryptoEnv) (table : KeyTable) (ns : List Key)
    → WellKeyed env table
    → WellKeyed env (extend_all env table ns)
extend_all-WellKeyed env table [] h = h
extend_all-WellKeyed env table (n ∷ ns) h =
    extend_all-WellKeyed env (extend env table n) ns (extend-WellKeyed env table n h)

extend-other :
    (env : CryptoEnv) (table : KeyTable) (n : Key) (id : Ident)
    → env.key_identifier n ≢ id
    → key_of id table ≡ none
    → key_of id (extend env table n) ≡ none
extend-other env table n id ne h =
    elim (Bool-cases (is_some (key_of (env.key_identifier n) table))) [
      | inl e ↦ rw e h
      | inr e ↦ rw e (still table h)
    ]
  where
    still :
        (t : KeyTable) → key_of id t ≡ none → key_of id (t ++ (env.key_identifier n, n) ∷ []) ≡ none
    still [] h = ground arith
    still (row ∷ t) h = ground (arith, still t)

-- The keys of a table other than the active one reach the new table under their identifiers.
others-reach :
    (env : CryptoEnv) (table rows : KeyTable) (active id : Ident) (k : Key)
    → WellKeyed env rows
    → id ≢ active
    → key_of id table ≡ none
    → key_of id rows ≡ some k
    → key_of id (extend_all env table (other_keys active rows)) ≡ some k
others-reach env table [] active id k wk ne free found = absurd (ground arith)
others-reach env table ((i, x) ∷ rows) active id k wk ne free found =
    elim (Bool-cases (i == active)) [
      | inl e ↦ rw e (others-reach env table rows active id k wk.1 ne free (ground arith))
      | inr e ↦ rw e (elim (Bool-cases (i == id)) [
        | inl own ↦
            let is_id : env.key_identifier x ≡ id = ground (arith, wk.0) in
            let is_k : x ≡ k = ground arith in
            extend_all-keeps env (extend env table x) (other_keys active rows) k id (
              subst (λ y. key_of id (extend env table x) ≡ some y) is_k
                (subst (λ j. key_of j (extend env table x) ≡ some x) is_id
                  (extend-new env table x (rw is_id free))))
        | inr foreign ↦
            others-reach env (extend env table x) rows active id k wk.1 ne
              (extend-other env table x id (ground (arith, wk.0)) free) (ground arith)
      ])
    ]

pub record IsRing (env : CryptoEnv) (p : DataProtector) : Type 0 where
  pub identified : p.key_id ≡ env.key_identifier p.key
  pub active : key_of p.key_id p.keys ≡ some p.key
  pub well_keyed : WellKeyed env p.keys

ring_of-IsRing : (env : CryptoEnv) (k : Key) (ks : List Key) → IsRing env (ring_of env k ks)
ring_of-IsRing env k ks = record {
  identified = refl;
  active = active_key env k ks;
  well_keyed = extend_all-WellKeyed env [] (k ∷ ks) tt;
}

-- A change of the key keeps the keys of the ring.
rekey-keeps :
    (env : CryptoEnv) (p : DataProtector) (n k : Key)
    → IsRing env p
    → (env.key_identifier n ≡ env.key_identifier k → n ≡ k)
    → key_of (env.key_identifier k) p.keys ≡ some k
    → key_of (env.key_identifier k) (rekey env p n).keys ≡ some k
rekey-keeps env p n k ring distinct found =
    let id = env.key_identifier k in
    elim (Bool-cases (env.key_identifier n == id)) [
      | inl e ↦
          let is_id : env.key_identifier n ≡ id = ground arith in
          subst
            (λ y.
              key_of id (extend_all env (extend env [] n) (p.key ∷ other_keys p.key_id p.keys))
              ≡ some y)
            (distinct is_id)
            (subst
              (λ j.
                key_of j (extend_all env (extend env [] n) (p.key ∷ other_keys p.key_id p.keys))
                ≡ some n)
              is_id (active_key env n (p.key ∷ other_keys p.key_id p.keys)))
      | inr e ↦
          let free : key_of id (extend env [] n) ≡ none = ground arith in
          elim (Bool-cases (p.key_id == id)) [
            | inl own ↦
                let is_id : env.key_identifier p.key ≡ id = ground (arith, ring.identified) in
                let is_k : p.key ≡ k = ground (arith, ring.active) in
                extend_all-keeps env (extend env (extend env [] n) p.key)
                  (other_keys p.key_id p.keys) k id
                  (subst (λ y. key_of id (extend env (extend env [] n) p.key) ≡ some y) is_k
                    (subst (λ j. key_of j (extend env (extend env [] n) p.key) ≡ some p.key) is_id
                      (extend-new env (extend env [] n) p.key (rw is_id free))))
            | inr foreign ↦
                others-reach env (extend env (extend env [] n) p.key) p.keys p.key_id id k
                  ring.well_keyed (ground arith)
                  (extend-other env (extend env [] n) p.key id (ground (arith, ring.identified))
                    free)
                  found
          ]
    ]

rekey_all-keeps :
    (env : CryptoEnv) (p : DataProtector) (ns : List Key) (k : Key)
    → IsRing env p
    → All (λ n. env.key_identifier n ≡ env.key_identifier k → n ≡ k) ns
    → key_of (env.key_identifier k) p.keys ≡ some k
    → key_of (env.key_identifier k) (rekey_all env p ns).keys ≡ some k
rekey_all-keeps env p [] k ring distinct found = found
rekey_all-keeps env p (n ∷ ns) k ring distinct found =
    rekey_all-keeps env (rekey env p n) ns k
      (ring_of-IsRing env n (p.key ∷ other_keys p.key_id p.keys)) distinct.1
      (rekey-keeps env p n k ring distinct.0 found)

encrypt_payload-ring :
    (env : CryptoEnv) (p : DataProtector) (vector : ℕ) (raw : Ident)
    → IsRing env p
    → encrypt_payload env p vector raw
      ≡ some (envelope p.key_id (some (env.encrypt p.key vector raw)))
unfolding encrypt_payload
encrypt_payload-ring env p vector raw ring = rw (ring.active, encrypt_payload) refl

decrypt_payload-known :
    (env : CryptoEnv) (p : DataProtector) (id k ciphertext raw : Ident)
    → key_of id p.keys ≡ some k
    → env.decrypt k ciphertext ≡ some raw
    → decrypt_payload env p (envelope id (some ciphertext)) ≡ opened raw
unfolding decrypt_payload
decrypt_payload-known env p id k ciphertext raw found law = ground arith

-- A key ring is made of well-formed keys, encryption with it returns an envelope, any sequence of
-- changes to well-formed keys returns a ring, and that ring decrypts the envelope to the text,
-- where the cipher opens what it closed under the first key and no other new key has the identifier
-- of that key.
pub encrypt_payload-decrypt_payload :
    (env : CryptoEnv) (key : Key) (old_keys new_keys : List Key) (vector : ℕ) (raw : Ident)
    → env.decrypt key (env.encrypt key vector raw) ≡ some raw
    → AllValid env (key ∷ old_keys)
    → AllValid env new_keys
    → All (λ n. env.key_identifier n ≡ env.key_identifier key → n ≡ key) new_keys
    → (p : DataProtector) × (new_protector env key old_keys ≡ some p)
      × ((stored : Stored) × (encrypt_payload env p vector raw ≡ some stored)
          × ((q : DataProtector) × (rotate_all env p new_keys ≡ some q)
              × (decrypt_payload env q stored ≡ opened raw)))
encrypt_payload-decrypt_payload env key old_keys new_keys vector raw law valid new_valid distinct =
    let p = ring_of env key old_keys in
    let ring = ring_of-IsRing env key old_keys in
    (
      p,
      new_protector-ring_of env key old_keys valid,
      (
        envelope (env.key_identifier key) (some (env.encrypt key vector raw)),
        encrypt_payload-ring env p vector raw ring,
        (
          rekey_all env p new_keys,
          rotate_all-rekey_all env p new_keys valid.0
              (extend_all-TableValid env [] (key ∷ old_keys) tt valid) new_valid,
          decrypt_payload-known env (rekey_all env p new_keys) (env.key_identifier key) key
              (env.encrypt key vector raw) raw
              (rekey_all-keeps env p new_keys key ring distinct (active_key env key old_keys)) law,
        ),
      ),
    )
