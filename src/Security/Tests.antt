-- ===== src/Security/Tests.antt =====
-- Small assertions, calls of the verifier, and small key rings.
use flood_agent.Base.{
  ℕ, ◌+◌, ◌-◌, ◌*◌, ◌≡◌, ◌≢◌, refl, arith, not, ◌==◌, false, some, [], ◌∷◌, codes, strip,
}
use flood_agent.Security.KeyRing.{
  Stored, CryptoEnv, DataProtector, new_protector, encrypt_payload, decrypt_payload, rotate_all,
  opened,
}
use flood_agent.Security.KeyRing.Rotation.{encrypt_payload-decrypt_payload}
use flood_agent.Response.Enums.{reviewer}
use flood_agent.Security.Identity.{
  IdentityEnv, Verifier, Headers, OperatorIdentity, accepted, NonceStore, plus, from_timestamp,
  verify, verify_all, build_headers, sign, canonical, read_values, value_of, check_values, admit,
  consume_identity_nonce, live, is_nonce, assurance_rank, knows, Values,
}
use flood_agent.Response.Roles.{role_named}
use flood_agent.Security.Identity.Nonces.{ClockMonotone, verify_once}
use flood_agent.Security.Identity.Replay.{verify_replayed}
use flood_agent.Security.Identity.Binding.{Genuine, verify-Genuine, verify_binds}
use flood_agent.Security.Identity.Built.{Assertion, headers_of, build_headers-verified}

-- A clock that moves by so many microseconds from one reading to the next.
abbrev env_at : ℕ → IdentityEnv
env_at step = record {
  clock = λ n. 100000000 + n * step;
  hmac = λ k t. codes "0a";
  upper = λ s. s;
  lower = λ s. s;
  parse_int = λ s. plus 115;
  show_int = λ i. codes "115";
}

abbrev test_assertion : (step : ℕ) → Assertion (env_at step)
unfolding strip assurance_rank is_nonce
test_assertion step = record {
  secret = codes "s";
  operator = codes "op";
  role = reviewer;
  assurance = codes "aal2";
  terminal = codes "t1";
  nonce = codes "abcdefghijklmnop";
  method = codes "POST";
  path = codes "/tasks";
  issued = plus 115;
  operator_carried = record { stripped = refl; given = refl };
  assurance_carried = record { stripped = refl; given = refl };
  terminal_carried = record { stripped = refl; given = refl };
  nonce_carried = record { stripped = refl; given = refl };
  issued_carried = record { stripped = refl; given = refl };
  is_read_back = refl;
  is_ranked = (2, refl);
  lower_lower = refl;
  is_nonce = refl;
}

abbrev test_who : OperatorIdentity
test_who = record {
  operator_id = codes "op";
  operator_role = reviewer;
  assurance_level = codes "aal2";
  terminal_id = codes "t1";
  issued_at = from_timestamp (plus 115);
  nonce = codes "abcdefghijklmnop";
}

abbrev no_nonces : NonceStore
no_nonces = record { nonces = []; ticks = 0 }

abbrev test_verifier : Verifier
test_verifier = record { secret = codes "s"; max_age_seconds = 30 }

abbrev test_headers : ℕ → Headers
test_headers step = headers_of (env_at step) (test_assertion step)

build_headers-verified_example :
    (verify (env_at 1) test_verifier (test_headers 1) (codes "POST") (codes "/tasks") no_nonces).1
    ≡ accepted test_who
unfolding live sign strip test_assertion
build_headers-verified_example =
    build_headers-verified (env_at 1) 30 (test_assertion 1) no_nonces
      (record { carried = record { stripped = refl; given = refl }; lowered = refl; ascii = refl })
      refl refl

abbrev TestAccepted : ℕ → Type 0
TestAccepted step =
    (verify (env_at step) test_verifier (test_headers step) (codes "POST") (codes "/tasks")
      no_nonces).1
    ≡ accepted test_who

slow_accepted : TestAccepted 1
slow_accepted = build_headers-verified_example

test_clock : (step : ℕ) → ClockMonotone (env_at step)
test_clock step m n h = grind arith

verify_once_example :
    (verify (env_at 1) test_verifier (test_headers 1) (codes "POST") (codes "/other") (
      verify_all
        (env_at 1)
        test_verifier
        []
        (verify
          (env_at 1)
          test_verifier
          (test_headers 1)
          (codes "POST")
          (codes "/tasks")
          no_nonces).0)).1
    ≢ accepted test_who
unfolding verify_all verify admit consume_identity_nonce live read_values value_of strip
    check_values role_named assurance_rank is_nonce sign canonical build_headers test_assertion
verify_once_example =
    verify_once (env_at 1) test_verifier (test_headers 1) (test_headers 1) (codes "POST")
      (codes "POST") (codes "/tasks") (codes "/other") no_nonces test_who test_who [] (test_clock 1)
      slow_accepted refl (omega arith)

fast_accepted : TestAccepted 10000000
unfolding verify_all verify admit consume_identity_nonce live read_values value_of strip
    check_values role_named assurance_rank is_nonce sign canonical build_headers test_assertion
fast_accepted = refl

verify_replayed_example :
    (verify
      (env_at 10000000)
      test_verifier
      (test_headers 10000000)
      (codes "POST")
      (codes "/tasks")
      (verify
        (env_at 10000000)
        test_verifier
        (test_headers 10000000)
        (codes "POST")
        (codes "/tasks")
        no_nonces).0).1
    ≡ accepted test_who
unfolding verify_all verify admit consume_identity_nonce live read_values value_of strip
    check_values role_named assurance_rank is_nonce sign canonical build_headers test_assertion
verify_replayed_example =
    verify_replayed (env_at 10000000) test_verifier (test_headers 10000000) (codes "POST")
      (codes "/tasks") no_nonces test_who (codes "115") fast_accepted refl refl (omega arith)

verify_binds_example :
    (test_who ≡ test_who) × (codes "POST" ≡ codes "POST") × (codes "/tasks" ≡ codes "/tasks")
verify_binds_example =
    verify_binds (env_at 1) test_verifier (test_headers 1) (codes "POST") (codes "/tasks")
      (codes "POST") (codes "/tasks") no_nonces no_nonces test_who test_who (λ o r a t n i e. refl)
      refl refl slow_accepted slow_accepted

verify-Genuine_example :
    (x : Values) × (read_values (test_headers 1) ≡ accepted x)
    × Genuine (env_at 1) test_verifier (codes "POST") (codes "/tasks") 100 x test_who
    × (knows test_who.nonce (live 100000002 []) ≡ false)
verify-Genuine_example =
    verify-Genuine (env_at 1) test_verifier (test_headers 1) (codes "POST") (codes "/tasks")
      no_nonces test_who slow_accepted

-- A cipher that adds the key to the text.
abbrev sum_cipher : CryptoEnv
sum_cipher = record {
  key_identifier = λ k. k;
  is_valid_key = λ k. not (k == 0);
  encrypt = λ k v t. k + t;
  decrypt = λ k c. some (c - k);
}

encrypt_payload-decrypt_payload_example :
    (p : DataProtector) × (new_protector sum_cipher 3 (4 ∷ []) ≡ some p)
    × ((stored : Stored) × (encrypt_payload sum_cipher p 0 9 ≡ some stored)
        × ((q : DataProtector) × (rotate_all sum_cipher p (5 ∷ 3 ∷ 6 ∷ []) ≡ some q)
            × (decrypt_payload sum_cipher q stored ≡ opened 9)))
encrypt_payload-decrypt_payload_example =
    encrypt_payload-decrypt_payload sum_cipher 3 (4 ∷ []) (5 ∷ 3 ∷ 6 ∷ []) 0 9 refl
      (refl, (refl, tt)) (refl, (refl, (refl, tt))) (λ e. e, (λ e. e, (λ e. e, tt)))
