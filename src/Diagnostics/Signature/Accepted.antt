-- ===== src/Diagnostics/Signature/Accepted.antt =====
-- The verifier in the manager: what an observation that is accepted was signed with.
use xray_checker_modify.Base.{
  Bool, true, Option, none, some, [], ◌≡◌, refl, length, arith, Option-cases, inl, inr,
}
use xray_checker_modify.Diagnostics.Types.{Time, Observation, AcceptedObservation}
use xray_checker_modify.Diagnostics.Manager.{ManagerConfig, Manager, ok}
use xray_checker_modify.Diagnostics.Operations.{accept_observation}
use xray_checker_modify.Diagnostics.Calls.Replay.{accept_observation-found}
use xray_checker_modify.Diagnostics.Signature.{
  Bytes, KeyProvider, signing_payload, ed25519_verifier, verify_observation,
}

module _ (marshal : Observation → Option Bytes)
    (ed25519_verify : Bytes → Bytes → Bytes → Bool) where
  -- That the agent of an observation has a key of the size of a public key under which the
  -- observation's signature, of the size of a signature, is one of the observation without it.
  pub record IsSigned (provider : Option KeyProvider) (o : Observation) : Type 0 where
    pub public_key : KeyProvider
    pub provided : provider ≡ some public_key
    pub key : Bytes
    pub enrolled : public_key o.agent_id ≡ some key
    pub key_size : length key ≡ 32
    pub payload : Bytes
    pub marshalled : marshal (record o { signature = [] }) ≡ some payload
    pub signature_size : length o.signature ≡ 64
    pub verified : ed25519_verify key payload o.signature ≡ true

  verify_observation-IsSigned :
      (provider : Option KeyProvider) (o : Observation)
      → verify_observation marshal ed25519_verify provider o ≡ true
      → IsSigned provider o
  unfolding verify_observation ed25519_verifier signing_payload
  verify_observation-IsSigned none o h =
      elim (Option-cases (marshal (record o { signature = [] }))) [
        | inl e ↦ absurd (ground (arith, rw e at h))
        | inr (payload, e) ↦ absurd (ground (arith, rw e at h))
      ]
  verify_observation-IsSigned (some public_key) o h =
      elim (Option-cases (marshal (record o { signature = [] }))) [
        | inl e ↦ absurd (ground (arith, rw e at h))
        | inr (payload, e) ↦ elim (Option-cases (public_key o.agent_id)) [
          | inl k ↦ absurd (ground (arith, rw (e, k) at h))
          | inr (key, k) ↦
              let g = rw (e, k) at h in
              record {
                public_key = public_key;
                provided = refl;
                key = key;
                enrolled = k;
                key_size = ground (arith, g);
                payload = payload;
                marshalled = e;
                signature_size = ground (arith, g);
                verified = ground (arith, g);
              }
        ]
      ]

  -- With the verifier of NewEd25519Verifier, an observation is accepted only if the key provider is
  -- set and gives a key of 32 bytes for the observation's agent, and the observation's signature, of
  -- 64 bytes, passes ed25519.Verify under that key for what json.Marshal writes of the observation
  -- with no signature.
  pub accept_observation-IsSigned :
      (provider : Option KeyProvider) (cfg : ManagerConfig) (now : Time) (o : Observation)
      (m n : Manager) (a : AcceptedObservation)
      → accept_observation (verify_observation marshal ed25519_verify provider) cfg now o m
        ≡ (n, ok a)
      → IsSigned provider o
  accept_observation-IsSigned provider cfg now o m n a h =
      let q =
        accept_observation-found (verify_observation marshal ed25519_verify provider) cfg now o m n
          a h in
      verify_observation-IsSigned provider o q.admitted.verified
