-- ===== src/Diagnostics/Signature.antt =====
-- diagnostics/signature.go: what an agent signs, and the verifier that the manager is given. What
-- json.Marshal writes, the keys that are enrolled and ed25519.Verify are parameters.
pub mod Accepted
use xray_checker_modify.Base.{
  ℕ, Bool, true, false, not, ◌||◌, Option, none, some, List, [], Text, ◌==◌, length, if◌then◌else◌,
}
use xray_checker_modify.Diagnostics.Types.{Observation}

-- A byte is a number below 256.
abbrev pub Bytes : Type 0
Bytes = List ℕ

-- The Boolean of the pair that the provider returns is whether there is a key.
abbrev pub KeyProvider : Type 0
KeyProvider = Text → Option Bytes

pub data Refusal : Type 0 where
  no_provider no_key bad_signature : Refusal

-- ed25519.PublicKeySize and ed25519.SignatureSize
abbrev pub public_key_size : ℕ
public_key_size = 32

abbrev pub signature_size : ℕ
signature_size = 64

module _ (marshal : Observation → Option Bytes)
    (ed25519_verify : Bytes → Bytes → Bytes → Bool) where
  -- ObservationSigningPayload
  unfoldable pub signing_payload : Observation → Option Bytes
  signing_payload o = marshal (record o { signature = [] })

  abbrev pub verify_with : Option Bytes → Bytes → Bytes → Option Refusal
  verify_with none payload signature = some no_key
  verify_with (some key) payload signature =
      if not (length key == public_key_size)
      then some no_key
      else if not (length signature == signature_size) || not (ed25519_verify key payload signature)
      then some bad_signature
      else none

  -- NewEd25519Verifier
  unfoldable pub ed25519_verifier : Option KeyProvider → Text → Bytes → Bytes → Option Refusal
  ed25519_verifier none agent payload signature = some no_provider
  ed25519_verifier (some public_key) agent payload signature =
      verify_with (public_key agent) payload signature

  abbrev pub passes : Option Refusal → Bool
  passes none = true
  passes (some r) = false

  abbrev pub verify_payload : Option KeyProvider → Observation → Option Bytes → Bool
  verify_payload public_key o none = false
  verify_payload public_key o (some payload) =
      passes (ed25519_verifier public_key o.agent_id payload o.signature)

  -- The check that AcceptObservation makes of the signature. A payload that json.Marshal cannot write
  -- refuses the observation too, there with an error of its own.
  unfoldable pub verify_observation : Option KeyProvider → Observation → Bool
  unfolding signing_payload ed25519_verifier
  verify_observation public_key o = verify_payload public_key o (signing_payload o)
