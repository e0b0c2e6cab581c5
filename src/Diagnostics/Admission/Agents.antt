-- ===== src/Diagnostics/Admission/Agents.antt =====
-- normalizedAgentIDs: what it makes of the requested agents.
use xray_checker_modify.Base.{
  Bool, true, false, not, Option, none, some, List, [], ◌∷◌, ◌++◌, ◌≡◌, ◌⊎◌, refl, Text,
  text_eq_refl, if◌then◌else◌, all, arith, inl, inr, trim_space, member, distinct, distinct-append,
  all-append, member-append, none-ne-some, some-eq, length, length-append, ◌≤◌, ◌+◌,
}
use xray_checker_modify.Diagnostics.Validate.{valid_token}
use xray_checker_modify.Diagnostics.Admission.{normalize_from, normalized_agent_ids}

-- The list holds every ID that either list holds, and each of its IDs is in one of them.
record IsNormal (seen raws agents : List Text) : Type 0 where
  different : distinct agents ≡ true
  valid : all valid_token agents ≡ true
  kept : (t : Text) → member t seen ≡ true → member t agents ≡ true
  heard : all (λ raw. member (trim_space raw) agents) raws ≡ true
  few : length agents ≤ length seen + length raws

-- Which branch of a round a result comes from.
round :
    (good old : Bool) (skipped added : Option (List Text)) (agents : List Text)
    → (if not good then none else if old then skipped else added) ≡ some agents
    → (good ≡ true)
      × (((old ≡ true) × (skipped ≡ some agents)) ⊎ ((old ≡ false) × (added ≡ some agents)))
round false old skipped added agents h = absurd (none-ne-some agents h)
round true true skipped added agents h = (refl, inl (refl, h))
round true false skipped added agents h = (refl, inr (refl, h))

normalize_from-IsNormal :
    (seen raws agents : List Text)
    → distinct seen ≡ true
    → all valid_token seen ≡ true
    → normalize_from seen raws ≡ some agents
    → IsNormal seen raws agents
unfolding normalize_from
normalize_from-IsNormal seen [] agents d v h =
    rw (← some-eq seen agents h)
      record { different = d; valid = v; kept = λ t k. k; heard = refl; few = omega arith }
normalize_from-IsNormal seen (raw ∷ raws) agents d v h =
    let t = trim_space raw in
    let r =
      round (valid_token t) (member t seen) (normalize_from seen raws)
        (normalize_from (seen ++ t ∷ []) raws) agents h in
    elim r.1 [
      | inl (old, e) ↦
          let n = normalize_from-IsNormal seen raws agents d v e in
          record {
            different = n.different;
            valid = n.valid;
            kept = n.kept;
            heard = rw (n.kept t old) n.heard;
            few = omega (arith, n.few);
          }
      | inr (old, e) ↦
          let n =
            normalize_from-IsNormal (seen ++ t ∷ []) raws agents (distinct-append seen t d old)
              (all-append valid_token seen t v r.0) e in
          record {
            different = n.different;
            valid = n.valid;
            kept = λ u k. n.kept u (rw (member-append u t seen, k) refl);
            heard =
                rw (n.kept t (rw (member-append t t seen, text_eq_refl t) (ground arith))) n.heard;
            few = omega (arith, n.few, length-append seen (t ∷ []));
          }
    ]

-- When the agent IDs of a request are accepted, those that a session gets are valid tokens, all
-- different, and no more than were given, and the trimmed form of each given ID is among them.
pub normalized_agent_ids-different :
    (raws agents : List Text)
    → normalized_agent_ids raws ≡ some agents
    → (distinct agents ≡ true)
      × (all valid_token agents ≡ true)
      × (all (λ raw. member (trim_space raw) agents) raws ≡ true)
      × (length agents ≤ length raws)
unfolding normalized_agent_ids distinct
normalized_agent_ids-different raws agents h =
    let n = normalize_from-IsNormal [] raws agents refl refl h in
    (n.different, n.valid, n.heard, omega (arith, n.few))
