-- ===== src/Aipolicy/Laws.antt =====
-- What the decisions of the policy engine keep to.
use bongsu.Prelude.{
  ◌≡◌, ◌∙◌, ℕ, leb, refl, Bool, true, false, not, ◌&&◌, ◌||◌, arith, ltb, if◌then◌else◌,
}
use bongsu.Text.{Bytes, codes, equal, equal_fold, trim_space, to_lower}
use bongsu.Aipolicy.{
  off, suggest, assisted, auto, ModeText, known, unknown, allow, ask, Outcome, apply, queue,
  Request, Config, is_critical, resolve_in, resolve_outcome, is_off, protects, ruled, decide,
}

abbrev pub is_apply : Outcome → Bool
is_apply apply = true
is_apply _ = false

abbrev pub is_queue : Outcome → Bool
is_queue queue = true
is_queue _ = false

-- A finding that may not be silenced without a person.
abbrev pub is_serious : Request → Bool
is_serious req = req.known_exploited || is_critical req.severity req.cvss_score

abbrev pub is_confident : Config → Request → Bool
is_confident cfg req = not (ltb 0 cfg.min_confidence && ltb req.confidence cfg.min_confidence)

-- The requests that no rule denies.
abbrev pub passes : Config → Request → Bool
passes cfg req = not (req.suppressing && is_serious req) && is_confident cfg req

-- What each mode applies of them, and what it puts before a person.
abbrev pub applies : ModeText → Bool → Bool
applies (known auto) protected = true
applies (known assisted) protected = not protected
applies _ protected = false

abbrev pub queues : ModeText → Bool → Bool
queues (known assisted) protected = protected
queues _ protected = false

resolve_applies :
    (m : ModeText) (protected : Bool)
    → is_apply (if protected then resolve_in m ask else resolve_in m allow) ≡ applies m protected
resolve_applies (known off) protected = ground arith
resolve_applies (known suggest) protected = ground arith
resolve_applies (known assisted) protected = ground arith
resolve_applies (known auto) protected = ground arith
resolve_applies unknown protected = ground arith

resolve_queues :
    (m : ModeText) (protected : Bool)
    → is_queue (if protected then resolve_in m ask else resolve_in m allow) ≡ queues m protected
resolve_queues (known off) protected = ground arith
resolve_queues (known suggest) protected = ground arith
resolve_queues (known assisted) protected = ground arith
resolve_queues (known auto) protected = ground arith
resolve_queues unknown protected = ground arith

off_does_nothing :
    (m : ModeText) (protected : Bool)
    → is_off m ≡ true
    → (applies m protected ≡ false) × (queues m protected ≡ false)
off_does_nothing (known off) protected h = (refl, refl)
off_does_nothing (known suggest) protected h = (refl, refl)
off_does_nothing (known assisted) protected h = absurd (ground (arith, h))
off_does_nothing (known auto) protected h = absurd (ground (arith, h))
off_does_nothing unknown protected h = (refl, refl)

-- The text is the word, up to white space around it and the case of its letters.
abbrev pub says : Bytes → Bytes → Bool
says text word = equal (to_lower (trim_space text)) word

-- What the documentation of the engine lets through: a request that is confident enough, that does
-- not silence a finding known to be exploited, of a score of 9 or more or called critical, in the
-- mode auto, or in the mode assisted when it silences nothing on a host of production with a
-- high criticality that is to be protected.
abbrev pub runs_alone : ModeText → Bool → Bool
runs_alone (known auto) guarded = true
runs_alone (known assisted) guarded = not guarded
runs_alone _ guarded = false

abbrev pub is_let_through : Config → Request → Bool
is_let_through cfg req =
    leb cfg.min_confidence req.confidence
    && (not req.suppressing
        || (not req.known_exploited
            && ltb req.cvss_score 90
            && not (says req.severity (codes "critical"))))
    && runs_alone cfg.mode (
        req.suppressing
        && says req.criticality (codes "high")
        && says req.environment (codes "production")
        && cfg.protect_production)

protects_lem :
    (cfg : Config) (req : Request)
    → protects cfg req ≡ (
        req.suppressing
        && says req.criticality (codes "high")
        && says req.environment (codes "production")
        && cfg.protect_production)
unfolding protects equal_fold to_lower equal
protects_lem cfg req = ground arith

is_critical_lem :
    (severity : Bytes) (cvss : ℕ)
    → is_critical severity cvss ≡ not (ltb cvss 90 && not (says severity (codes "critical")))
unfolding is_critical equal_fold to_lower equal
is_critical_lem severity cvss = ground arith

applies-runs_alone : (m : ModeText) (guarded : Bool) → applies m guarded ≡ runs_alone m guarded
applies-runs_alone (known off) guarded = refl
applies-runs_alone (known suggest) guarded = refl
applies-runs_alone (known assisted) guarded = refl
applies-runs_alone (known auto) guarded = refl
applies-runs_alone unknown guarded = refl

passes_lem :
    (cfg : Config) (req : Request)
    → passes cfg req ≡ (
        leb cfg.min_confidence req.confidence
        && (not req.suppressing
            || (not req.known_exploited
                && ltb req.cvss_score 90
                && not (says req.severity (codes "critical")))))
passes_lem cfg req = rw (is_critical_lem req.severity req.cvss_score) (ground arith)

-- What the rules deny is not applied, and of the rest the mode decides.
pub outcome-applies :
    (cfg : Config) (req : Request)
    → is_apply (decide cfg req).outcome ≡ (passes cfg req && applies cfg.mode (protects cfg req))
unfolding decide ruled resolve_outcome
outcome-applies cfg req = ground (
  arith,
  resolve_applies cfg.mode (protects cfg req),
  λ (h : is_off cfg.mode ≡ true). (off_does_nothing cfg.mode (protects cfg req) h).0,
)

-- `Decide` applies an action exactly when its confidence is not below the threshold; it does not
-- suppress, or the finding is not known to be exploited, has a score below 9.0 and is not of the
-- severity critical; and the mode is auto, or it is assisted and one of these holds: the action
-- does not suppress, production is not protected, or the host is not of the environment
-- production with the criticality high. The texts count up to their case and the white space
-- around them.
pub decide-applies :
    (cfg : Config) (req : Request) → is_apply (decide cfg req).outcome ≡ is_let_through cfg req
decide-applies cfg req =
    outcome-applies cfg req
    ∙ rw
        (
          passes_lem cfg req,
          protects_lem cfg req,
          applies-runs_alone cfg.mode (
              req.suppressing
              && says req.criticality (codes "high")
              && says req.environment (codes "production")
              && cfg.protect_production),
        )
        (ground arith)

-- `Decide` queues an action for a person exactly when it does not suppress a known-exploited or
-- critical finding, its confidence is not below the threshold, the mode is assisted, and the
-- protection of production holds.
pub decide-queues :
    (cfg : Config) (req : Request)
    → is_queue (decide cfg req).outcome ≡ (passes cfg req && queues cfg.mode (protects cfg req))
unfolding decide ruled resolve_outcome
decide-queues cfg req = ground (
  arith,
  resolve_queues cfg.mode (protects cfg req),
  λ (h : is_off cfg.mode ≡ true). (off_does_nothing cfg.mode (protects cfg req) h).1,
)
