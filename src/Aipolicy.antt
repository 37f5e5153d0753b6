-- ===== src/Aipolicy.antt =====
-- internal/server/aipolicy/aipolicy.go: the decision whether an action that the AI proposes is
-- applied, queued for a person, or denied. A confidence is a number of thousandths and a
-- CVSS score one of tenths, neither negative nor NaN: the code only compares them.
pub mod Laws
mod Tests
use bongsu.Prelude.{ℕ, Bool, true, false, not, ◌&&◌, ◌||◌, [], ◌∷◌, ltb, leb, if◌then◌else◌}
use bongsu.Text.{Bytes, codes, equal, equal_fold, trim_space, to_lower}

pub data Mode : Type 0 where
  off suggest assisted auto : Mode

-- A configuration that does not come from `NormalizeMode` may hold any string: the last case.
pub data ModeText : Type 0 where
  known : Mode → ModeText
  unknown : ModeText

pub data Verdict : Type 0 where
  allow ask deny : Verdict

pub data Outcome : Type 0 where
  apply queue none : Outcome

pub record Request : Type 0 where
  pub typ : Bytes
  pub confidence : ℕ
  pub suppressing : Bool
  pub severity : Bytes
  pub cvss_score : ℕ
  pub known_exploited : Bool
  pub environment : Bytes
  pub criticality : Bytes

pub record Decision : Type 0 where
  pub verdict : Verdict
  pub outcome : Outcome
  pub rule : Bytes
  pub reason : Bytes

pub record Config : Type 0 where
  pub mode : ModeText
  pub min_confidence : ℕ
  pub protect_production : Bool

unfoldable pub normalize_mode : Bytes → Mode
unfolding trim_space to_lower equal
normalize_mode s =
    let name = to_lower (trim_space s) in
    if equal name (codes "off")
    then off
    else if equal name (codes "assisted")
    then assisted
    else if equal name (codes "auto")
    then auto
    else suggest

unfoldable pub is_critical : Bytes → ℕ → Bool
unfolding equal_fold trim_space
is_critical severity cvss = equal_fold (trim_space severity) (codes "critical") || leb 90 cvss

-- The switch of `resolveOutcome`.
abbrev pub resolve_in : ModeText → Verdict → Outcome
resolve_in (known assisted) allow = apply
resolve_in (known assisted) _ = queue
resolve_in (known auto) v = apply
resolve_in _ v = none

unfoldable pub resolve_outcome : Config → Verdict → Outcome
resolve_outcome cfg v = resolve_in cfg.mode v

abbrev pub is_off : ModeText → Bool
is_off (known off) = true
is_off _ = false

-- The condition of the escalation to a person.
unfoldable pub protects : Config → Request → Bool
unfolding equal_fold trim_space
protects cfg req =
    cfg.protect_production
    && req.suppressing
    && equal_fold (trim_space req.environment) (codes "production")
    && equal_fold (trim_space req.criticality) (codes "high")

-- The last part of `Decide`: what the rules leave is allowed or asked for.
unfoldable pub ruled : Config → Request → Decision
unfolding protects resolve_outcome
ruled cfg req =
    if protects cfg req
    then record {
      verdict = ask;
      outcome = resolve_outcome cfg ask;
      rule = codes "protect_production";
      reason = codes "production high-criticality host requires human approval";
    }
    else record {
      verdict = allow;
      outcome = resolve_outcome cfg allow;
      rule = codes "allow";
      reason = codes "within auto-action policy";
    }

unfoldable pub decide : Config → Request → Decision
unfolding is_critical ruled
decide cfg req =
    if is_off cfg.mode
    then record {
      verdict = deny;
      outcome = none;
      rule = codes "mode_off";
      reason = codes "AI action mode is off";
    }
    else if req.suppressing && (req.known_exploited || is_critical req.severity req.cvss_score)
    then record {
      verdict = deny;
      outcome = none;
      rule = codes "safety_critical";
      reason = codes "known-exploited or critical/high-CVSS findings require human review";
    }
    else if ltb 0 cfg.min_confidence && ltb req.confidence cfg.min_confidence
    then record {
      verdict = deny;
      outcome = none;
      rule = codes "low_confidence";
      reason = codes "confidence below the configured threshold";
    }
    else ruled cfg req
