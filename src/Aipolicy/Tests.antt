-- ===== src/Aipolicy/Tests.antt =====
-- The theorems about the policy engine at a concrete request.
use bongsu.Prelude.{◌≡◌, true, false}
use bongsu.Text.{codes}
use bongsu.Aipolicy.{auto, known, Request, Config, decide}
use bongsu.Aipolicy.Laws.{is_apply, decide-applies}

abbrev production : Request
production = record {
  typ = codes "triage.suppress";
  confidence = 950;
  suppressing = true;
  severity = codes "high";
  cvss_score = 75;
  known_exploited = false;
  environment = codes "production";
  criticality = codes "high";
}

abbrev in_auto : Config
in_auto = record { mode = known auto; min_confidence = 800; protect_production = true }

-- The mode auto applies what the protection of production puts before a person elsewhere.
decide-applies_example : is_apply (decide in_auto production).outcome ≡ true
unfolding decide
decide-applies_example = decide-applies in_auto production
