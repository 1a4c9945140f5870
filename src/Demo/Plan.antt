-- ===== src/Demo/Plan.antt =====
-- The class and the expected status of a benchmark case agree.
use roborecon.Prelude.{◌≡◌, List, arith}
use roborecon.Enums.{ResultStatus}
use roborecon.Demo.{ScenarioTag, first_tag, scenario_class, expected_status}

-- The status that a class calls for.
abbrev pub status_of_class : ScenarioTag → ResultStatus
status_of_class ScenarioTag.missing_razorpay = ResultStatus.missing_razorpay
status_of_class ScenarioTag.missing_settlement = ResultStatus.missing_settlement
status_of_class ScenarioTag.missing_bank_credit = ResultStatus.missing_bank_credit
status_of_class ScenarioTag.duplicate = ResultStatus.duplicate
status_of_class ScenarioTag.amount_mismatch = ResultStatus.amount_mismatch
status_of_class ScenarioTag.ambiguous = ResultStatus.ambiguous
status_of_class _ = ResultStatus.matched

-- The expected status of a case is the one that its class calls for, whatever its tags are.
pub expected_status-scenario_class :
    (tags : List ScenarioTag) → expected_status tags ≡ status_of_class (scenario_class tags)
unfolding expected_status scenario_class first_tag
expected_status-scenario_class tags = ground arith
