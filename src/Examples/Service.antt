-- ===== src/Examples/Service.antt =====
-- Links, runs, pages and a validated response.
use roborecon.Prelude.{
  ℕ, ◌+◌, ◌*◌, ◌<◌, ◌≤◌, codes, text_eq, true, ◌≡◌, refl, ◌⊎◌, inl, Option, none, some, List, [],
  ◌∷◌, map, length, take, drop, Member, All,
}
use roborecon.Prelude.Int.{pos}
use roborecon.Prelude.Dict.{DistinctKeys, lookup}
use roborecon.Prelude.Result.{ok, err}
use roborecon.Enums.{ReconciliationStage, ResultStatus}
use roborecon.Engine.Model.{EngineOutcome}
use roborecon.Rows.{MatchLink}
use roborecon.Service.{InBatch, SourceTables, Snapshot, payment_source, id_eq, source_index}
use roborecon.Service.Links.{NewIds, result_links}
use roborecon.Service.Links.Keys.{same_link, IsLinkOf, result_links_sound, result_links-selected}
use roborecon.Service.Results.{ResultRow}
use roborecon.Service.Run.{ServiceTables, RunClock}
use roborecon.Razorpay.{Collection, page_limit, fetch_collection}
use roborecon.Razorpay.Pages.{fetch_collection-whole}
use roborecon.CloseBrief.{Citation, ExceptionContext, ProviderTheme, validate_provider_response}
use roborecon.CloseBrief.Coverage.{Covers, validate_provider_response-Covers}
use roborecon.Examples.{
  noon, evening, ledger, orders, payments, first_payment, refunds, settlements, lines, credits,
}

abbrev new_ids : NewIds
new_ids = record {
  run_id = 100;
  failed_run_id = 101;
  result_id = λ n. 200 + n;
  link_id = λ result source_type id. 1000 * result + id;
  exception_id = λ result. 300 + result;
  quarantine_id = λ id. 400 + id;
}

abbrev in_batch : {A : Type 0} → List A → List (InBatch A)
in_batch xs = map (λ x. record { batch_id = 7; content = x }) xs

abbrev pub source_tables : SourceTables
source_tables = record {
  ledger = in_batch ledger;
  orders = in_batch orders;
  payments = in_batch payments;
  refunds = in_batch refunds;
  settlements = in_batch settlements;
  lines = in_batch lines;
  credits = in_batch credits;
  quarantine = in_batch (71 ∷ []);
}

abbrev service_tables : ServiceTables
service_tables = record {
  sources = source_tables;
  runs = [];
  results = [];
  links = [];
  exceptions = [];
  audit = record { batches = 7 ∷ []; events = [] };
}

abbrev clock : RunClock
clock = record {
  started_at = noon;
  completed_at = evening;
  failed_at = evening;
  elapsed_ms = 40;
  failed_elapsed_ms = 0;
  logged = λ n. evening;
}

abbrev snapshot : Snapshot
snapshot = record {
  ledger = ledger;
  orders = orders;
  payments = payments;
  refunds = refunds;
  settlements = settlements;
  lines = lines;
  credits = credits;
  quarantine = [];
}

abbrev outcome : EngineOutcome
outcome = record {
  status = ResultStatus.matched;
  selected_ids = 11 ∷ 11 ∷ [];
  score = 100;
  runner_up_score = 0;
  margin = pos 100;
  evidence = [];
  candidates = [];
  autonomous = true;
  stage = some ReconciliationStage.ledger_to_razorpay;
}

abbrev result_row : ResultRow
result_row = record {
  id = 200;
  run_id = 100;
  batch_id = 7;
  stage = ReconciliationStage.ledger_to_razorpay;
  status = ResultStatus.matched;
  primary_source_type = codes "ledger";
  primary_source_id = some 1;
  amount = some (pos 500);
  currency = none;
  score = 100;
  runner_up_score = 0;
  margin = pos 100;
  autonomous = true;
  selected_ids = 11 ∷ 11 ∷ [];
  evidence = [];
  candidates = [];
}

result_links_sound_example :
    DistinctKeys same_link
      (λ l. l)
      (result_links new_ids (source_index snapshot) result_row outcome)
    × All
        (IsLinkOf result_row outcome snapshot)
        (result_links new_ids (source_index snapshot) result_row outcome)
result_links_sound_example = result_links_sound new_ids snapshot result_row outcome

first_payment_found : lookup id_eq 11 (source_index snapshot) ≡ some (payment_source first_payment)
unfolding lookup source_index
first_payment_found = refl

result_links-selected_example :
    (l : MatchLink) × Member l (result_links new_ids (source_index snapshot) result_row outcome)
    × (l.source_type ≡ codes "razorpay_payment")
    × (l.source_id ≡ 11)
result_links-selected_example =
    result_links-selected new_ids snapshot result_row outcome 11 (payment_source first_payment)
      (inl refl) first_payment_found

-- a provider of five items, in pages of two
abbrev provided : List ℕ
provided = 1 ∷ 2 ∷ 3 ∷ 4 ∷ 5 ∷ []

abbrev answer : ℕ → ℕ → Option (Collection ℕ)
answer count skip = some (record {
  count = length (take count (drop skip provided));
  items = take count (drop skip provided);
})

fetch_collection-whole_example :
    ((5 < 2 * 3) × (fetch_collection answer 2 3 ≡ ok provided))
    ⊎ ((2 * 3 ≤ 5) × (fetch_collection answer 2 3 ≡ err page_limit))
fetch_collection-whole_example = fetch_collection-whole answer provided (λ count skip. refl) 2 3

abbrev citation : ℕ → Option ℕ → Citation
citation id source_id = record {
  exception_id = id;
  source_type = some (codes "ledger");
  source_id = source_id;
}

abbrev context : ℕ → ExceptionContext
context id = record {
  exception_id = id;
  exception_type = codes "ambiguous";
  stage = none;
  status = codes "open";
  amount = pos 500;
  message = [];
  rule_codes = [];
  contradiction_codes = [];
  citations = citation id (some (10 + id)) ∷ [];
}

abbrev theme : List ℕ → Citation → ProviderTheme
theme ids c = record {
  title = codes "t";
  summary = codes "s";
  exception_ids = ids;
  review_action = codes "r";
  citations = c ∷ [];
}

abbrev contexts : List ExceptionContext
contexts = context 1 ∷ context 2 ∷ context 3 ∷ []

abbrev themes : List ProviderTheme
themes = theme (3 ∷ 1 ∷ []) (citation 1 (some 11)) ∷ theme (2 ∷ []) (citation 2 none) ∷ []

validated_test : validate_provider_response (some themes) contexts ≡ ok themes
unfolding validate_provider_response text_eq
validated_test = refl

validate_provider_response-Covers_example : Covers (some themes) contexts themes
validate_provider_response-Covers_example =
    validate_provider_response-Covers (some themes) contexts themes validated_test
