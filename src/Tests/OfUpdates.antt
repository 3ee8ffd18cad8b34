-- ===== src/Tests/OfUpdates.antt =====
-- Policies that are set and read back.
use ezcap.Base.Json.{Json}
use ezcap.Base.Result.{ok}
use ezcap.Base.{true, [], ◌∷◌, codes, ◌≡◌, arith}
use ezcap.Policy.Types.{Policy, domain_mask}
use ezcap.Policy.Engine.{initial, update_from_json, to_json}
use ezcap.Policy.Engine.Update.{
  IsBounded, SameRest, update_from_json-IsBounded, update_from_json-to_json,
}
use ezcap.Tests.Documents.{object, fields, one_document, one_document-JsonLaws}

abbrev library : Json
library = one_document (codes "{}") (object (fields [])) (codes "{}")

abbrev masking : Policy
masking = record initial {
  redaction_mode = domain_mask;
  sensitive_domains = codes "bank.com" ∷ [];
  persistence_enabled = true;
  retention = 3600;
}

masking-IsBounded : IsBounded masking
masking-IsBounded = record {
  few = omega arith;
  short = (omega arith, tt);
  at_least = omega arith;
  at_most = omega arith;
}

initial-IsBounded : IsBounded initial
initial-IsBounded = record {
  few = omega arith;
  short = tt;
  at_least = omega arith;
  at_most = omega arith;
}

read_back : update_from_json library initial (to_json library masking) ≡ ok masking
read_back =
    update_from_json-to_json library
      (one_document-JsonLaws (codes "{}") (object (fields [])) (codes "{}")) initial masking
      masking-IsBounded

update_from_json-to_json_example :
    update_from_json library initial (to_json library masking) ≡ ok masking
update_from_json-to_json_example =
    update_from_json-to_json library
      (one_document-JsonLaws (codes "{}") (object (fields [])) (codes "{}")) initial masking
      masking-IsBounded

update_from_json-IsBounded_example : IsBounded masking × SameRest initial masking
update_from_json-IsBounded_example =
    update_from_json-IsBounded library initial masking (to_json library masking) initial-IsBounded
      read_back
