-- ===== src/Examples/Records.antt =====
-- Runs of the audit sink on small inputs.
use casper_prover.Prelude.{◌≡◌, List, [], ◌∷◌, String, some, none, refl, pos, str_eq}
use casper_prover.Prelude.Assoc.{Assoc, lookup, insert, delete}
use casper_prover.Audit.{
  Record, zero_record, new_sink, append, lineage, depth, Library, kept, redact_metadata,
}
use casper_prover.Audit.Ring.{Retaining, append_each, sink_retains}
use casper_prover.Audit.Lineage.{IsWhole, lineage-IsWhole}
use casper_prover.Examples.{toy_sha}

abbrev entry : String → String → Record
entry id parent = record zero_record { id = id; parent_record_id = parent }

abbrev three : List Record
three = entry "a" "" ∷ entry "b" "a" ∷ entry "c" "b" ∷ []

sink_retains_example : Retaining (append_each three (new_sink (pos 2)))
sink_retains_example = sink_retains (pos 2) three

accepted : (append (entry "d" "c") (append_each three (new_sink (pos 2)))).0 ≡ none
unfolding append lookup insert delete
accepted = refl

lineage-IsWhole_example :
    IsWhole
      (append_each three (new_sink (pos 2))).records
      (lineage "c" (pos 9) (append_each three (new_sink (pos 2))))
      "c"
      (depth (pos 9))
lineage-IsWhole_example = lineage-IsWhole "c" (pos 9) (append_each three (new_sink (pos 2)))

abbrev library : Library
library = record {
  sha = toy_sha;
  lower = λ s. s;
  contains = str_eq;
  bytes = λ _. [];
  runes = λ bs. bs;
  marshal = λ r. r.timestamp ∷ [];
}

abbrev metadata : Assoc String
metadata = ("token", "x") ∷ ("region", "eu") ∷ []

shown : lookup "region" (redact_metadata library metadata) ≡ some (kept "eu")
unfolding redact_metadata lookup
shown = refl
