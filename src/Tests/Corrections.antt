-- ===== src/Tests/Corrections.antt =====
-- Runs of the critic's corrections.
use veritext.Prelude.{
  ◌≡◌, ◌≢◌, refl, Text, none, some, [], codes, ok, Error, list_eq, nat_eq, encode,
}
use veritext.Contracts.Candidates.{validate_lens_candidate}
use veritext.Critic.Corrections.{
  CompactCorrection, correction_rejection_reasons, materialize_correction,
}
use veritext.Critic.Corrections.Laws.{
  Keeps, correction_rejection_reasons-Keeps, materialize_correction-value,
}
use veritext.Tests.Data.{listed, page, plan, same_text}

abbrev no_text : Error → Text
no_text e = []

-- The value of a candidate that the executor made, corrected to another text of the chunk.
abbrev to_nine : CompactCorrection
to_nine = record {
  value = some (codes "9");
  category = none;
  field_name = none;
  span_start_char = some 7;
  span_text = some (codes "9");
}

listed_valid : validate_lens_candidate listed ≡ ok listed
unfolding validate_lens_candidate
listed_valid = refl

nine≢five : codes "9" ≢ codes "5"
nine≢five e = cc

materialize_correction-value_example :
    (materialize_correction no_text (some to_nine) listed page).0 ≡ none
materialize_correction-value_example =
    materialize_correction-value no_text to_nine listed page (codes "9") listed_valid tt refl
      nine≢five

kept : correction_rejection_reasons same_text plan page listed listed ≡ []
unfolding correction_rejection_reasons encode
kept = refl

correction_rejection_reasons-Keeps_example : Keeps same_text plan page listed listed
correction_rejection_reasons-Keeps_example =
    correction_rejection_reasons-Keeps same_text plan page listed listed kept
