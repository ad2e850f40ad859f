-- ===== src/Tests/Verdicts.antt =====
-- Answers of Rspamd.
use mailarchive.Base.{ℕ, ◌≡◌, ◌↔◌, refl, true, none, some, String}
use mailarchive.Classification.{
  ham, suspect, ClassificationResult, Field, text, flag, number, other, object, result, classify,
  failed, is_true,
}
use mailarchive.Classification.Ham.{IsHam, classify_ham_iff}
use mailarchive.Base.{if◌then◌else◌, str_eq}

abbrev plain : String → String
plain value = value

abbrev answer_to : String → Field ℕ
answer_to name =
    if str_eq name "action"
    then text "no action"
    else if str_eq name "score"
    then number 3
    else other

abbrev verdict : ClassificationResult ℕ
verdict = result ham (some 3) "rspamd-action:no action"

classify_ham_iff_example :
    ((classify plain some (object answer_to) ≡ some verdict) × (verdict.classification ≡ ham)) ↔ (
      (score : ℕ) × (verdict ≡ result ham (some score) "rspamd-action:no action")
      × IsHam plain some (object answer_to) score)
classify_ham_iff_example = classify_ham_iff plain some (object answer_to) verdict

abbrev skipped_at : String → Field ℕ
skipped_at name = if str_eq name "is_skipped" then flag true else answer_to name

skipped_suspect :
    classify plain some (object skipped_at)
    ≡ some (result {F = ℕ} suspect none "classifier-skipped")
unfolding classify failed is_true
skipped_suspect = refl
