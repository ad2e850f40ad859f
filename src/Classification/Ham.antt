-- ===== src/Classification/Ham.antt =====
-- What `RspamdAdapter.classify` of src/mailarchive/classification.py takes for ham.
use Prim.Native.String.{◌++◌}
use mailarchive.Base.{
  ◌≡◌, ◌≢◌, ◌↔◌, refl, sym, ap, ◌∙◌, Bool, true, false, Option, none, some, String, [], ◌∷◌, str_eq,
  eq_iff, if◌then◌else◌,
}
use mailarchive.Classification.{
  ham, suspect, spam, Classification, ClassificationResult, Field, text, flag, number, other,
  Answer, timed_out, unavailable, undecodable, uncaught, not_object, object, is_member, text_prefix,
  result, failed, verdict_of, judged, verdict_result, scored, is_true, classify,
}

module _ {N F : Type 0} (lower : String → String) (float : N → Option F) where
  -- Rspamd answered with an object that is not marked as skipped, whose action is `no action`, and
  -- whose score is a number that has a floating-point value.
  pub record IsHam (answer : Answer N) (score : F) : Type 0 where
    pub data_at : String → Field N
    pub value : N
    pub answered : answer ≡ object data_at
    pub not_skipped : data_at "is_skipped" ≢ flag true
    pub no_action : data_at "action" ≡ text "no action"
    pub numeric : data_at "score" ≡ number value
    pub finite : float value ≡ some score

  some_same : (q r : ClassificationResult F) → ◌≡◌ {A = Option _} (some q) (some r) → q ≡ r
  some_same q r h = ap (λ o. elim o [ none ↦ q | some x ↦ x ]) h

  failed_not_ham :
      {C : Type 0} (reason : String) (r : ClassificationResult F)
      → ◌≡◌ {A = Option _} (some (failed reason)) (some r)
      → r.classification ≡ ham
      → C
  unfolding failed result
  failed_not_ham reason r h k =
      let e = ap (λ q. q.classification) (some_same (failed reason) r h) ∙ k in cc e

  no_action_text : text_prefix 256 ("rspamd-action:" ++ "no action") ≡ "rspamd-action:no action"
  unfolding text_prefix
  no_action_text = refl

  verdict_of-ham :
      (action : String) → verdict_of lower float action ≡ some ham → action ≡ "no action"
  unfolding verdict_of
  verdict_of-ham action h =
      by_tests (str_eq action "no action")
        (is_member (lower action) ("add header" ∷ "reject" ∷ "soft reject" ∷ "discard" ∷ []))
        (is_member (lower action) ("greylist" ∷ "rewrite subject" ∷ []))
        (eq_iff action "no action").0 h
    where
      by_tests :
          (no_action known_spam known_suspect : Bool)
          → (no_action ≡ true → action ≡ "no action")
          → (if no_action
              then some ham
              else if known_spam
              then some spam
              else if known_suspect
              then some suspect
              else none)
            ≡ some ham
          → action ≡ "no action"
      by_tests true b c k e = k refl
      by_tests false true c k e = cc e
      by_tests false false true k e = cc e
      by_tests false false false k e = cc e

  verdict_result-ham :
      (action : String) (score : F)
      → (verdict_result lower float action score).classification ≡ ham
      → (action ≡ "no action")
        × (verdict_result lower float action score
            ≡ result ham (some score) "rspamd-action:no action")
  unfolding verdict_result judged result
  verdict_result-ham action score h = by_verdict (verdict_of lower float action) refl h
    where
      by_verdict :
          (v : Option Classification)
          → verdict_of lower float action ≡ v
          → (judged v action score).classification ≡ ham
          → (action ≡ "no action")
            × (judged v action score ≡ result ham (some score) "rspamd-action:no action")
      by_verdict none e k = cc k
      by_verdict (some ham) e k =
          let same = verdict_of-ham action e in
          (
            same,
            ap (result ham (some score))
                (ap (λ a. text_prefix 256 ("rspamd-action:" ++ a)) same ∙ no_action_text),
          )
      by_verdict (some suspect) e k = cc k
      by_verdict (some spam) e k = cc k

  scored_ham :
      (action score : Field N) (r : ClassificationResult F)
      → scored lower float action score ≡ some r
      → r.classification ≡ ham
      → (value : N) × (f : F) × (action ≡ text "no action")
        × (score ≡ number value)
        × (float value ≡ some f)
        × (r ≡ result ham (some f) "rspamd-action:no action")
  unfolding scored
  scored_ham (text action) (number value) r h k = by_float (float value) refl h
    where
      by_float :
          (o : Option F)
          → float value ≡ o
          → (elim o [ none ↦ none | some score ↦ some (verdict_result lower float action score) ])
            ≡ some r
          → (n : N) × (f : F) × (◌≡◌ {A = Field N} (text action) (text "no action"))
            × (◌≡◌ {A = Field N} (number value) (number n))
            × (float n ≡ some f)
            × (r ≡ result ham (some f) "rspamd-action:no action")
      by_float none e h = cc h
      by_float (some f) e h =
          let same = some_same (verdict_result lower float action f) r h in
          let (named, shape) = verdict_result-ham action f (ap (λ q. q.classification) same ∙ k) in
          (value, f, ap text named, refl, e, sym same ∙ shape)
  scored_ham (text action) (text t) r h k = failed_not_ham _ r h k
  scored_ham (text action) (flag b) r h k = failed_not_ham _ r h k
  scored_ham (text action) other r h k = failed_not_ham _ r h k
  scored_ham (flag b) score r h k = failed_not_ham _ r h k
  scored_ham (number n) score r h k = failed_not_ham _ r h k
  scored_ham other score r h k = failed_not_ham _ r h k

  classify-ham :
      (answer : Answer N) (r : ClassificationResult F)
      → classify lower float answer ≡ some r
      → r.classification ≡ ham
      → (score : F) × (r ≡ result ham (some score) "rspamd-action:no action") × IsHam answer score
  unfolding classify is_true
  classify-ham timed_out r h k = failed_not_ham _ r h k
  classify-ham unavailable r h k = failed_not_ham _ r h k
  classify-ham undecodable r h k = failed_not_ham _ r h k
  classify-ham uncaught r h k = cc h
  classify-ham not_object r h k = failed_not_ham _ r h k
  classify-ham (object data_at) r h k = by_skip (is_true (data_at "is_skipped")) refl h
    where
      by_skip :
          (b : Bool)
          → is_true (data_at "is_skipped") ≡ b
          → (if b
              then some (failed "classifier-skipped")
              else scored lower float (data_at "action") (data_at "score"))
            ≡ some r
          → (score : F) × (r ≡ result ham (some score) "rspamd-action:no action")
            × IsHam (object data_at) score
      by_skip true e h = failed_not_ham _ r h k
      by_skip false e h =
          let (value, f, action, score, finite, shape) =
            scored_ham (data_at "action") (data_at "score") r h k in
          (
            f,
            shape,
            record {
              data_at = data_at;
              value = value;
              answered = refl;
              not_skipped = λ skipped. let clash = sym (ap is_true skipped) ∙ e in cc clash;
              no_action = action;
              numeric = score;
              finite = finite;
            },
          )

  not_skipped_lem : (v : Field N) → v ≢ flag true → is_true v ≡ false
  unfolding is_true
  not_skipped_lem (flag true) h = elim (h refl) [ ]
  not_skipped_lem (flag false) h = refl
  not_skipped_lem (text t) h = refl
  not_skipped_lem (number n) h = refl
  not_skipped_lem other h = refl

  scored_no_action :
      (value : N) (score : F)
      → float value ≡ some score
      → scored lower float (text "no action") (number value)
        ≡ some (result ham (some score) "rspamd-action:no action")
  unfolding scored verdict_result verdict_of judged
  scored_no_action value score h =
      ap (λ o. elim o [ none ↦ none | some f ↦ some (verdict_result lower float "no action" f) ]) h
      ∙ ap (λ reason. some (result ham (some score) reason)) no_action_text

  ham_classified :
      (answer : Answer N) (score : F)
      → IsHam answer score
      → classify lower float answer ≡ some (result ham (some score) "rspamd-action:no action")
  unfolding classify
  ham_classified answer score h =
      ap (classify lower float) h.answered
      ∙ ap
          (λ b.
            if b
            then some (failed "classifier-skipped")
            else scored lower float (h.data_at "action") (h.data_at "score"))
          (not_skipped_lem (h.data_at "is_skipped") h.not_skipped)
      ∙ ap (λ a. scored lower float a (h.data_at "score")) h.no_action
      ∙ ap (scored lower float (text "no action")) h.numeric
      ∙ scored_no_action h.value score h.finite

  -- Whatever `str.lower` and `float` do and whatever became of the request: a message is classified
  -- as ham, with a score, exactly where `IsHam` holds of the answer and that score. Every other
  -- answer is suspect or spam, or ends in an exception.
  pub classify_ham_iff :
      (answer : Answer N) (r : ClassificationResult F)
      → ((classify lower float answer ≡ some r) × (r.classification ≡ ham)) ↔ (
          (score : F) × (r ≡ result ham (some score) "rspamd-action:no action")
          × IsHam answer score)
  unfolding result
  classify_ham_iff answer r = (
    λ h. classify-ham answer r h.0 h.1,
    λ h.
        let (score, same, proven) = h in
        (ham_classified answer score proven ∙ ap some (sym same), ap (λ q. q.classification) same),
  )
