-- ===== src/Classification.antt =====
-- The verdict of `RspamdAdapter.classify` in src/mailarchive/classification.py. `N` is the numbers
-- that a JSON text may hold, and `F` the floating-point numbers.
pub mod Ham
use Prim.Native.String.{◌++◌}
use mailarchive.Base.{
  ℕ, zero, suc, Bool, true, false, ◌&&◌, Option, none, some, String, List, [], ◌∷◌, str_eq,
  if◌then◌else◌,
}
use mailarchive.Base.Lists.{any}

-- `Classification`
pub data Classification : Type 0 where
  ham : Classification
  suspect : Classification
  spam : Classification

pub record ClassificationResult (F : Type 0) : Type 0 where
  pub classification : Classification
  pub score : Option F
  pub reason : String
  pub classifier : String
  pub classifier_version : Option String

-- What `dict.get` returns: the kinds of value that the code tells apart, a missing one among the
-- others.
pub data Field (N : Type 0) : Type 0 where
  text : String → Field N
  flag : Bool → Field N
  number : N → Field N
  other : Field N

-- What became of the request: an exception that is caught, by its handler, or another one; or the
-- decoded payload, as what it has under each key.
pub data Answer (N : Type 0) : Type 0 where
  timed_out : Answer N
  unavailable : Answer N
  undecodable : Answer N
  uncaught : Answer N
  not_object : Answer N
  object : (String → Field N) → Answer N

-- `parsed.scheme` and `parsed.hostname` of `urlparse` for an endpoint.
pub record Endpoint : Type 0 where
  pub scheme : String
  pub hostname : Option String

unfoldable pub is_member : String → List String → Bool
is_member value values = any (λ x. str_eq value x) values

-- `RspamdAdapter.__init__`: whether the endpoint is accepted.
unfoldable accepts_endpoint : Endpoint → Bool
unfolding is_member
accepts_endpoint parsed = str_eq parsed.scheme "http" && elim parsed.hostname [
  | none ↦ false
  | some host ↦ is_member host ("127.0.0.1" ∷ "::1" ∷ "localhost" ∷ [])
]

-- `value[:n]`
unfoldable pub text_prefix : ℕ → String → String
text_prefix zero value = ""
text_prefix (suc n) String.[] = ""
text_prefix (suc n) (String.◌∷◌ c rest) = String.◌∷◌ c (text_prefix n rest)

unfoldable pub result : {F : Type 0} → Classification → Option F → String → ClassificationResult F
result classification score reason = record {
  classification = classification;
  score = score;
  reason = reason;
  classifier = "rspamd";
  classifier_version = none;
}

unfoldable pub failed : {F : Type 0} → String → ClassificationResult F
unfolding result
failed reason = result suspect none reason

unfoldable pub judged : {F : Type 0} → Option Classification → String → F → ClassificationResult F
unfolding result text_prefix
judged none action score = result suspect (some score) "classifier-unknown-action"
judged (some verdict) action score =
    result verdict (some score) (text_prefix 256 ("rspamd-action:" ++ action))

unfoldable pub is_true : {N : Type 0} → Field N → Bool
is_true (flag b) = b
is_true value = false

-- `lower` is `str.lower`, and `float` is `float(…)`, `none` for `OverflowError`.
module _ {N F : Type 0} (lower : String → String) (float : N → Option F) where
  -- What an action means; `none` for an action that is not known.
  unfoldable pub verdict_of : String → Option Classification
  unfolding is_member
  verdict_of action =
      if str_eq action "no action"
      then some ham
      else if is_member (lower action) ("add header" ∷ "reject" ∷ "soft reject" ∷ "discard" ∷ [])
      then some spam
      else if is_member (lower action) ("greylist" ∷ "rewrite subject" ∷ [])
      then some suspect
      else none

  unfoldable pub verdict_result : String → F → ClassificationResult F
  unfolding judged verdict_of
  verdict_result action score = judged (verdict_of action) action score

  -- From the values of `action` and `score` on.
  unfoldable pub scored : Field N → Field N → Option (ClassificationResult F)
  unfolding verdict_result failed
  scored (text action) (number value) = elim (float value) [
    | none ↦ none
    | some score ↦ some (verdict_result action score)
  ]
  scored action score = some (failed "classifier-malformed-response")

  -- `RspamdAdapter.classify`; `none` is an exception.
  unfoldable pub classify : Answer N → Option (ClassificationResult F)
  unfolding failed is_true scored
  classify timed_out = some (failed "classifier-timeout")
  classify unavailable = some (failed "classifier-unavailable")
  classify undecodable = some (failed "classifier-malformed-response")
  classify uncaught = none
  classify not_object = some (failed "classifier-malformed-response")
  classify (object data_at) =
      if is_true (data_at "is_skipped")
      then some (failed "classifier-skipped")
      else scored (data_at "action") (data_at "score")
