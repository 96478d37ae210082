-- ===== src/Dashboard/Auth/Gate.antt =====
-- src/dashboard_api/auth.py: who gets in.
use Prim.Native.String.{◌++◌}
use mathlib.Core.Option.{some_inj}
use hta.Common.{
  String, ◌≡◌, ◌↔◌, refl, sym, ap, subst, ◌∙◌, Bool, true, false, Option, none, some, same_iff,
  arith, Bool-cases, Option-cases, inl, inr, if◌then◌else◌,
}
use hta.Strings.{after_prefix, is_empty_text, after_prefix-append, append-after_prefix}
use hta.Dashboard.Auth.{
  get_expected_token, constant_time_match, validate_token_or_raise, bearer_token, require_token,
}

-- The environment has the token, which is not empty.
abbrev pub IsToken : Option String → String → Type 0
IsToken env token = (env ≡ some token) × (is_empty_text token ≡ false)

match_iff :
    (env : Option String) (token : String)
    → (constant_time_match token (get_expected_token env) ≡ true) ↔ IsToken env token
unfolding constant_time_match get_expected_token is_empty_text
match_iff none token = ground arith
match_iff (some expected) token = elim (Bool-cases (is_empty_text expected)) [
  | inl e ↦ (
    λ h. absurd (ground (arith, rw (e, constant_time_match) at h)),
    λ h. absurd (ground (arith, sym e ∙ ap is_empty_text (some_inj.0 h.0) ∙ h.1)),
  )
  | inr e ↦ (
    λ h.
        let found : token ≡ expected =
          (same_iff token expected).0 (rw (e, constant_time_match) at h) in
        (ap (λ t. some t) (sym found), ap is_empty_text found ∙ e),
    λ h. rw (e, constant_time_match) ((same_iff token expected).1 (sym (some_inj.0 h.0))),
  )
]

passes_iff :
    (passed : Bool) (detail : String)
    → ((if passed then none else some detail) ≡ none) ↔ (passed ≡ true)
passes_iff true detail = (λ h. refl, λ h. refl)
passes_iff false detail = (λ h. absurd (ground (arith, h)), λ h. absurd (ground (arith, h)))

require_token_iff :
    (env header : Option String)
    → (require_token env header ≡ none)
      ↔ ((token : String) × IsToken env token × (header ≡ some ("Bearer " ++ token)))
unfolding require_token bearer_token
require_token_iff env none = (λ h. absurd (ground (arith, h)), λ h. absurd (ground (arith, h.2)))
require_token_iff env (some text) = elim (Option-cases (after_prefix "Bearer " text)) [
  | inl e ↦
      rw (e, require_token)
        (
          λ h. absurd (ground (arith, h)),
          λ h. absurd (
              ground (
                arith,
                sym e
                    ∙ ap (after_prefix "Bearer ") (some_inj.0 h.2)
                    ∙ after_prefix-append "Bearer " h.0,
              )),
        )
  | inr (given, e) ↦
      rw (e, require_token)
        (
          λ h. (
            given,
            (match_iff env given).0 (
                (passes_iff (constant_time_match given (get_expected_token env))
                    "invalid bearer token").0
                  h),
            ap (λ t. some t) (append-after_prefix "Bearer " text given e),
          ),
          λ h.
              let found : h.0 ≡ given = some_inj.0 (
                sym (after_prefix-append "Bearer " h.0)
                ∙ ap (after_prefix "Bearer ") (sym (some_inj.0 h.2))
                ∙ e) in
              (passes_iff (constant_time_match given (get_expected_token env))
                  "invalid bearer token").1
                ((match_iff env given).1 (subst (IsToken env) found h.1)),
        )
]

validate-IsToken_iff :
    (env provided : Option String)
    → (validate_token_or_raise env provided ≡ none)
      ↔ ((token : String) × IsToken env token × (provided ≡ some token))
unfolding validate_token_or_raise
validate-IsToken_iff env none = (λ h. absurd (ground (arith, h)), λ h. absurd (ground (arith, h.2)))
validate-IsToken_iff env (some given) = (
  λ h. (
    given,
    (match_iff env given).0 (
        (passes_iff (constant_time_match given (get_expected_token env))
            "invalid or missing token").0
          h),
    refl,
  ),
  λ h.
      (passes_iff (constant_time_match given (get_expected_token env)) "invalid or missing token").1
        ((match_iff env given).1 (subst (IsToken env) (sym (some_inj.0 h.2)) h.1)),
)

-- A request passes the REST gate exactly if its header is "Bearer " and the token of the environment, and a
-- socket passes exactly if it gives that token; without a token in the environment, or with an empty one,
-- neither passes.
pub gate_iff :
    (env header provided : Option String)
    → ((require_token env header ≡ none)
        ↔ ((token : String) × IsToken env token × (header ≡ some ("Bearer " ++ token))))
      × ((validate_token_or_raise env provided ≡ none)
          ↔ ((token : String) × IsToken env token × (provided ≡ some token)))
gate_iff env header provided = (require_token_iff env header, validate-IsToken_iff env provided)
