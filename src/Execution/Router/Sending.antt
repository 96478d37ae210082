-- ===== src/Execution/Router/Sending.antt =====
-- Which orders reach the exchange.
use hta.Common.{
  String, ◌≡◌, refl, sym, subst, if◌then◌else◌, ◌∙◌, ◌⊎◌, inl, inr, true, false, Option, none, some,
  List, [], ◌∷◌, ◌++◌, arith, Bool-cases, Option-cases,
}
use mathlib.Core.List.{append_assoc, append-nil}
use hta.Formatted.{Text}
use hta.Dict.{number_key}
use hta.Risk.Types.{Decision, approved, rejected, OrderIntent}
use hta.Risk.Manager.{check_order}
use hta.Strategies.Target.{TargetPosition}
use hta.Execution.Tracker.{get_position}
use hta.Execution.RouterState.{Request, Router, Market, logs, order_blocked}
use hta.Execution.Sizing.{Delta, no_quote, no_order, order, compute_delta}
use hta.Execution.Router.{
  build_account_state, request_of, resting, would_take, improved, recorded, retry,
  send_alo_with_retry, intent_of, submit_intent, act, submit_target,
}

-- The requests of one call for the intent i: the first, and a second with the improved price exactly if
-- the first was turned down because it would have taken.
abbrev pub attempts : Market → OrderIntent → List Request
attempts m i = request_of i ∷ elim (resting (m.submit_alo (request_of i))) [
  | some _ ↦ []
  | none ↦ elim (would_take (m.submit_alo (request_of i))) [
    | true ↦ request_of (improved m i) ∷ []
    | false ↦ []
  ]
]

retry-sent :
    (m : Market) (i : OrderIntent) (e : Option String) (r : Router)
    → (retry m i e r).sent ≡ r.sent ++ request_of (improved m i) ∷ []
unfolding retry recorded
retry-sent m i e r = ground arith

send_alo_with_retry-sent :
    (m : Market) (i : OrderIntent) (r : Router)
    → (send_alo_with_retry m i r).sent ≡ r.sent ++ attempts m i
unfolding send_alo_with_retry recorded
send_alo_with_retry-sent m i r = elim (Option-cases (resting (m.submit_alo (request_of i)))) [
  | inr (oid, e) ↦ rw (e, send_alo_with_retry)
  | inl e ↦ elim (Bool-cases (would_take (m.submit_alo (request_of i)))) [
    | inl w ↦
        rw (e, w, send_alo_with_retry)
          (retry-sent m i _ _
            ∙ append_assoc r.sent (request_of i ∷ []) (request_of (improved m i) ∷ []))
    | inr w ↦ rw (e, w, send_alo_with_retry)
  ]
]

Decision-cases :
    (d : Decision)
    → (d ≡ approved) ⊎ ((code : String) × (reason : Text) × (d ≡ rejected code reason))
Decision-cases approved = inl refl
Decision-cases (rejected code reason) = inr (code, reason, refl)

-- The requests for an intent: its attempts if `check_order` approves it on the account in the cache.
unfoldable pub approved_attempts : Market → Router → OrderIntent → List Request
approved_attempts m r i = elim (check_order i (build_account_state m r)) [
  | approved ↦ attempts m i
  | rejected code reason ↦ []
]

-- The requests for what it takes to reach the target.
abbrev pub requests : Market → Router → TargetPosition → String → Delta → List Request
requests m r target strategy no_quote = []
requests m r target strategy no_order = []
requests m r target strategy (order side size price reduce_only) =
    approved_attempts m r (intent_of target strategy side size price reduce_only)

submit_intent-sent :
    (m : Market) (i : OrderIntent) (r : Router)
    → (submit_intent m i r).sent ≡ r.sent ++ approved_attempts m r i
unfolding submit_intent approved_attempts
submit_intent-sent m i r = elim (Decision-cases (check_order i (build_account_state m r))) [
  | inl e ↦ rw (e, submit_intent, approved_attempts) (send_alo_with_retry-sent m i _)
  | inr (code, reason, e) ↦ rw (e, submit_intent, approved_attempts) (sym (append-nil r.sent))
]

act-sent :
    (m : Market) (target : TargetPosition) (strategy : String) (d : Delta) (r : Router)
    → (act m target strategy d r).sent ≡ r.sent ++ requests m r target strategy d
unfolding act
act-sent m target strategy no_quote r = sym (append-nil r.sent)
act-sent m target strategy no_order r = sym (append-nil r.sent)
act-sent m target strategy (order side size price reduce_only) r =
    submit_intent-sent m (intent_of target strategy side size price reduce_only) r

-- What a call sends to the exchange: nothing while the kill switch is set; otherwise exactly the
-- attempts for the one order that takes the cached position to the target, if one is needed and
-- `check_order` approves it, and nothing if not.
pub submit_target-sent :
    (m : Market) (target : TargetPosition) (strategy : String) (r : Router)
    → (submit_target m target strategy r).sent
      ≡ r.sent
        ++ (if m.halted
            then []
            else requests m r target strategy
                (compute_delta m target (get_position m.tracker target.symbol)))
unfolding submit_target
submit_target-sent m target strategy r =
    let d = compute_delta m target (get_position m.tracker target.symbol) in
    elim (Bool-cases m.halted) [
      | inl h ↦ rw h (sym (append-nil r.sent))
      | inr h ↦
          subst
            (λ b.
              (if b then logs r (order_blocked target.symbol) else act m target strategy d r).sent
              ≡ r.sent ++ (if b then [] else requests m r target strategy d))
            (sym h) (act-sent m target strategy d r)
    ]
