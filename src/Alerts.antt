-- ===== src/Alerts.antt =====
-- internal/alerts/alerts.go: the rules that an activity fires, the cooldown, the circuit breaker and the
-- delivery. Times are arguments; the key "rule:issue" of the cooldown map is the pair of the two numbers.
use leser.Prelude.{
  ℕ, zero, suc, ◌+◌, ◌-◌, Bool, true, false, not, ◌&&◌, ◌||◌, Option, none, some, List, [], ◌∷◌,
  ◌++◌, String, length, drop, ltb, leb, ◌==◌, if◌then◌else◌,
}
use leser.Prelude.Dict.{Dict, lookup, insert}
use leser.Prelude.Sorting.{keep}
pub mod Cooldown
pub mod Delivery
pub mod Breaker
mod Tests

-- CondNewIssue, CondRegression, CondFrequency, and any other text
pub data Condition : Type 0 where
  new_issue regression frequency unknown : Condition

pub record Rule : Type 0 where
  pub id : ℕ
  pub name : String
  pub condition : Condition
  pub threshold : ℕ
  pub webhook_url : String

pub record IssueActivity : Type 0 where
  pub project_id : ℕ
  pub issue_id : ℕ
  pub is_new : Bool
  pub regressed : Bool
  pub times_seen : ℕ

pub record Options : Type 0 where
  pub queue_depth : ℕ
  pub cooldown : ℕ
  pub max_attempts : ℕ
  pub breaker_fails : ℕ
  pub breaker_reset : ℕ

pub record Notification : Type 0 where
  pub rule : Rule
  pub act : IssueActivity

pub record Fired : Type 0 where
  pub rule_id : ℕ
  pub issue_id : ℕ
  pub last : ℕ

-- The zero time of a closed breaker is 0.
pub record BreakerState : Type 0 where
  pub fails : ℕ
  pub open_until : ℕ

pub data DeliveryError : Type 0 where
  breaker_open post_failed : DeliveryError

pub record DeadLetter : Type 0 where
  pub note : Notification
  pub error : DeliveryError
  pub at : ℕ

pub record Engine : Type 0 where
  pub opts : Options
  pub queue : List Notification
  pub cooldown : List Fired
  pub breaker : Dict BreakerState
  pub dead : List DeadLetter
  pub delivered : ℕ
  pub dropped : ℕ

unfoldable pub matches : Rule → IssueActivity → Bool
matches r act = elim r.condition [
  | new_issue ↦ act.is_new
  | regression ↦ act.regressed
  | frequency ↦ ltb 0 r.threshold && (act.times_seen == r.threshold)
  | unknown ↦ false
]

-- e.cooldown[key]
abbrev pub same_key : ℕ → ℕ → Fired → Bool
same_key rule issue f = (f.rule_id == rule) && (f.issue_id == issue)

unfoldable pub last_fired : ℕ → ℕ → List Fired → Option ℕ
last_fired rule issue [] = none
last_fired rule issue (f ∷ fired) =
    let rest = last_fired rule issue fired in if same_key rule issue f then some f.last else rest

unfoldable pub within_cooldown : ℕ → ℕ → Option ℕ → Bool
within_cooldown window now none = false
within_cooldown window now (some last) = ltb (now - last) window

-- The sweep of a large map
unfoldable pub sweep : ℕ → ℕ → List Fired → List Fired
sweep window now fired =
    if ltb 100000 (length fired) then keep (λ f. leb (now - f.last) window) fired else fired

unfoldable pub set_fired : ℕ → ℕ → ℕ → List Fired → List Fired
set_fired rule issue now fired =
    record { rule_id = rule; issue_id = issue; last = now }
    ∷ keep (λ f. not (same_key rule issue f)) fired

-- cooldownOK, with the engine after it
unfoldable pub cooldown_ok : ℕ → ℕ → ℕ → Engine → Bool × Engine
cooldown_ok now rule issue e =
    if within_cooldown e.opts.cooldown now (last_fired rule issue e.cooldown) then (false, e) else (
      true,
      record e { cooldown = set_fired rule issue now (sweep e.opts.cooldown now e.cooldown) },
    )

-- The select of Evaluate: a full queue drops the notification, and counts it.
unfoldable pub enqueue : Notification → Engine → Engine
enqueue n e =
    if ltb (length e.queue) e.opts.queue_depth
    then record e { queue = e.queue ++ n ∷ [] }
    else record e { dropped = e.dropped + 1 }

unfoldable pub evaluate_rule : ℕ → IssueActivity → Rule → Engine → Engine
evaluate_rule now act r e =
    if not (matches r act)
    then e
    else (let c = cooldown_ok now r.id act.issue_id e in
        if c.0 then enqueue (record { rule = r; act = act }) c.1 else c.1)

-- Evaluate, on the rules that are enabled for the project
unfoldable pub evaluate : ℕ → IssueActivity → List Rule → Engine → Engine
evaluate now act [] e = e
evaluate now act (r ∷ rules) e = evaluate now act rules (evaluate_rule now act r e)

unfoldable pub breaker_allow : ℕ → String → Engine → Bool
breaker_allow now url e = elim (lookup url e.breaker) [
  | none ↦ true
  | some b ↦ ltb b.open_until now
]

abbrev pub state_of : String → Engine → BreakerState
state_of url e = elim (lookup url e.breaker) [
  | none ↦ record { fails = 0; open_until = 0 }
  | some b ↦ b
]

unfoldable pub after_failure : Options → ℕ → BreakerState → BreakerState
after_failure opts now b =
    if leb opts.breaker_fails (b.fails + 1)
    then record { fails = 0; open_until = now + opts.breaker_reset }
    else record b { fails = b.fails + 1 }

unfoldable pub breaker_record : ℕ → String → Bool → Engine → Engine
breaker_record now url success e = record e {
  breaker =
      insert url
        (if success
          then record { fails = 0; open_until = 0 }
          else after_failure e.opts now (state_of url e))
        e.breaker;
}

-- The dead-letter ring holds the last 1000.
unfoldable pub bury : DeadLetter → Engine → Engine
bury d e =
    let dead = e.dead ++ d ∷ [] in
    record e { dead = if ltb 1000 (length dead) then drop (length dead - 1000) dead else dead }

-- What a delivery meets at each attempt: is the context done, when is it as breakerAllow and as breakerRecord
-- look, does the webhook take it?
pub record World : Type 0 where
  pub cancelled : ℕ → Bool
  pub clock : ℕ → ℕ
  pub recorded : ℕ → ℕ
  pub accepts : ℕ → Bool

pub data Outcome : Type 0 where
  sent given_up stopped : Outcome

pub record Done : Type 0 where
  pub outcome : Outcome
  pub posts : ℕ
  pub engine : Engine

-- The loop of deliver over the attempts from `attempt` on, `left` of them; with the number of posts.
unfoldable pub attempts : World → Notification → ℕ → ℕ → DeliveryError → Engine → Done
attempts w n zero attempt last_err e = record {
  outcome = given_up;
  posts = 0;
  engine = bury (record { note = n; error = last_err; at = w.clock attempt }) e;
}
attempts w n (suc left) attempt last_err e =
    let now = w.clock attempt in
    let url = n.rule.webhook_url in
    let blocked = attempts w n left (attempt + 1) breaker_open e in
    let failed =
      attempts w n left (attempt + 1) post_failed
        (breaker_record (w.recorded attempt) url false e) in
    let e' = breaker_record (w.recorded attempt) url true e in
    if w.cancelled attempt
    then record { outcome = stopped; posts = 0; engine = e }
    else if not (breaker_allow now url e)
    then blocked
    else if w.accepts attempt
    then record { outcome = sent; posts = 1; engine = record e' { delivered = e'.delivered + 1 } }
    else record failed { posts = failed.posts + 1 }

-- Without attempts lastErr would be nil; Options.defaults sees to at least one.
unfoldable pub deliver : World → Notification → Engine → Done
deliver w n e = attempts w n e.opts.max_attempts 0 post_failed e
