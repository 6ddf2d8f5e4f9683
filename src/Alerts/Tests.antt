-- ===== src/Alerts/Tests.antt =====
-- Runs of internal/alerts on small inputs, and its theorems at inputs that meet their hypotheses.
use leser.Prelude.{ℕ, ◌+◌, ◌≡◌, refl, true, false, [], ◌∷◌, leb, ◌<◌, arith}
use leser.Prelude.Dict.{lookup, insert, remove}
use leser.Prelude.Sorting.{keep}
use leser.Alerts.{
  Rule, IssueActivity, Notification, Engine, World, given_up, sent, regression, matches, last_fired,
  within_cooldown, sweep, set_fired, cooldown_ok, enqueue, evaluate_rule, evaluate, breaker_allow,
  breaker_record, after_failure, bury, attempts, deliver,
}
use leser.Alerts.Cooldown
use leser.Alerts.Cooldown.{Noted, Still, queued}
use leser.Alerts.Delivery
use leser.Alerts.Breaker.{fail_at}

abbrev rule : Rule
rule = record { id = 1; name = "r"; condition = regression; threshold = 0; webhook_url = "u" }

abbrev act : IssueActivity
act = record { project_id = 1; issue_id = 5; is_new = false; regressed = true; times_seen = 3 }

abbrev engine : Engine
engine = record {
  opts = record {
    queue_depth = 2;
    cooldown = 10;
    max_attempts = 3;
    breaker_fails = 2;
    breaker_reset = 6;
  };
  queue = [];
  cooldown = [];
  breaker = [];
  dead = [];
  delivered = 0;
  dropped = 0;
}

abbrev note : Notification
note = record { rule = rule; act = act }

-- The webhook takes the third post; an attempt is made every 4 time units.
abbrev flaky : World
flaky = record {
  cancelled = λ k. false;
  clock = λ k. 20 + k;
  recorded = λ k. 20 + k;
  accepts = λ k. leb 2 k;
}

program : Unit {0}
unfolding lookup insert remove keep matches last_fired within_cooldown sweep set_fired cooldown_ok
    enqueue evaluate_rule evaluate breaker_allow breaker_record after_failure bury attempts deliver
    fail_at
program = tt

once : (evaluate 3 act (rule ∷ rule ∷ []) engine).queue ≡ note ∷ []
unfolding program
once = refl

-- Two failures open the breaker, and the third attempt goes without a post.
burnt : (deliver flaky note engine).posts ≡ 2
unfolding program
burnt = refl

third :
    (deliver flaky note (record engine {
      opts = record {
        queue_depth = 2;
        cooldown = 10;
        max_attempts = 3;
        breaker_fails = 5;
        breaker_reset = 6;
      };
    })).outcome
    ≡ sent
unfolding program
third = refl

abbrev fired : Engine
fired = record engine {
  cooldown = record { rule_id = 1; issue_id = 5; last = 3 } ∷ [];
  queue = note ∷ [];
}

fired-Noted : Noted 1 5 3 fired
unfolding last_fired
fired-Noted = record { last = 3; found = refl; recent = omega arith }

evaluate-Still_example : Still 1 5 3 fired (evaluate 12 act (rule ∷ []) fired)
evaluate-Still_example =
    Cooldown.evaluate-Still 3 12 1 5 act (rule ∷ []) fired fired-Noted (omega arith) (omega arith)

abbrev blocked : Engine
blocked = record engine {
  breaker = record { key = "u"; value = record { fails = 0; open_until = 50 } } ∷ [];
}

blocked_till : (k : ℕ) → k < 3 → breaker_allow (20 + k) "u" blocked ≡ false
unfolding breaker_allow lookup
blocked_till k h = ground arith

deliver-blocked_example :
    ((deliver flaky note blocked).outcome ≡ given_up) × ((deliver flaky note blocked).posts ≡ 0)
deliver-blocked_example = Delivery.deliver-blocked flaky note blocked (λ k. refl) blocked_till
