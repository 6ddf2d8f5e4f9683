-- ===== src/Alerts/Cooldown.antt =====
-- Evaluate and cooldownOK of internal/alerts/alerts.go, within the window of a rule and an issue.
use leser.Prelude.{
  ℕ, ◌+◌, ◌-◌, ◌≤◌, ◌<◌, ◌≡◌, refl, ap, ◌∙◌, true, false, not, ◌&&◌, some, List, [], ◌∷◌, ◌++◌,
  arith, length, ltb, leb, ◌==◌, ==_iff, if◌then◌else◌, Bool-cases, inl, inr,
}
use leser.Prelude.Sorting.{keep}
use leser.Alerts.{
  Rule, IssueActivity, Notification, Fired, Engine, matches, same_key, last_fired, within_cooldown,
  sweep, set_fired, cooldown_ok, enqueue, evaluate_rule, evaluate,
}

last_fired-set_fired :
    (rule issue now : ℕ) (fired : List Fired)
    → last_fired rule issue (set_fired rule issue now fired) ≡ some now
unfolding last_fired set_fired
last_fired-set_fired rule issue now fired = ground (arith, ==_iff rule rule, ==_iff issue issue)

-- An engine that has noted that a rule fired for an issue
pub record Noted (rule issue t : ℕ) (e : Engine) : Type 0 where
  pub last : ℕ
  pub found : last_fired rule issue e.cooldown ≡ some last
  pub recent : t ≤ last

last_fired-keep_window :
    (window now rule issue last : ℕ) (fired : List Fired)
    → last_fired rule issue fired ≡ some last
    → now - last ≤ window
    → last_fired rule issue (keep (λ f. leb (now - f.last) window) fired) ≡ some last
unfolding last_fired keep
last_fired-keep_window window now rule issue last [] h k = cc
last_fired-keep_window window now rule issue last (f ∷ fired) h k =
    ground (arith, last_fired-keep_window window now rule issue last fired)

last_fired-sweep :
    (window now rule issue last : ℕ) (fired : List Fired)
    → last_fired rule issue fired ≡ some last
    → now - last ≤ window
    → last_fired rule issue (sweep window now fired) ≡ some last
unfolding sweep
last_fired-sweep window now rule issue last fired h k =
    ground (arith, last_fired-keep_window window now rule issue last fired h k)

last_fired-keep_other :
    (rule issue rule' issue' : ℕ) (fired : List Fired)
    → ((rule == rule') && (issue == issue')) ≡ false
    → last_fired rule issue (keep (λ f. not (same_key rule' issue' f)) fired)
      ≡ last_fired rule issue fired
unfolding last_fired keep
last_fired-keep_other rule issue rule' issue' [] h = refl
last_fired-keep_other rule issue rule' issue' (f ∷ fired) h =
    ground (arith, last_fired-keep_other rule issue rule' issue' fired h)

last_fired-set_fired_other :
    (rule issue rule' issue' now : ℕ) (fired : List Fired)
    → ((rule == rule') && (issue == issue')) ≡ false
    → last_fired rule issue (set_fired rule' issue' now fired) ≡ last_fired rule issue fired
unfolding last_fired set_fired
last_fired-set_fired_other rule issue rule' issue' now fired h =
    ground (arith, last_fired-keep_other rule issue rule' issue' fired h)

-- How often a rule stands in the queue for an issue
unfoldable pub queued : ℕ → ℕ → List Notification → ℕ
queued rule issue [] = 0
queued rule issue (n ∷ queue) =
    let rest = queued rule issue queue in
    if (n.rule.id == rule) && (n.act.issue_id == issue) then rest + 1 else rest

queued-append :
    (rule issue : ℕ) (xs ys : List Notification)
    → queued rule issue (xs ++ ys) ≡ queued rule issue xs + queued rule issue ys
unfolding queued
queued-append rule issue [] ys = omega arith
queued-append rule issue (n ∷ xs) ys = ground (arith, queued-append rule issue xs ys)

-- An engine before and after an evaluation within the window
pub record Still (rule issue t : ℕ) (e e' : Engine) : Type 0 where
  pub noted : Noted rule issue t e'
  pub same_queue : queued rule issue e'.queue ≡ queued rule issue e.queue
  pub same_opts : e'.opts ≡ e.opts

enqueue-Still :
    (rule issue t : ℕ) (n : Notification) (e : Engine)
    → Noted rule issue t e
    → ((rule == n.rule.id) && (issue == n.act.issue_id)) ≡ false
    → Still rule issue t e (enqueue n e)
unfolding enqueue
enqueue-Still rule issue t n e h d = elim (Bool-cases (ltb (length e.queue) e.opts.queue_depth)) [
  | inr full ↦
      rw (full, enqueue)
        (record {
          noted = record { last = h.last; found = h.found; recent = h.recent };
          same_queue = refl;
          same_opts = refl;
        })
  | inl room ↦
      rw (room, enqueue)
        (record {
          noted = record { last = h.last; found = h.found; recent = h.recent };
          same_queue = queued-append rule issue e.queue (n ∷ []) ∙ (unfold queued in ground arith);
          same_opts = refl;
        })
]

evaluate_rule-Still :
    (t now rule issue : ℕ) (act : IssueActivity) (r : Rule) (e : Engine)
    → Noted rule issue t e
    → t ≤ now
    → now < t + e.opts.cooldown
    → Still rule issue t e (evaluate_rule now act r e)
unfolding evaluate_rule cooldown_ok
evaluate_rule-Still t now rule issue act r e h lo hi =
    let same : Still rule issue t e e = record { noted = h; same_queue = refl; same_opts = refl } in
    elim (Bool-cases (matches r act)) [
      | inr no' ↦ rw (no', evaluate_rule) same
      | inl fires ↦
          elim (Bool-cases
            (within_cooldown e.opts.cooldown now (last_fired r.id act.issue_id e.cooldown))) [
              | inl cool ↦ rw (fires, cool, evaluate_rule, cooldown_ok) same
              | inr free ↦
                  let fired = sweep e.opts.cooldown now e.cooldown in
                  let differ : ((rule == r.id) && (issue == act.issue_id)) ≡ false =
                    unfold within_cooldown in
                    ground (
                      arith,
                      h.found,
                      h.recent,
                      ap (λ n. last_fired n issue e.cooldown),
                      ap (λ n. last_fired r.id n e.cooldown),
                    ) in
                  let kept =
                    last_fired-set_fired_other rule issue r.id act.issue_id now fired differ
                    ∙ last_fired-sweep e.opts.cooldown now rule issue h.last e.cooldown h.found
                        (omega (arith, h.recent)) in
                  let s =
                    enqueue-Still rule issue t (record { rule = r; act = act })
                      (record e { cooldown = set_fired r.id act.issue_id now fired })
                      (record { last = h.last; found = kept; recent = h.recent }) differ in
                  rw (fires, free, evaluate_rule, cooldown_ok)
                    (record { noted = s.noted; same_queue = s.same_queue; same_opts = s.same_opts })
            ]
    ]

-- A rule that is noted to have fired for an issue at time t or later is not queued for it again by an
-- evaluation from t on before the cooldown is over, and stays noted.
pub evaluate-Still :
    (t now rule issue : ℕ) (act : IssueActivity) (rules : List Rule) (e : Engine)
    → Noted rule issue t e
    → t ≤ now
    → now < t + e.opts.cooldown
    → Still rule issue t e (evaluate now act rules e)
unfolding evaluate
evaluate-Still t now rule issue act [] e h lo hi = record {
  noted = h;
  same_queue = refl;
  same_opts = refl;
}
evaluate-Still t now rule issue act (r ∷ rules) e h lo hi =
    let a = evaluate_rule-Still t now rule issue act r e h lo hi in
    let b =
      evaluate-Still t now rule issue act rules (evaluate_rule now act r e) a.noted lo
        (omega (arith, hi, ap (λ o. o.cooldown) a.same_opts)) in
    record {
      noted = b.noted;
      same_queue = b.same_queue ∙ a.same_queue;
      same_opts = b.same_opts ∙ a.same_opts;
    }

-- cooldownOK that admits a rule notes the time.
pub cooldown_ok-Noted :
    (now rule issue : ℕ) (e : Engine)
    → (cooldown_ok now rule issue e).0 ≡ true
    → Noted rule issue now (cooldown_ok now rule issue e).1
unfolding cooldown_ok
cooldown_ok-Noted now rule issue e h =
    elim (Bool-cases (within_cooldown e.opts.cooldown now (last_fired rule issue e.cooldown))) [
      | inl cool ↦ absurd (ground arith)
      | inr free ↦
          rw (free, cooldown_ok)
            (record {
              last = now;
              found = last_fired-set_fired rule issue now _;
              recent = omega arith;
            })
    ]
