-- ===== src/Alerts/Breaker.antt =====
-- breakerAllow and breakerRecord of internal/alerts/alerts.go: failures in a row.
use leser.Prelude.{
  ℕ, ◌+◌, ◌<◌, ◌≡◌, refl, ap, ◌∙◌, false, some, List, [], ◌∷◌, ◌++◌, String, eq_refl, arith, length,
  ltb,
}
use leser.Prelude.Dict.{lookup, lookup-insert}
use leser.Alerts.{Engine, BreakerState, state_of, after_failure, breaker_allow, breaker_record}

-- Failures of posts to a webhook at some times
unfoldable pub fail_at : List ℕ → String → Engine → Engine
fail_at [] url e = e
fail_at (t ∷ times) url e = fail_at times url (breaker_record t url false e)

lookup-breaker_record :
    (t : ℕ) (url : String) (e : Engine)
    → lookup url (breaker_record t url false e).breaker
      ≡ some (after_failure e.opts t (state_of url e))
unfolding breaker_record
lookup-breaker_record t url e =
    ground (
      arith,
      eq_refl url,
      lookup-insert url url (after_failure e.opts t (state_of url e)) e.breaker,
    )

state_of-lookup :
    (url : String) (e : Engine) (b : BreakerState)
    → lookup url e.breaker ≡ some b
    → state_of url e ≡ b
state_of-lookup url e b h = ground arith

breaker_allow-lookup :
    (now : ℕ) (url : String) (e : Engine) (b : BreakerState)
    → lookup url e.breaker ≡ some b
    → breaker_allow now url e ≡ ltb b.open_until now
unfolding breaker_allow
breaker_allow-lookup now url e b h = ground arith

state_of-breaker_record :
    (t : ℕ) (url : String) (e : Engine)
    → state_of url (breaker_record t url false e) ≡ after_failure e.opts t (state_of url e)
state_of-breaker_record t url e =
    state_of-lookup url (breaker_record t url false e) _ (lookup-breaker_record t url e)

counting :
    (times : List ℕ) (url : String) (e : Engine)
    → (state_of url e).fails + length times < e.opts.breaker_fails
    → ((state_of url (fail_at times url e)).fails ≡ (state_of url e).fails + length times)
      × ((fail_at times url e).opts ≡ e.opts)
unfolding fail_at
counting [] url e h = (omega arith, refl)
counting (t ∷ times) url e h =
    let e' = breaker_record t url false e in
    let one : (state_of url e').fails ≡ (state_of url e).fails + 1 =
      ap (λ b. b.fails) (state_of-breaker_record t url e)
      ∙ (unfold after_failure in ground arith) in
    let opts : e'.opts ≡ e.opts = unfold breaker_record in refl in
    let rest = counting times url e' (omega (arith, h, one, ap (λ o. o.breaker_fails) opts)) in
    (omega (arith, rest.0, one), rest.1 ∙ opts)

fail_at-snoc :
    (times : List ℕ) (t : ℕ) (url : String) (e : Engine)
    → fail_at (times ++ t ∷ []) url e ≡ breaker_record t url false (fail_at times url e)
unfolding fail_at
fail_at-snoc [] t url e = refl
fail_at-snoc (s ∷ times) t url e = fail_at-snoc times t url (breaker_record s url false e)

-- When as many posts to a webhook in a row have failed as BreakerFails says, from a state without
-- failures, the breaker admits the next one only after BreakerReset has passed since the last failure.
pub breaker_allow-fail_at :
    (times : List ℕ) (t now : ℕ) (url : String) (e : Engine)
    → (state_of url e).fails ≡ 0
    → length times + 1 ≡ e.opts.breaker_fails
    → breaker_allow now url (fail_at (times ++ t ∷ []) url e) ≡ ltb (t + e.opts.breaker_reset) now
breaker_allow-fail_at times t now url e zero_fails n =
    let e' = fail_at times url e in
    let c = counting times url e (omega (arith, zero_fails, n)) in
    let opened : after_failure e'.opts t (state_of url e')
        ≡ record { fails = 0; open_until = t + e'.opts.breaker_reset } =
      unfold after_failure in ground (arith, c.0, zero_fails, n, ap (λ o. o.breaker_fails) c.1) in
    ap (breaker_allow now url) (fail_at-snoc times t url e)
    ∙ breaker_allow-lookup now url (breaker_record t url false e') _
        (lookup-breaker_record t url e' ∙ ap some opened)
    ∙ ap (λ o. ltb (t + o.breaker_reset) now) c.1
