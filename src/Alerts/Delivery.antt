-- ===== src/Alerts/Delivery.antt =====
-- deliver of internal/alerts/alerts.go: what becomes of a notification.
use leser.Prelude.{ℕ, zero, suc, ◌+◌, ◌≤◌, ◌<◌, ◌≡◌, refl, false, some, arith, last?}
use leser.Alerts.{
  Notification, Engine, DeadLetter, DeliveryError, breaker_open, post_failed, World, Outcome, sent,
  given_up, stopped, Done, breaker_allow, attempts, deliver,
}

-- What became of a notification
unfoldable pub Fate : Notification → Engine → Outcome → Engine → Type 0
Fate n e sent e' = (e'.delivered ≡ e.delivered + 1) × (e'.dead ≡ e.dead)
Fate n e given_up e' =
    (e'.delivered ≡ e.delivered) × ((d : DeadLetter) × (last? e'.dead ≡ some d) × (d.note ≡ n))
Fate n e stopped e' = (e'.delivered ≡ e.delivered) × (e'.dead ≡ e.dead)

-- A delivery within a number of attempts
pub record Settled (n : Notification) (left : ℕ) (e : Engine) (d : Done) : Type 0 where
  pub fate : Fate n e d.outcome d.engine
  pub posts : d.posts ≤ left

attempts-blocked :
    (w : World) (n : Notification) (left attempt : ℕ) (last_err : DeliveryError) (e : Engine)
    → ((k : ℕ) → w.cancelled k ≡ false)
    → ((k : ℕ) → k < attempt + left → breaker_allow (w.clock k) n.rule.webhook_url e ≡ false)
    → ((attempts w n left attempt last_err e).outcome ≡ given_up)
      × ((attempts w n left attempt last_err e).posts ≡ 0)
unfolding attempts
attempts-blocked w n zero attempt last_err e c b = (refl, refl)
attempts-blocked w n (suc left) attempt last_err e c b =
    let rest =
      attempts-blocked w n left (attempt + 1) breaker_open e c (λ k h. b k (omega (arith, h))) in
    rw (c attempt, b attempt (omega arith)) rest

-- While the breaker of its webhook does not admit any of its attempts and its context is not done,
-- deliver uses them up: the notification is given up without a post.
pub deliver-blocked :
    (w : World) (n : Notification) (e : Engine)
    → ((k : ℕ) → w.cancelled k ≡ false)
    → ((k : ℕ) → k < e.opts.max_attempts → breaker_allow (w.clock k) n.rule.webhook_url e ≡ false)
    → ((deliver w n e).outcome ≡ given_up) × ((deliver w n e).posts ≡ 0)
unfolding deliver
deliver-blocked w n e c b =
    attempts-blocked w n e.opts.max_attempts 0 post_failed e c (λ k h. b k (omega (arith, h)))
