-- ===== src/Ingest/Http/Answers.antt =====
-- The answers of the ingest endpoints in internal/ingest/http.go, and the drops that they count.
use leser.Prelude.{
  ℕ, ◌+◌, ◌≡◌, refl, ap, ◌∙◌, Bool, true, ◌||◌, Option, String, length, ltb, ◌==◌, Bool-cases,
  Option-cases, inl, inr, arith, if◌then◌else◌, ◌⊎◌,
}
use leser.Prelude.Bytes.{Bytes}
use leser.Cache.{get}
use leser.Ingest.Pipeline.{
  Pipeline, Appended, appended, deadline_exceeded, append_failed, Submitted, accepted, overloaded,
  failed, record_of, submit,
}
use leser.Ingest.Http.{
  DsnKey, Handler, Inflated, read_body, Body, body, body_malformed, body_too_large, Request,
  sentry_auth_key, lookup_key, accept_body, handle,
}

abbrev pub total_drops : Pipeline → ℕ
total_drops p =
    p.drops.malformed_count + p.drops.duplicate_count + p.drops.overloaded_count
    + p.drops.too_large_count + p.drops.auth_count

-- The drops for an answer: none with the status 200, 404 or 500
abbrev pub drops_for : ℕ → ℕ
drops_for status = if (status == 200) || (status == 404) || (status == 500) then 0 else 1

abbrev drops_of : Submitted → ℕ
drops_of accepted = 0
drops_of overloaded = 1
drops_of failed = 0

Appended-cases : (a : Appended) → (a ≡ appended) ⊎ ((a ≡ deadline_exceeded) ⊎ (a ≡ append_failed))
Appended-cases appended = inl refl
Appended-cases deadline_exceeded = inr (inl refl)
Appended-cases append_failed = inr (inr refl)

submit-drops :
    (wal_append : ℕ → Bytes → Appended) (kind project_id : ℕ) (bytes : Bytes) (p : Pipeline)
    → total_drops (submit wal_append kind project_id bytes p).1
      ≡ total_drops p + drops_of (submit wal_append kind project_id bytes p).0
unfolding submit
submit-drops wal_append kind project_id bytes p =
    elim (Bool-cases (ltb p.opts.max_lag p.consumer_lag)) [
      | inl behind ↦ rw behind (omega arith)
      | inr near ↦
          rw near (elim (Appended-cases (wal_append kind (record_of kind project_id bytes))) [
            | inl done ↦ rw (done, submit) (omega arith)
            | inr (inl late) ↦ rw (late, submit) (omega arith)
            | inr (inr err) ↦ rw (err, submit) (omega arith)
          ])
    ]

Submitted-cases : (s : Submitted) → (s ≡ accepted) ⊎ ((s ≡ overloaded) ⊎ (s ≡ failed))
Submitted-cases accepted = inl refl
Submitted-cases overloaded = inr (inl refl)
Submitted-cases failed = inr (inr refl)

accept_body-drops :
    (allow : ℕ → Bool) (wal_append : ℕ → Bytes → Appended) (kind project_id : ℕ) (content : Body)
    (p : Pipeline)
    → total_drops (accept_body allow wal_append kind project_id content p).1
      ≡ total_drops p + drops_for (accept_body allow wal_append kind project_id content p).0
unfolding accept_body
accept_body-drops allow wal_append kind project_id content p =
    elim (Bool-cases (allow project_id)) [
      | inr over ↦ rw over (omega arith)
      | inl within ↦ rw within (go content)
    ]
  where
    go :
        (content : Body)
        → total_drops (accept_body (λ id. true) wal_append kind project_id content p).1
          ≡ total_drops p
            + drops_for (accept_body (λ id. true) wal_append kind project_id content p).0
    go body_malformed = omega arith
    go body_too_large = omega arith
    go (body bytes) =
        let counted = submit-drops wal_append kind project_id bytes p in
        elim (Submitted-cases (submit wal_append kind project_id bytes p).0) [
          | inl done ↦ rw (done, accept_body) (counted ∙ ap (λ r. total_drops p + drops_of r) done)
          | inr (inl late) ↦
              rw (late, accept_body) (counted ∙ ap (λ r. total_drops p + drops_of r) late)
          | inr (inr err) ↦
              rw (err, accept_body) (counted ∙ ap (λ r. total_drops p + drops_of r) err)
        ]

module _ (trim_space : Bytes → Bytes) (text : Bytes → String)
    (inflate : String → Bytes → Inflated) where
  lookup_key-pipe :
      (now : ℕ) (keys : String → Option DsnKey) (key : String) (h : Handler)
      → (lookup_key trim_space text inflate now keys key h).1.pipe ≡ h.pipe
  unfolding lookup_key
  lookup_key-pipe now keys key h = elim (Option-cases (get now key h.key_lru).0) [
    | inr (k, hit) ↦ rw (hit, lookup_key) refl
    | inl miss ↦ elim (Option-cases (keys key)) [
      | inl err ↦ rw (miss, lookup_key) (rw (err, lookup_key) refl)
      | inr (k, found) ↦ rw (miss, lookup_key) (rw (found, lookup_key) refl)
    ]
  ]

  -- An ingest request that is answered with 200, or with 404 or 500, counts no drop; one that is refused in any
  -- other way counts exactly one.
  pub handle-drops :
      (now : ℕ) (keys : String → Option DsnKey) (allow : ℕ → Bool)
      (wal_append : ℕ → Bytes → Appended) (kind : ℕ) (r : Request) (h : Handler)
      → total_drops (handle trim_space text inflate now keys allow wal_append kind r h).1.pipe
        ≡ total_drops h.pipe
          + drops_for (handle trim_space text inflate now keys allow wal_append kind r h).0
  unfolding handle
  handle-drops now keys allow wal_append kind r h = elim (Option-cases r.project_id) [
    | inl no_project ↦ rw (no_project, handle) (omega arith)
    | inr (project_id, given) ↦
        rw (given, handle)
          (let key = sentry_auth_key trim_space text inflate r in
            let looked = lookup_key trim_space text inflate now keys (text key) h in
            let same = lookup_key-pipe now keys (text key) h in
            elim (Bool-cases (length key == 0)) [
              | inl no_key ↦ rw no_key (omega arith)
              | inr keyed ↦ rw keyed (elim (Option-cases looked.0) [
                | inl err ↦ rw (err, handle) (rw same (omega arith))
                | inr (k, found) ↦
                    rw (found, handle)
                      (elim (Bool-cases (k.project_id == project_id)) [
                        | inr other ↦ rw other (rw same (omega arith))
                        | inl own ↦ rw own (
                            let p = looked.1.pipe in
                            accept_body-drops allow wal_append kind project_id
                              (read_body inflate h.lim.max_envelope_bytes r.encoding r.raw) p
                            ∙ ap
                                (λ x.
                                  total_drops x
                                  + drops_for
                                      (accept_body allow wal_append kind project_id
                                        (read_body inflate h.lim.max_envelope_bytes r.encoding
                                          r.raw)
                                        p).0)
                                same)
                      ])
              ])
            ])
  ]
