-- ===== src/Worker/Counts.antt =====
-- The counters of dispatched events (application/shared/metrics.py), and what the calls of
-- application/worker/main.py and of other processes leave alone of them.

use production_cloud_reliabi.Prelude.{
  ℕ, ◌≡◌, ◌+◌, refl, ◌∙◌, String, Bool, false, List, [], ◌∷◌, str_eq, if◌then◌else◌, count_if,
  count_if-append, Option-cases, inl, inr, arith,
}
use production_cloud_reliabi.Errors.{Result, ok, err}
use production_cloud_reliabi.Codec.{Codec}
use production_cloud_reliabi.Database.{Database}
use production_cloud_reliabi.Repository.Outbox
use production_cloud_reliabi.World.{
  World, Moment, Metric, Event, Beat, VisibilityHeartbeat, commit, transaction, next, inc, run_beat,
  run_event, run_events,
}
use production_cloud_reliabi.World.Rules.{Ends, Ends-call}
use production_cloud_reliabi.Worker.{mark_outbox_published, mark_outbox_failed}

-- The operations on the counter of dispatches with this result.
abbrev pub is_dispatch : String → Metric → Bool
is_dispatch label (Metric.outbox_dispatch l) = str_eq l label
is_dispatch label _ = false

abbrev pub total : String → World → ℕ
total label w = count_if (is_dispatch label) w.metrics

total-inc :
    (label : String) (m : Metric) (w : World)
    → total label (inc m w) ≡ total label w + (if is_dispatch label m then 1 else 0)
total-inc label m w = count_if-append (is_dispatch label) w.metrics (m ∷ []) ∙ ground arith

total-run_beat :
    (label : String) (b : Beat) (h : VisibilityHeartbeat) (w : World)
    → total label (run_beat b h w) ≡ total label w
unfolding run_beat
total-run_beat label b h w = ground (
  arith,
  count_if-append (is_dispatch label) w.metrics (Metric.heartbeat_failures "db_lease_renewal" ∷ []),
  count_if-append (is_dispatch label) w.metrics
      (Metric.heartbeat_failures "sqs_change_visibility" ∷ []),
)

-- The counters of successes and of attempts.
pub record Counts (s a : ℕ) (w : World) : Type 0 where
  pub successes : total "success" w ≡ s
  pub attempts : total "attempt" w ≡ a

pub inc-Counts :
    {s a : ℕ} (m : Metric) (w : World)
    → Counts s a w
    → Counts
        (s + (if is_dispatch "success" m then 1 else 0))
        (a + (if is_dispatch "attempt" m then 1 else 0))
        (inc m w)
inc-Counts m w c = record {
  successes = omega (arith, total-inc "success" m w, c.successes);
  attempts = omega (arith, total-inc "attempt" m w, c.attempts);
}

module _ (codec : Codec) where
  total-run_event :
      (label : String) (e : Event) (w : World) → total label (run_event codec e w) ≡ total label w
  unfolding run_event
  total-run_event label (Event.other now uuid a) w = refl
  total-run_event label (Event.beat b) w = elim (Option-cases w.heartbeat) [
    | inl e ↦ rw (e, run_event) refl
    | inr (h, e) ↦ rw (e, run_event) (total-run_beat label b h w)
  ]

  total-run_events :
      (label : String) (events : List Event) (w : World)
      → total label (run_events codec events w) ≡ total label w
  unfolding run_events
  total-run_events label [] w = refl
  total-run_events label (e ∷ events) w =
      total-run_events label events (run_event codec e w) ∙ total-run_event label e w

  total-next : (label : String) (w : World) → total label (next codec w) ≡ total label w
  unfolding next
  total-next label w =
      total-run_events label (w.moments w.calls).before (record w { calls = w.calls + 1 })

  pub next-Counts : {s a : ℕ} (w : World) → Counts s a w → Counts s a (next codec w)
  next-Counts w c = record {
    successes = total-next "success" w ∙ c.successes;
    attempts = total-next "attempt" w ∙ c.attempts;
  }

  -- A transaction leaves the counters alone, however it ends.
  pub transaction-Counts :
      {A : Type 0} {s a : ℕ} (body : Moment → Database → Result (A × Database)) (w : World)
      → Counts s a w
      → Ends (λ x v. Counts s a v) (λ e v. Counts s a v) (transaction codec body w)
  unfolding transaction
  transaction-Counts {A} {s} {a} body w c =
      let n = next-Counts w c in
      let o : Result (A × Database) = body (w.moments w.calls) (next codec w).db in
      Ends-call codec (λ x v. Counts s a v) (λ e v. Counts s a v)
        (λ m w. commit codec (body m w.db) w) w (λ e. n) (λ e. after o (next codec w) n)
        (ends o (next codec w) n)
    where
      after :
          (o : Result (A × Database)) (v : World) → Counts s a v → Counts s a (commit codec o v).1
      after (ok (x, db)) v n = record { successes = n.successes; attempts = n.attempts }
      after (err e) v n = n

      ends :
          (o : Result (A × Database)) (v : World)
          → Counts s a v
          → Ends (λ x v. Counts s a v) (λ e v. Counts s a v) (commit codec o v)
      ends (ok (x, db)) v n = record { successes = n.successes; attempts = n.attempts }
      ends (err e) v n = n

  pub published-Counts :
      {s a : ℕ} (i token : ℕ) (w : World)
      → Counts s a w
      → Ends (λ x v. Counts s a v) (λ e v. Counts s a v) (mark_outbox_published codec i token w)
  unfolding mark_outbox_published
  published-Counts i token w c =
      transaction-Counts (λ m db. ok (Outbox.mark_outbox_published m.now i token db)) w c

  pub failed-Counts :
      {s a : ℕ} (i token : ℕ) (error : String) (w : World)
      → Counts s a w
      → Ends (λ x v. Counts s a v) (λ e v. Counts s a v) (mark_outbox_failed codec i token error w)
  unfolding mark_outbox_failed
  failed-Counts i token error w c =
      transaction-Counts (λ m db. ok (Outbox.mark_outbox_failed m.now i token error db)) w c
