-- ===== src/Api/Answers.antt =====
-- How an answer of POST /jobs comes about (application/api/main.py, application/api/service.py): what
-- holds of an inserted job and of the tables, holds of the job that is answered.
use production_cloud_reliabi.Prelude.{
  ◌≡◌, refl, ◌&&◌, String, false, Option, Bool-cases, ◌⊎◌, inl, inr, leb, arith,
}
use production_cloud_reliabi.Errors.{ok}
use production_cloud_reliabi.Codec.{Json, Codec, of_optional}
use production_cloud_reliabi.Database.{Uuid, JobRow, Database}
use production_cloud_reliabi.World.{World, pure, catch, ◌>>=◌}
use production_cloud_reliabi.World.Rules.{Ends, Ends-bind, Ends-catch, Ends-map}
use production_cloud_reliabi.Config.{Settings}
use production_cloud_reliabi.Adapters.{JobPublisher, publish}
use production_cloud_reliabi.Adapters.Factories.{create_job_publisher}
use production_cloud_reliabi.Api.{
  Response, answered, refused, insert_job, retry_plain, service_create_job, create_job, count_chars,
  database_unavailable,
}

-- What POST /jobs answers: 202 for a job of which Q holds, or 503 or 422.
abbrev pub AnsweredBy : (JobRow → Database → Type 0) → Response JobRow → World → Type 0
AnsweredBy Q (answered code job) w = (code ≡ 202) × Q job w.db
AnsweredBy Q (refused code) w = (code ≡ 503) ⊎ (code ≡ 422)

api_publisher :
    (s : Settings) (p : JobPublisher)
    → create_job_publisher s false ≡ ok p
    → (p ≡ JobPublisher.local) ⊎ (p ≡ JobPublisher.noop)
unfolding create_job_publisher
api_publisher s p h = ground arith

module _ (codec : Codec) (Q : JobRow → Database → Type 0) where
  publish-Ends :
      (p : JobPublisher) (i : Uuid) (c : Json) (job : JobRow) (w : World)
      → (p ≡ JobPublisher.local) ⊎ (p ≡ JobPublisher.noop)
      → Q job w.db
      → Ends (λ _ v. Q job v.db) (λ e v. Unit {0}) (publish codec p i c w)
  unfolding publish
  publish-Ends p i c job w (inl e) a = rw e a
  publish-Ends p i c job w (inr e) a = rw e a

  module _ (s : Settings) (p : JobPublisher) (c : Option String) (job_type : String)
      (payload : Json) (w : World) (made : create_job_publisher s false ≡ ok p)
      (inserted : Ends
        (λ job v. Q job v.db)
        (λ e v. Unit {0})
        (catch (insert_job codec job_type payload c) (retry_plain codec job_type payload) w)) where
    service-Ends :
        Ends
          (λ job v. Q job v.db)
          (λ e v. Unit {0})
          (service_create_job codec p c job_type payload w)
    unfolding service_create_job
    service-Ends =
        Ends-bind _ _
          (catch (insert_job codec job_type payload c) (retry_plain codec job_type payload))
          (λ job. publish codec p job.id (of_optional c) >>= λ _. pure job) w
          (Ends-map (λ job v. Q job v.db) _ (λ e v. Unit {0}) _
            (catch (insert_job codec job_type payload c) (retry_plain codec job_type payload) w)
            (λ job v a.
              Ends-bind _ _ (publish codec p job.id (of_optional c)) (λ _. pure job) v
                (Ends-map (λ _ u. Q job u.db) _ (λ e u. Unit {0}) _
                  (publish codec p job.id (of_optional c) v) (λ _ u b. b) (λ e u b. tt)
                  (publish-Ends p job.id (of_optional c) job v (api_publisher s p made) a)))
            (λ e v b. tt) inserted)

    pub create_job-AnsweredBy :
        Ends (λ a v. AnsweredBy Q a v) (λ e v. ⊥) (create_job codec p c job_type payload w)
    unfolding create_job
    create_job-AnsweredBy =
        let m = service_create_job codec p c job_type payload >>= λ job. pure (answered 202 job) in
        elim (Bool-cases (leb 1 (count_chars job_type) && leb (count_chars job_type) 100)) [
          | inl y ↦
              rw (create_job, y)
                (Ends-catch _ _ m (database_unavailable codec) w (
                  Ends-bind _ _ (service_create_job codec p c job_type payload)
                    (λ job. pure (answered 202 job)) w
                    (Ends-map (λ job v. Q job v.db) _ (λ e v. Unit {0}) _
                      (service_create_job codec p c job_type payload w) (λ job v a. (refl, a))
                      (λ e v b. inl refl) service-Ends)))
          | inr n ↦ rw (create_job, n) (inr refl)
        ]
