-- ===== src/Config/Runtime.antt =====
-- What validate_worker_runtime (application/shared/config.py) secures for the adapters that the
-- factories of application/shared/adapters.py make.
use production_cloud_reliabi.Prelude.{
  ◌≡◌, refl, String, true, false, Option, none, some, str_eq, arith,
}
use production_cloud_reliabi.Errors.{Result, ok, err, ◌>>=◌}
use production_cloud_reliabi.Codec.{truthy, of_optional}
use production_cloud_reliabi.Config.{
  Settings, ConnInfo, is_cloud, is_s3, database_conninfo, validate_database, missing_queue,
  validate_queue, missing_artifact_store, validate_artifact_store, validate_worker_runtime,
}
use production_cloud_reliabi.Adapters.{JobPublisher, ArtifactStore}
use production_cloud_reliabi.Adapters.Factories.{
  create_job_publisher, create_job_consumer, create_artifact_store,
}

-- The settings name everything that a worker in the cloud connects to.
pub record Provided (s : Settings) : Type 0 where
  pub conninfo : ConnInfo
  pub url : String
  pub bucket : String
  pub connects : database_conninfo s ≡ ok conninfo
  pub url_given : s.sqs_queue_url ≡ some url
  pub url_not_empty : str_eq url "" ≡ false
  pub bucket_given : s.artifact_bucket_name ≡ some bucket
  pub bucket_not_empty : str_eq bucket "" ≡ false
  pub publisher : create_job_publisher s true ≡ ok (JobPublisher.sqs url)
  pub consumer : create_job_consumer s ≡ ok url
  pub store : create_artifact_store s ≡ ok (ArtifactStore.s3 bucket s.artifact_prefix)

-- A setting that is truthy is given and is not empty.
truthy-given :
    (o : Option String)
    → truthy (of_optional o) ≡ true
    → (t : String) × (o ≡ some t) × (str_eq t "" ≡ false)
truthy-given none h = ground arith
truthy-given (some t) h = (t, refl, ground arith)

database-ok :
    (s : Settings) → validate_database s ≡ ok tt → (c : ConnInfo) × (database_conninfo s ≡ ok c)
unfolding validate_database
database-ok s h = returned (database_conninfo s) h
  where
    returned :
        (r : Result ConnInfo) → (r >>= (λ _. ok tt)) ≡ ok (tt {0}) → (c : ConnInfo) × (r ≡ ok c)
    returned (ok c) h = (c, refl)
    returned (err e) h = ground arith

queue-ok : (s : Settings) → validate_queue s ≡ ok tt → truthy (of_optional s.sqs_queue_url) ≡ true
unfolding validate_queue missing_queue
queue-ok s h = ground arith

store-ok :
    (s : Settings)
    → validate_artifact_store s ≡ ok tt
    → (is_s3 s ≡ true) × (truthy (of_optional s.artifact_bucket_name) ≡ true)
unfolding validate_artifact_store missing_artifact_store
store-ok s h = ground arith

checks :
    (s : Settings)
    → is_cloud s ≡ true
    → validate_worker_runtime s ≡ ok tt
    → (validate_database s ≡ ok tt)
      × (validate_queue s ≡ ok tt)
      × (validate_artifact_store s ≡ ok tt)
unfolding validate_worker_runtime
checks s c h = ground arith

-- Once validate_worker_runtime accepts the settings of a worker in the cloud, none of what the worker
-- builds from them fails: the connection string is made, the publisher and the consumer are on the
-- same queue, whose URL is given and not empty, and the reports go to an S3 bucket that is given and
-- not empty.
pub validate_worker_runtime-Provided :
    (s : Settings) → is_cloud s ≡ true → validate_worker_runtime s ≡ ok tt → Provided s
unfolding create_job_publisher create_job_consumer create_artifact_store
validate_worker_runtime-Provided s c h =
    let (hd, hq, hs) = checks s c h in
    let (conninfo, connects) = database-ok s hd in
    let (url, ue, uf) = truthy-given s.sqs_queue_url (queue-ok s hq) in
    let (bucket, be, bf) = truthy-given s.artifact_bucket_name (store-ok s hs).1 in
    record {
      conninfo = conninfo;
      url = url;
      bucket = bucket;
      connects = connects;
      url_given = ue;
      url_not_empty = uf;
      bucket_given = be;
      bucket_not_empty = bf;
      publisher = rw (c, hq, ue) refl;
      consumer = rw (hq, ue) refl;
      store = rw ((store-ok s hs).0, hs, be) refl;
    }
