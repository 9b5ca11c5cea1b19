-- ===== src/Platform/Queue.antt =====
-- QueueClient of services/platform_app/queue.py. The URL of the queue is kept once it is known.
use production_cloud_reliabi.Prelude.{
  String, Bool, true, Option, none, some, List, [], ◌∷◌, ◌++◌, str_eq, if◌then◌else◌,
}
use production_cloud_reliabi.Errors.{ok}
use production_cloud_reliabi.Platform.World.{PlatformMessage, Exec, pure, call, ◌>>=◌}

-- `value or None`: an empty text counts as none.
abbrev pub nonempty : Option String → Option String
nonempty none = none
nonempty (some s) = if str_eq s "" then none else some s

unfoldable pub create_queue : Exec String
create_queue = call (λ m w. (ok m.created_queue_url, w)) >>= λ url w.
    (ok url, record w { queue_url = some url })

-- The property queue_url; `none` where `not self._queue_url`.
abbrev pub known_queue_url : Option String → Exec String
known_queue_url none = create_queue
known_queue_url (some url) = pure url

unfoldable pub queue_url : Exec String
unfolding create_queue
queue_url w = known_queue_url (nonempty w.queue_url) w

unfoldable pub check : Exec Bool
unfolding queue_url
check = queue_url >>= λ url. call (λ m w. (ok true, w))

-- `if correlation_id:` an empty one is not sent.
unfoldable pub send_job : String → Option String → Exec (Unit {0})
unfolding queue_url
send_job job_id correlation_id = queue_url >>= λ url.
    call (λ m w. (ok tt, record w { sent = w.sent ++ (url, job_id, nonempty correlation_id) ∷ [] }))

unfoldable pub receive_messages : Exec (List PlatformMessage)
unfolding queue_url
receive_messages = queue_url >>= λ url. call (λ m w. (ok m.messages, w))

unfoldable pub delete_message : String → Exec (Unit {0})
unfolding queue_url
delete_message receipt_handle = queue_url >>= λ url.
    call (λ m w. (ok tt, record w { deleted = w.deleted ++ receipt_handle ∷ [] }))
