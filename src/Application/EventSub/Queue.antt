-- ===== src/Application/EventSub/Queue.antt =====
-- internal/application/eventsub.go and server.go: the queue of the messages between the handlers and the
-- workers, and the set of the messages that are in flight. `working` are those that a worker has.
pub mod Once
use ferventio_backend.Base.{
  ℕ, zero, suc, ◌+◌, String, Bool, true, false, not, ◌&&◌, ◌||◌, Option, none, some, List, [], ◌∷◌,
  ◌++◌, ltb, ◌==◌, if◌then◌else◌, map, length,
}
use ferventio_backend.Base.GoMap.{GoMap, has, put, delete}
use ferventio_backend.Domain.Delivery.{EventSubInboxRecord, is_pending}
use ferventio_backend.Domain.EventSub.{EventSubEnvelope}

pub record QueuedEventSub : Type 0 where
  pub message_id : String
  pub envelope : EventSubEnvelope

pub record EventQueue : Type 0 where
  pub event_queue : List QueuedEventSub
  -- cap(s.eventQueue)
  pub capacity : ℕ
  pub event_in_flight : GoMap Bool
  pub working : List QueuedEventSub

abbrev pub new_event_queue : ℕ → EventQueue
new_event_queue capacity = record {
  event_queue = [];
  capacity = capacity;
  event_in_flight = [];
  working = [];
}

unfoldable pub reserve_event_sub : String → EventQueue → EventQueue × Bool
reserve_event_sub message_id q =
    if has message_id q.event_in_flight
    then (q, false)
    else (record q { event_in_flight = put message_id true q.event_in_flight }, true)

unfoldable pub release_event_sub : String → EventQueue → EventQueue
release_event_sub message_id q = record q { event_in_flight = delete message_id q.event_in_flight }

-- The `select` that sends to the channel, or does not wait.
unfoldable pub offer : QueuedEventSub → EventQueue → EventQueue × Bool
offer queued q =
    if ltb (length q.event_queue) q.capacity
    then (record q { event_queue = q.event_queue ++ queued ∷ [] }, true)
    else (release_event_sub queued.message_id q, false)

unfoldable pub schedule_event_sub : EventSubInboxRecord → EventQueue → EventQueue × Bool
schedule_event_sub r q =
    let (reserved, fresh) = reserve_event_sub r.message_id q in
    let queued : QueuedEventSub = record { message_id = r.message_id; envelope = r.envelope } in
    if r.message_id == "" || not (is_pending r.status)
    then (q, false)
    else if fresh
    then offer queued reserved
    else (q, false)

-- The drainer schedules each record of a page.
unfoldable pub drain : List EventSubInboxRecord → EventQueue → EventQueue
drain [] q = q
drain (r ∷ rs) q = drain rs (schedule_event_sub r q).0

-- A worker receives the first message of the channel.
unfoldable pub receive_from : List QueuedEventSub → EventQueue → EventQueue
receive_from [] q = q
receive_from (x ∷ xs) q = record q { event_queue = xs; working = x ∷ q.working }

unfoldable pub receive : EventQueue → EventQueue
receive q = receive_from q.event_queue q

abbrev pub remove_first : String → List QueuedEventSub → List QueuedEventSub
remove_first id [] = []
remove_first id (x ∷ xs) = if x.message_id == id then xs else x ∷ remove_first id xs

-- A worker is done with a message, and releases it.
unfoldable pub finish : String → EventQueue → EventQueue
finish id q = release_event_sub id (record q { working = remove_first id q.working })
