-- ===== src/Bus.antt =====
-- events/bus.rs: the subscribers, the ring of recent local identifiers, `publish` and `redeliver`.
pub mod Ring
pub mod Window
mod Examples
use zymi_core.Prelude.{
  ℕ, suc, Bool, true, false, not, ◌&&◌, ◌||◌, Option, none, some, List, [], ◌∷◌, ◌++◌, ◌==◌, ltb,
  length, if◌then◌else◌,
}
use zymi_core.Events.{Uuid, Event}

abbrev pub default_channel_capacity : ℕ
default_channel_capacity = 256

-- A subscriber with what waits in its channel.
pub record Subscriber : Type 0 where
  pub correlation_filter : Option Uuid
  pub capacity : ℕ
  pub buffer : List Event
  pub is_closed : Bool

-- `Subscriber::accepts`, by its filter.
unfoldable pub accepts : Option Uuid → Event → Bool
accepts none event = true
accepts (some corr) event = elim event.correlation_id [ none ↦ false | some other ↦ other == corr ]

unfoldable pub has_id : List Uuid → Uuid → Bool
has_id [] id = false
has_id (x ∷ xs) id = x == id || has_id xs id

unfoldable pub remove_id : List Uuid → Uuid → List Uuid
remove_id [] id = []
remove_id (x ∷ xs) id = if x == id then remove_id xs id else x ∷ remove_id xs id

-- The set is a list of its members.
pub record RecentLocal : Type 0 where
  pub set : List Uuid
  pub queue : List Uuid

-- What happens when the queue has grown to more than `capacity`.
unfoldable pub evict : ℕ → List Uuid → List Uuid → RecentLocal
unfolding remove_id
evict capacity set [] = record { set = set; queue = [] }
evict capacity set (oldest ∷ queue) =
    if ltb capacity (length (oldest ∷ queue))
    then record { set = remove_id set oldest; queue = queue }
    else record { set = set; queue = oldest ∷ queue }

-- `RecentLocal::record`, for a ring of this capacity.
unfoldable pub record_id : ℕ → Uuid → RecentLocal → RecentLocal
record_id capacity id r =
    if has_id r.set id then r else evict capacity (id ∷ r.set) (r.queue ++ id ∷ [])

-- `RecentLocal::contains`.
unfoldable pub contains_id : RecentLocal → Uuid → Bool
contains_id r id = has_id r.set id

abbrev pub recent_local_capacity : ℕ
recent_local_capacity = 8192

pub record EventBus : Type 0 where
  pub store : List Event
  pub subscribers : List Subscriber
  pub recent_local : RecentLocal

-- `try_send`, which fails on a channel that is full or closed.
unfoldable pub try_send : Event → Subscriber → Subscriber
try_send event sub =
    if sub.is_closed || not (ltb (length sub.buffer) sub.capacity) then sub else record {
      correlation_filter = sub.correlation_filter;
      capacity = sub.capacity;
      buffer = sub.buffer ++ event ∷ [];
      is_closed = sub.is_closed;
    }

-- The loop over the subscribers.
unfoldable pub fan_out : Event → List Subscriber → List Subscriber
unfolding accepts try_send
fan_out event [] = []
fan_out event (sub ∷ subs) =
    (if accepts sub.correlation_filter event then try_send event sub else sub) ∷ fan_out event subs

-- `publish`: `false` if the append failed.
unfoldable pub publish : Bool → Event → EventBus → EventBus × Bool
publish appended event bus =
    if appended
    then (
      record {
        store = bus.store ++ event ∷ [];
        subscribers = fan_out event bus.subscribers;
        recent_local = record_id recent_local_capacity event.id bus.recent_local;
      },
      true,
    )
    else (bus, false)

unfoldable pub redeliver : Event → EventBus → EventBus
redeliver event bus = if contains_id bus.recent_local event.id then bus else record {
  store = bus.store;
  subscribers = fan_out event bus.subscribers;
  recent_local = bus.recent_local;
}

-- `retain(|s| !s.is_closed())`.
unfoldable pub retain_open : List Subscriber → List Subscriber
retain_open [] = []
retain_open (sub ∷ subs) = if sub.is_closed then retain_open subs else sub ∷ retain_open subs

unfoldable pub add_subscriber : Option Uuid → ℕ → EventBus → EventBus
unfolding retain_open
add_subscriber correlation_filter capacity bus = record {
  store = bus.store;
  subscribers =
      retain_open bus.subscribers
      ++ record {
        correlation_filter = correlation_filter;
        capacity = capacity;
        buffer = [];
        is_closed = false;
      }
        ∷ [];
  recent_local = bus.recent_local;
}

unfoldable pub subscribe_with_capacity : ℕ → EventBus → EventBus
subscribe_with_capacity capacity bus = add_subscriber none capacity bus

unfoldable pub subscribe : EventBus → EventBus
subscribe bus = subscribe_with_capacity default_channel_capacity bus

unfoldable pub subscribe_correlation : Uuid → EventBus → EventBus
subscribe_correlation corr bus = add_subscriber (some corr) 4 bus
