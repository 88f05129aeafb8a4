-- ===== src/StreamRegistry.antt =====
-- events/stream_registry.rs: the senders of streams, by correlation. A sender is of any type.
use zymi_core.Prelude.{Option, List, [], Text, lookup, insert_entry, remove_entry}

module _ {ℓ} {Sender : Type ℓ} where
  abbrev pub new_registry : List (Text × Sender)
  new_registry = []

  unfoldable pub register : Text → Sender → List (Text × Sender) → List (Text × Sender)
  unfolding insert_entry
  register correlation_id tx senders = insert_entry correlation_id tx senders

  -- `take`: what is taken is gone.
  unfoldable pub take_sender : Text → List (Text × Sender) → Option Sender × List (Text × Sender)
  unfolding lookup remove_entry
  take_sender correlation_id senders =
      (lookup correlation_id senders, remove_entry correlation_id senders)

  unfoldable pub remove_sender : Text → List (Text × Sender) → List (Text × Sender)
  unfolding remove_entry
  remove_sender correlation_id senders = remove_entry correlation_id senders
