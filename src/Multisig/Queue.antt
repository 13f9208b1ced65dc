-- ===== src/Multisig/Queue.antt =====
-- x/multisig/internal/keeper/queue.go: the part of the store with the keys `queue:height:id`, in
-- the order of the keys: by the height in eight big-endian bytes, then by the text of the ID.
use blockchain_relay_layer.Base.{ℕ, Bool, ◌&&◌, ◌||◌, List, [], ◌∷◌, ltb, leb, ◌==◌, if◌then◌else◌}

pub record QueueItem : Type 0 where
  pub block_height : ℕ
  pub call_id : ℕ

abbrev pub same_key : QueueItem → ℕ → ℕ → Bool
same_key q id height = (q.block_height == height) && (q.call_id == id)

-- `addCallToQueue`: `store.Set` overwrites a key that is there.
unfoldable pub add_call_to_queue : (ℕ → ℕ → Bool) → ℕ → ℕ → List QueueItem → List QueueItem
add_call_to_queue id_before id height [] = record { block_height = height; call_id = id } ∷ []
add_call_to_queue id_before id height (q ∷ qs) =
    if same_key q id height
    then q ∷ qs
    else if ltb height q.block_height || ((q.block_height == height) && id_before id q.call_id)
    then record { block_height = height; call_id = id } ∷ q ∷ qs
    else q ∷ add_call_to_queue id_before id height qs

-- `RemoveCallFromQueue`
unfoldable pub remove_call_from_queue : ℕ → ℕ → List QueueItem → List QueueItem
remove_call_from_queue id height [] = []
remove_call_from_queue id height (q ∷ qs) =
    if same_key q id height
    then remove_call_from_queue id height qs
    else q ∷ remove_call_from_queue id height qs

-- The IDs that `GetQueueIteratorStartEnd` visits: both heights are included.
unfoldable pub queue_ids_start_end : ℕ → ℕ → List QueueItem → List ℕ
queue_ids_start_end start end [] = []
queue_ids_start_end start end (q ∷ qs) =
    if leb start q.block_height && leb q.block_height end
    then q.call_id ∷ queue_ids_start_end start end qs
    else queue_ids_start_end start end qs

-- The IDs that `GetQueueIteratorTill` visits.
unfoldable pub queue_ids_till : ℕ → List QueueItem → List ℕ
queue_ids_till end qs = queue_ids_start_end 0 end qs
