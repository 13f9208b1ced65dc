-- ===== src/Multisig/Invariant/QueueLaws.antt =====
-- The queue under insertion, removal and iteration.
use blockchain_relay_layer.Base.{
  ℕ, ◌≡◌, refl, Bool, false, List, [], ◌∷◌, ◌==◌, All, Distinct, elem, arith,
}
use blockchain_relay_layer.Multisig.Queue.{
  QueueItem, add_call_to_queue, remove_call_from_queue, queue_ids_start_end,
}
use blockchain_relay_layer.Multisig.Invariant.Defs.{ids}

abbrev pub queue_item : ℕ → ℕ → QueueItem
queue_item height id = record { block_height = height; call_id = id }

module _ (P : QueueItem → Type 0) where
  pub add_call_to_queue-All :
      (before : ℕ → ℕ → Bool) (id height : ℕ) (qs : List QueueItem)
      → All P qs
      → P (queue_item height id)
      → All P (add_call_to_queue before id height qs)
  unfolding add_call_to_queue
  add_call_to_queue-All before id height [] h p = (p, tt)
  add_call_to_queue-All before id height (q ∷ qs) h p =
      ground (arith, add_call_to_queue-All before id height qs h.1 p)

  pub remove_call_from_queue-All :
      (id height : ℕ) (qs : List QueueItem) → All P qs → All P (remove_call_from_queue id height qs)
  unfolding remove_call_from_queue
  remove_call_from_queue-All id height [] h = tt
  remove_call_from_queue-All id height (q ∷ qs) h =
      ground (arith, remove_call_from_queue-All id height qs h.1)

pub elem-add_call_to_queue :
    (before : ℕ → ℕ → Bool) (id height k : ℕ) (qs : List QueueItem)
    → (id == k) ≡ false
    → elem k (ids (add_call_to_queue before id height qs)) ≡ elem k (ids qs)
unfolding add_call_to_queue
elem-add_call_to_queue before id height k [] h = ground arith
elem-add_call_to_queue before id height k (q ∷ qs) h =
    ground (arith, elem-add_call_to_queue before id height k qs h)

pub add_call_to_queue-Distinct :
    (before : ℕ → ℕ → Bool) (id height : ℕ) (qs : List QueueItem)
    → Distinct (ids qs)
    → elem id (ids qs) ≡ false
    → Distinct (ids (add_call_to_queue before id height qs))
unfolding add_call_to_queue
add_call_to_queue-Distinct before id height [] d h = (refl, tt)
add_call_to_queue-Distinct before id height (q ∷ qs) d h = ground (
  arith,
  add_call_to_queue-Distinct before id height qs d.1,
  elem-add_call_to_queue before id height q.call_id qs,
)

pub elem-remove_call_from_queue :
    (id height k : ℕ) (qs : List QueueItem)
    → elem k (ids qs) ≡ false
    → elem k (ids (remove_call_from_queue id height qs)) ≡ false
unfolding remove_call_from_queue
elem-remove_call_from_queue id height k [] h = refl
elem-remove_call_from_queue id height k (q ∷ qs) h =
    ground (arith, elem-remove_call_from_queue id height k qs)

pub remove_call_from_queue-Distinct :
    (id height : ℕ) (qs : List QueueItem)
    → Distinct (ids qs)
    → Distinct (ids (remove_call_from_queue id height qs))
unfolding remove_call_from_queue
remove_call_from_queue-Distinct id height [] d = tt
remove_call_from_queue-Distinct id height (q ∷ qs) d = ground (
  arith,
  remove_call_from_queue-Distinct id height qs d.1,
  elem-remove_call_from_queue id height q.call_id qs,
)

-- The iterator meets only IDs of the queue, each once.
pub elem-queue_ids_start_end :
    (start end k : ℕ) (qs : List QueueItem)
    → elem k (ids qs) ≡ false
    → elem k (queue_ids_start_end start end qs) ≡ false
unfolding queue_ids_start_end
elem-queue_ids_start_end start end k [] h = refl
elem-queue_ids_start_end start end k (q ∷ qs) h =
    ground (arith, elem-queue_ids_start_end start end k qs)

pub queue_ids_start_end-Distinct :
    (start end : ℕ) (qs : List QueueItem)
    → Distinct (ids qs)
    → Distinct (queue_ids_start_end start end qs)
unfolding queue_ids_start_end
queue_ids_start_end-Distinct start end [] d = tt
queue_ids_start_end-Distinct start end (q ∷ qs) d = ground (
  arith,
  queue_ids_start_end-Distinct start end qs d.1,
  elem-queue_ids_start_end start end q.call_id qs,
)

pub queue_ids_start_end-All :
    (P : ℕ → Type 0) (start end : ℕ) (qs : List QueueItem)
    → All (λ q. P q.call_id) qs
    → All P (queue_ids_start_end start end qs)
unfolding queue_ids_start_end
queue_ids_start_end-All P start end [] h = tt
queue_ids_start_end-All P start end (q ∷ qs) h =
    ground (arith, queue_ids_start_end-All P start end qs h.1)
