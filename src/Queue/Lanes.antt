-- ===== src/Queue/Lanes.antt =====
-- The order in which operations are taken, and what a full queue drops.
use unifi_network_rules.Prelude.{
  ℕ, ◌+◌, ◌<◌, ◌≡◌, refl, true, false, some, List, [], ◌∷◌, ◌++◌, length, leb, if◌then◌else◌, arith,
}
use unifi_network_rules.Operation.{QueuedOperation, new_operation}
use unifi_network_rules.Queue.{Queue, done, assign, settle, make_room, add_operation}
use unifi_network_rules.Queue.Worker.{pick, process_next, awaited, regular_arrived}
use unifi_network_rules.Queue.Runs.{picked, arrived, idle, step}

-- A processor that is free takes the first of the priority operations followed by the regular ones,
-- each in the order of their arrival, leaves the others, and begins its call if its future is not
-- done.
pub picked_order :
    (s : Queue) (op : QueuedOperation) (rest : List QueuedOperation)
    → s.running ≡ true
    → idle s.processing ≡ true
    → s.waiting ≡ false
    → s.priority_queue ++ s.regular_queue ≡ op ∷ rest
    → done (s.futures op.future) ≡ false
    → ((step picked s).processing ≡ some op)
      × ((step picked s).priority_queue ++ (step picked s).regular_queue ≡ rest)
unfolding step process_next pick awaited
picked_order s op rest r i w e d = (ground arith, ground arith)

-- A processor that waits on the regular queue takes a regular operation that comes, whatever the
-- priority queue holds by then.
pub arrived_order :
    (s : Queue) (op : QueuedOperation) (ops : List QueuedOperation)
    → s.waiting ≡ true
    → s.regular_queue ≡ op ∷ ops
    → done (s.futures op.future) ≡ false
    → ((step arrived s).processing ≡ some op) × ((step arrived s).priority_queue ≡ s.priority_queue)
unfolding step regular_arrived awaited
arrived_order s op ops w e d = ground arith

-- Adding to a priority queue that is full drops its oldest operation, whose future is done then,
-- and counts it; one that is not full keeps all. The new operation comes last. The regular queue
-- stays as it is.
pub add_operation_lem :
    (now call max_retries : ℕ) (s : Queue) (old : QueuedOperation) (rest : List QueuedOperation)
    → s.priority_queue ≡ old ∷ rest
    → old.future < s.next_future
    → 0 < s.maxsize
    → let t = add_operation now call true max_retries s in
      let drops = leb s.maxsize (length s.priority_queue) in
      (t.priority_queue
        ≡ (if drops then rest else old ∷ rest)
          ++ new_operation now call s.next_future true max_retries ∷ [])
      × (done (t.futures old.future) ≡ (if drops then true else done (s.futures old.future)))
      × (t.operations_dropped ≡ s.operations_dropped + (if drops then 1 else 0))
      × (t.regular_queue ≡ s.regular_queue)
unfolding add_operation make_room settle assign done
add_operation_lem now call max_retries s old rest e lt pos =
    (ground arith, ground arith, ground arith, refl)
