-- ===== src/Work/WaitingQueue.antt =====
-- src/common/WaitingQueue.ts: actions that wait until they are all executed or all rejected. An item is
-- its action, with whether it has a reject function; what happens is a list of outputs.
use hamok_ts.Prelude.{Bool, true, false, List, [], ◌∷◌, ◌++◌}

pub record WaitingItem (A : Type 0) : Type 0 where
  pub action : A
  pub rejectable : Bool

pub data WaitingOutput (A : Type 0) : Type 0 where
  executed : A → WaitingOutput A
  rejected : A → WaitingOutput A
  on_completed : WaitingOutput A

pub record WaitingQueue (A : Type 0) : Type 0 where
  pub queue : List (WaitingItem A)
  pub timer : Bool
  pub completed : Bool

module _ {A : Type 0} where
  abbrev pub create_queue : WaitingQueue A
  create_queue = record { queue = []; timer = true; completed = false }

  unfoldable pub wait : A → WaitingQueue A → WaitingQueue A
  wait action q = record q { queue = q.queue ++ record { action = action; rejectable = true } ∷ [] }

  unfoldable pub add_action : A → WaitingQueue A → WaitingQueue A
  add_action action q = record q {
    queue = q.queue ++ record { action = action; rejectable = false } ∷ [];
  }

  unfoldable pub execute_items : List (WaitingItem A) → List (WaitingOutput A)
  execute_items [] = on_completed ∷ []
  execute_items (item ∷ rest) = executed item.action ∷ execute_items rest

  abbrev reject_item : Bool → A → List (WaitingOutput A) → List (WaitingOutput A)
  reject_item true action rest = rejected action ∷ rest
  reject_item false action rest = rest

  unfoldable pub reject_items : List (WaitingItem A) → List (WaitingOutput A)
  reject_items [] = on_completed ∷ []
  reject_items (item ∷ rest) = reject_item item.rejectable item.action (reject_items rest)

  done : WaitingQueue A
  done = record { queue = []; timer = false; completed = true }

  complete_with :
      Bool → List (WaitingOutput A) → WaitingQueue A → WaitingQueue A × List (WaitingOutput A)
  unfolding done
  complete_with true outputs q = (q, [])
  complete_with false outputs q = (done, outputs)

  unfoldable pub flush_queue : WaitingQueue A → WaitingQueue A × List (WaitingOutput A)
  unfolding complete_with execute_items
  flush_queue q = complete_with q.completed (execute_items q.queue) q

  unfoldable pub clear_queue : WaitingQueue A → WaitingQueue A × List (WaitingOutput A)
  unfolding complete_with reject_items
  clear_queue q = complete_with q.completed (reject_items q.queue) q
