-- ===== src/Ipc/Server.antt =====
-- The events of a subscriber in engine/ipc/pipe_server.cpp: its queue, and the thread that writes.
use appytizer_app_server.Base.{Bool, true, false, List, [], ◌∷◌, ◌++◌, map, Text, if◌then◌else◌}
pub mod Order

-- Where the writer stands: at the test of `running`, at the wait for a message, or at its end.
pub data Writer : Type 0 where
  testing waiting ended : Writer

pub record Subscriber : Type 0 where
  pub messages : List Text
  pub running : Bool
  pub writer : Writer

abbrev pub new_subscriber : Subscriber
new_subscriber = record { messages = []; running = true; writer = testing }

unfoldable pub push : Text → Subscriber → Subscriber
push message s = record s { messages = s.messages ++ (message ∷ []) }

-- broadcast: each subscriber gets the line.
unfoldable pub broadcast : Text → List Subscriber → List Subscriber
unfolding push
broadcast event subscribers = map (push (event ++ (10 ∷ []))) subscribers

-- The end of the wait: the front of the queue is written, if there is one. With none, the writer
-- ends if it is to stop, and waits on otherwise. A write that fails is the last.
unfoldable pub wake : Bool → List Text → Subscriber → Subscriber × List Text
wake sent [] s = (record s { writer = if s.running then waiting else ended }, [])
wake true (message ∷ messages) s =
    (record s { messages = messages; writer = testing }, message ∷ [])
wake false (message ∷ messages) s =
    (record s { messages = messages; running = false; writer = ended }, [])

-- One move of the writer, and what it delivers.
unfoldable pub writer_move : Bool → Writer → Subscriber → Subscriber × List Text
unfolding wake
writer_move sent testing s = (record s { writer = if s.running then waiting else ended }, [])
writer_move sent waiting s = wake sent s.messages s
writer_move sent ended s = (s, [])

-- stop(), or the end of serve_client.
abbrev pub halt : Subscriber → Subscriber
halt s = record s { running = false }

-- A step, with what it puts into the queue and what it delivers.
pub data Step : Subscriber → List Text → List Text → Subscriber → Type 0 where
  pushed : (message : Text) (s : Subscriber) → Step s (message ∷ []) [] (push message s)
  moved :
      (sent : Bool) (s : Subscriber)
      → Step s [] (writer_move sent s.writer s).1 (writer_move sent s.writer s).0
  halted : (s : Subscriber) → Step s [] [] (halt s)

-- The life of a subscriber: any order of broadcasts, moves of the writer, and halts.
pub data Life : List Text → List Text → Subscriber → Type 0 where
  born : Life [] [] new_subscriber
  lived :
      {queued delivered queued' delivered' : List Text} {s t : Subscriber}
      → Life queued delivered s
      → Step s queued' delivered' t
      → Life (queued ++ queued') (delivered ++ delivered') t
