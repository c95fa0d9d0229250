-- ===== src/A2a/Steps.antt =====
-- What `A2ADemoServer` of s13code/core/a2a_adapter/server.py can do between two awaits of any of its
-- calls and jobs, in any order, and the servers that this leads to, over restarts.
use s14code.Prelude.{String, ◌≡◌, ◌⊎◌, none, some, []}
use s14code.A2a.{Task, find_task, idle, answering, streaming, queued, sleeping, handling, Server}
use s14code.A2a.Calls.{
  accept_send, create_job, accept_stream, resume_stream, wake_job, HandlerResult, complete_task,
  cancel_task, start_server,
}

infix 40 ◌⟶◌ ◌⟶*◌
-- A new task has an id that no other task has.
pub data ◌⟶◌ : Server → Server → Type 0 where
  sent :
      {s : Server} (now : String) (t : Task)
      → find_task t.id s.tasks ≡ none
      → s ⟶ accept_send now t s
  made_job : {s : Server} (id : String) → s.phase id ≡ queued → s ⟶ create_job id s
  streamed :
      {s : Server} (now : String) (t : Task)
      → find_task t.id s.tasks ≡ none
      → s ⟶ accept_stream now t s
  resumed : {s : Server} (id : String) → s.phase id ≡ streaming → s ⟶ resume_stream id s
  woke : {s : Server} (id : String) → s.phase id ≡ sleeping → s ⟶ wake_job id s
  answered :
      {s : Server} (result : HandlerResult) (now id : String)
      → (s.phase id ≡ answering) ⊎ (s.phase id ≡ handling)
      → s ⟶ complete_task result now id s
  cancelled : {s s' : Server} (now id : String) → cancel_task now id s ≡ some s' → s ⟶ s'

pub data ◌⟶*◌ : Server → Server → Type 0 where
  here : {s : Server} → s ⟶* s
  next : {s t u : Server} → s ⟶ t → t ⟶* u → s ⟶* u

abbrev pub new_server : Server
new_server = record { tasks = []; rows = []; phase = λ _. idle }

pub data Reach : Server → Type 0 where
  opened : Reach new_server
  stepped : {s s' : Server} → Reach s → s ⟶ s' → Reach s'
  restarted :
      {s s' : Server} (now : String) → Reach s → start_server now s.rows ≡ some s' → Reach s'
