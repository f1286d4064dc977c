-- ===== src/Client/Lifecycle.antt =====
-- The life of an OFClient over its BaseOFClient (examples/switch/client/OFClient.hh,
-- examples/switch/client/base/BaseOFClient.cc): which threads and objects it starts, stops and deletes.
-- What pthreads and the event loop of libfluid_base do with the calls is stated here only as far as who
-- may run when an object is deleted.
use libfluid.Prelude.{
  ℕ, Bool, true, false, Option, none, some, List, [], ◌∷◌, ◌++◌, ◌≡◌, refl, if◌then◌else◌, ◌>>=◌,
  ◌+◌, ◌&&◌, ◌==◌,
}
use libfluid.Client.{BaseEvent, base_closed, up, down}

-- The calls, in order.
pub data LifeCall : Type 0 where
  -- pthread_create of `try_connect`, and of the loop.
  create_conn_t create_t : LifeCall
  -- `evloop->run()` and `evloop->stop()`
  run_loop stop_loop : LifeCall
  cancel_conn_t join_t : LifeCall
  close_conn delete_conn delete_base_conn : LifeCall
  new_loop delete_loop : LifeCall

-- class BaseOFClient; the threads and the event loop are known by the calls on them.
pub record BaseOfClient : Type 0 where
  pub id : ℕ
  pub blocking : Option Bool
  pub address : List ℕ
  pub port : ℕ

-- The constructor: `blocking` is not set.
unfoldable pub new_base_of_client :
    (id : ℕ) (address : List ℕ) (port : ℕ) → BaseOfClient × List LifeCall
new_base_of_client id address port =
    (record { id = id; blocking = none; address = address; port = port }, new_loop ∷ [])

unfoldable pub start_conn : List LifeCall
start_conn = create_conn_t ∷ []

-- BaseOFClient::start, which OFClient::start calls.
unfoldable pub start : Bool → BaseOfClient → BaseOfClient × List LifeCall
start block c =
    (record c { blocking = some block }, start_conn ++ (if block then run_loop else create_t) ∷ [])

-- OFClient::stop_conn; `connected` says that `conn` is not NULL.
unfoldable pub close_conns : (connected : Bool) → List LifeCall
close_conns connected = if connected then close_conn ∷ [] else []

-- BaseOFClient::stop; `none` is the read of `blocking` before it is set.
unfoldable pub base_stop : BaseOfClient → Option (List LifeCall)
base_stop c = c.blocking >>= λ blocking.
    some (cancel_conn_t ∷ stop_loop ∷ (if blocking then [] else join_t ∷ []))

-- OFClient::stop
unfoldable pub stop : (connected : Bool) → BaseOfClient → Option (List LifeCall)
stop connected c = base_stop c >>= λ calls. some (close_conns connected ++ calls)

-- ~OFClient, and then ~BaseOFClient.
unfoldable pub delete_client : (connected : Bool) → List LifeCall
delete_client connected = (if connected then delete_conn ∷ [] else []) ++ delete_loop ∷ []

-- BaseOFClient::base_connection_callback
unfoldable pub base_connection : BaseEvent → List LifeCall
base_connection base_closed = delete_base_conn ∷ []
base_connection up = []
base_connection down = []

-- What the calls have done: the event loop, whether a thread runs it and whether that was told to stop,
-- and how many connecting threads were created and not joined.
pub data LoopState : Type 0 where
  absent ready deleted : LoopState

pub record World : Type 0 where
  pub loop : LoopState
  pub running : Bool
  pub told : Bool
  pub unjoined : ℕ

abbrev pub nothing_yet : World
nothing_yet = record { loop = absent; running = false; told = false; unjoined = 0 }

-- `none` is a call on a loop that is not there, a join of a thread that never ends or was not created,
-- or the deletion of a loop that a thread runs.
unfoldable pub exec : LifeCall → World → Option World
exec new_loop w = some (record w { loop = ready })
exec create_conn_t w = some (record w { unjoined = w.unjoined + 1 })
exec create_t w = elim w.loop [
  | ready ↦ some (record w { running = true })
  | absent ↦ none
  | deleted ↦ none
]
exec run_loop w = elim w.loop [ ready ↦ some w | absent ↦ none | deleted ↦ none ]
exec stop_loop w = elim w.loop [
  | ready ↦ some (record w { told = true })
  | absent ↦ none
  | deleted ↦ none
]
exec cancel_conn_t w = if w.unjoined == 0 then none else some w
exec join_t w = if w.running && w.told then some (record w { running = false }) else none
exec delete_loop w = elim w.loop [
  | ready ↦ if w.running then none else some (record w { loop = deleted })
  | absent ↦ none
  | deleted ↦ none
]
exec close_conn w = some w
exec delete_conn w = some w
exec delete_base_conn w = some w

unfoldable pub exec_all : List LifeCall → World → Option World
exec_all [] w = some w
exec_all (c ∷ calls) w = exec c w >>= exec_all calls

-- The life of a client that is started, stopped and deleted.
unfoldable pub life : (block connected connected_later : Bool) → BaseOfClient → Option World
life block connected connected_later c =
    let (c', started) = start block c in
    stop connected c' >>= λ stopped.
    exec_all (new_loop ∷ started ++ stopped ++ delete_client connected_later) nothing_yet

-- A client that is started, blocking or not, stopped and deleted, connected or not, never deletes its
-- event loop under a thread that runs it, and leaves no such thread; but the thread that connected is
-- never joined.
pub life_lem :
    (block connected connected_later : Bool) (c : BaseOfClient)
    → life block connected connected_later c
      ≡ some (record { loop = deleted; running = false; told = true; unjoined = 1 })
unfolding life start start_conn stop base_stop close_conns delete_client exec exec_all
life_lem true true true c = refl
life_lem true true false c = refl
life_lem true false true c = refl
life_lem true false false c = refl
life_lem false true true c = refl
life_lem false true false c = refl
life_lem false false true c = refl
life_lem false false false c = refl
