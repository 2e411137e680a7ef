-- ===== src/Sinks/Web.antt =====
-- flotilla/sinks/web.py: the latest views of each project, and the bounded queues of the dashboards
-- that listen to it.
use ker_sor_monitor.Prelude.{
  ℕ, String, Bool, true, false, ◌&&◌, Option, none, some, List, [], ◌∷◌, ◌++◌, ◌==◌, if◌then◌else◌,
  leb, ltb, nat_beq, length, or_else,
}
use ker_sor_monitor.Prelude.Rows.{has, find, update, delete, map_option}
use ker_sor_monitor.Json.{str, Dict, get, truthy}

-- `queue.Queue(maxsize)`, with the oldest item first.
pub record Queue : Type 0 where
  pub id : ℕ
  pub maxsize : ℕ
  pub items : List Dict

-- An entry of `_PROJ_SUBS`.
pub record Channel : Type 0 where
  pub project_id : String
  pub queues : List Queue

pub record Latest : Type 0 where
  pub task_id : String
  pub view : Dict

-- An entry of `_LATEST`.
pub record Board : Type 0 where
  pub project_id : String
  pub views : List Latest

pub record Hub : Type 0 where
  pub boards : List Board
  pub channels : List Channel

-- A queue of size 0 is unbounded.
abbrev is_full : Queue → Bool
is_full q = ltb 0 q.maxsize && leb q.maxsize (length q.items)

abbrev put : Dict → Queue → Queue
put payload q = record q { items = q.items ++ payload ∷ [] }

-- `put_nowait`; a full queue drops the payload here.
abbrev try_put : Dict → Queue → Queue
try_put payload q = if is_full q then q else put payload q

abbrev pub but_first : List Dict → List Dict
but_first [] = []
but_first (_ ∷ rest) = rest

abbrev get_nowait : Queue → Queue
get_nowait q = record q { items = but_first q.items }

-- What `_emit` does at one queue: the oldest item makes room for the new one.
unfoldable pub offer : Dict → Queue → Queue
offer payload q = if is_full q then try_put payload (get_nowait q) else put payload q

abbrev offer_all : Dict → List Queue → List Queue
offer_all payload [] = []
offer_all payload (q ∷ qs) = offer payload q ∷ offer_all payload qs

-- `_emit`
unfoldable pub emit : String → Dict → Hub → Hub
unfolding offer
emit pid payload hub = record hub {
  channels =
      update (λ c. c.project_id == pid) (λ c. record c { queues = offer_all payload c.queues })
        hub.channels;
}

-- `subscribe`, with the number of the new queue.
unfoldable pub subscribe : String → ℕ → ℕ → Hub → Hub
subscribe pid qid maxsize hub =
    let q : Queue = record { id = qid; maxsize = maxsize; items = [] } in
    record hub {
      channels =
          if has Channel.project_id pid hub.channels
          then update (λ c. c.project_id == pid) (λ c. record c { queues = c.queues ++ q ∷ [] })
              hub.channels
          else hub.channels ++ record { project_id = pid; queues = q ∷ [] } ∷ [];
    }

abbrev is_empty : Channel → Bool
is_empty c = elim c.queues [ [] ↦ true | _ ∷ _ ↦ false ]

-- `unsubscribe`; a project without queues loses its entry.
unfoldable pub unsubscribe : String → ℕ → Hub → Hub
unsubscribe pid qid hub = record hub {
  channels =
      delete (λ c. c.project_id == pid && is_empty c)
        (update (λ c. c.project_id == pid)
          (λ c. record c { queues = delete (λ q. nat_beq q.id qid) c.queues }) hub.channels);
}

-- A key of a view that is a text; ids are texts in every view of `build_task_view`.
abbrev text_at : String → Dict → Option String
text_at key view = elim (get key view) [ str s ↦ if s == "" then none else some s | _ ↦ none ]

abbrev store_view : Dict → List Latest → Option String → List Latest
store_view view views none = views
store_view view views (some tid) =
    if truthy (get "deleted" view)
    then delete (λ v. v.task_id == tid) views
    else if has Latest.task_id tid views
    then update (λ v. v.task_id == tid) (λ v. record v { view = view }) views
    else views ++ record { task_id = tid; view = view } ∷ []

abbrev store_views : List Dict → List Latest → List Latest
store_views [] views = views
store_views (view ∷ more) views = store_views more (store_view view views (text_at "id" view))

abbrev board_of : String → Hub → List Latest
board_of pid hub = or_else (map_option Board.views (find Board.project_id pid hub.boards)) []

abbrev set_board : String → List Latest → List Board → List Board
set_board pid views boards =
    if has Board.project_id pid boards
    then update (λ b. b.project_id == pid) (λ b. record b { views = views }) boards
    else boards ++ record { project_id = pid; views = views } ∷ []

abbrev emit_all : String → List Dict → Hub → Hub
emit_all pid [] hub = hub
emit_all pid (view ∷ more) hub = emit_all pid more (emit pid view hub)

-- The project of a snapshot that names none is that of the first task with one.
abbrev project_of : Option String → List Dict → Option String
project_of (some pid) tasks = some pid
project_of none [] = none
project_of none (t ∷ ts) = elim (text_at "project_id" t) [
  | none ↦ project_of none ts
  | some pid ↦ some pid
]

-- `WebSink.render`
unfoldable pub render : Option String → List Dict → Hub → Hub
unfolding emit
render pid tasks hub = elim (project_of pid tasks) [
  | none ↦ hub
  | some p ↦
      emit_all p tasks
        (record hub { boards = set_board p (store_views tasks (board_of p hub)) hub.boards })
]

-- `latest`
unfoldable pub latest : String → Hub → List Latest
latest pid hub = board_of pid hub
