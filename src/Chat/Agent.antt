-- ===== src/Chat/Agent.antt =====
-- chat/agent.py: the cache of sessions, each with an open MCP connection, and the retries of a turn.
-- Other turns run at every `await`. What they do there is a function of the environment, and so is
-- whether a connection or a run of the agent succeeds. `ticks` counts the awaits, so that these
-- functions, and the clock, may answer differently each time.
pub mod Eviction
pub mod Counts
pub mod Balance
use stream_house_c360_demo.Prelude.{
  ℕ, zero, suc, ◌+◌, ◌-◌, String, Bool, true, false, Option, none, some, List, [], ◌∷◌, ◌++◌, map,
  ltb, ◌==◌, str_eq, truthy, length, if◌then◌else◌,
}

-- `_MAX_SESSIONS`, `_SESSION_TTL_SECONDS` in milliseconds, and `_MAX_ATTEMPTS`
abbrev pub max_sessions : ℕ
max_sessions = 20

abbrev pub session_ttl : ℕ
session_ttl = 1800000

abbrev pub max_attempts : ℕ
max_attempts = 3

-- `_CachedSession`: its connection stands for the agent and the tools, and names the object.
pub record Session : Type 0 where
  pub conn : ℕ
  pub last_used : ℕ

abbrev pub Entry : Type 0
Entry = String × Session

-- `_sessions` in insertion order, the connections that were opened and not closed, the number of
-- the next connection, and the connections in the local variables of the other turns: those that
-- an `await` keeps between a cache that they left and their `_close`.
pub record Cache : Type 0 where
  pub sessions : List Entry
  pub open_conns : List ℕ
  pub next_conn : ℕ
  pub in_hand : List ℕ
  pub ticks : ℕ

pub record Env : Type 0 where
  -- `time.monotonic()`, in milliseconds
  pub now : ℕ → ℕ
  -- what other turns do during an await, whole turns or parts of them
  pub interfere : Cache → Cache
  pub connects : ℕ → Bool
  -- the answer of the agent, stripped; `none` is an exception
  pub answers : ℕ → Option String

unfoldable pub lookup : String → List Entry → Option Session
lookup sid [] = none
lookup sid ((k, e) ∷ more) = if str_eq k sid then some e else lookup sid more

-- `_sessions.pop(sid, None)`: what was there, and the rest
unfoldable pub pop : String → List Entry → Option Session × List Entry
pop sid [] = (none, [])
pop sid ((k, e) ∷ more) =
    let rest = pop sid more in if str_eq k sid then (some e, more) else (rest.0, (k, e) ∷ rest.1)

-- `entry.last_used = t`, on the object that has the connection
unfoldable pub touch : ℕ → ℕ → List Entry → List Entry
touch conn t [] = []
touch conn t ((k, e) ∷ more) =
    (k, (if e.conn == conn then record e { last_used = t } else e)) ∷ touch conn t more

abbrev pub is_expired : ℕ → Session → Bool
is_expired now e = ltb session_ttl (now - e.last_used)

-- the first loop of `_collect_evictable`: the expired sessions, and the others
unfoldable pub split_expired : ℕ → List Entry → List Session × List Entry
split_expired now [] = ([], [])
split_expired now ((k, e) ∷ more) =
    let rest = split_expired now more in
    if is_expired now e then (e ∷ rest.0, rest.1) else (rest.0, (k, e) ∷ rest.1)

-- `min(_sessions, key=last_used)`: the first of the least recently used
unfoldable pub least_recent : Entry → List Entry → Entry
least_recent best [] = best
least_recent best (e ∷ more) =
    least_recent (if ltb e.1.last_used best.1.last_used then e else best) more

abbrev pub with_victim : Option Session → List Session → List Session
with_victim none victims = victims
with_victim (some e) victims = e ∷ victims

-- The second loop; the number of sessions is enough fuel.
unfoldable pub trim : ℕ → List Entry → List Session × List Entry
trim zero entries = ([], entries)
trim (suc n) [] = ([], [])
trim (suc n) (e ∷ more) =
    let popped = pop (least_recent e more).0 (e ∷ more) in
    let rest = trim n popped.1 in
    if ltb max_sessions (length (e ∷ more))
    then (with_victim popped.0 rest.0, rest.1)
    else ([], e ∷ more)

-- `_collect_evictable`: the sessions to close, and those that stay
unfoldable pub collect_evictable : ℕ → List Entry → List Session × List Entry
collect_evictable now entries =
    let (expired, fresh) = split_expired now entries in
    let (over, kept) = trim (length fresh) fresh in (expired ++ over, kept)

-- the answer, if the attempt gave one, else what the next attempts give
abbrev pub or_again : Option String → Cache → Option String × Cache → Option String × Cache
or_again (some text) s again = (some text, s)
or_again none s again = again

-- one connection fewer
unfoldable pub remove_one : ℕ → List ℕ → List ℕ
remove_one c [] = []
remove_one c (x ∷ xs) = if x == c then xs else x ∷ remove_one c xs

module _ (env : Env) where
  unfoldable pub await : Cache → Cache
  await s = let s' = env.interfere s in record s' { ticks = suc s'.ticks }

  -- `_close`, which never raises
  unfoldable pub close : ℕ → Cache → Cache
  close conn s = await (record s { open_conns = remove_one conn s.open_conns })

  unfoldable pub close_all : List Session → Cache → Cache
  close_all [] s = s
  close_all (e ∷ more) s = close_all more (close e.conn s)

  abbrev pub use_existing : ℕ → Cache → Option ℕ × Cache
  use_existing conn s = (some conn, record s { sessions = touch conn (env.now s.ticks) s.sessions })

  -- `_connect`, and after it the second look at the cache: the first session stays, and the
  -- connection that lost is closed.
  abbrev pub second_look : String → ℕ → Option Session → Cache → Option ℕ × Cache
  second_look sid conn (some existing) s = use_existing existing.conn (close conn s)
  second_look sid conn none s = (
    some conn,
    record s {
      sessions = s.sessions ++ (sid, record { conn = conn; last_used = env.now s.ticks }) ∷ [];
    },
  )

  abbrev pub opened : Cache → Cache
  opened s = record s { open_conns = s.next_conn ∷ s.open_conns; next_conn = suc s.next_conn }

  unfoldable pub connect_new : String → Cache → Option ℕ × Cache
  connect_new sid s =
      let s' = await s in
      if env.connects s.ticks
      then second_look sid s'.next_conn (lookup sid s'.sessions) (opened s')
      else (none, s')

  abbrev pub first_look : String → Option Session → Cache → Option ℕ × Cache
  first_look sid (some entry) s = use_existing entry.conn s
  first_look sid none s = connect_new sid s

  -- `_get_or_create`: the connection of the session, or `none` if connecting raises
  unfoldable pub get_or_create : String → Cache → Option ℕ × Cache
  get_or_create sid s =
      let (victims, kept) = collect_evictable (env.now s.ticks) s.sessions in
      let s' = close_all victims (record s { sessions = kept }) in
      first_look sid (lookup sid s'.sessions) s'

  abbrev pub close_popped : Option Session → Cache → Bool × Cache
  close_popped none s = (false, s)
  close_popped (some e) s = (true, close e.conn s)

  -- `_evict` and `reset_session`
  unfoldable pub evict : String → Cache → Bool × Cache
  evict sid s = let (e, kept) = pop sid s.sessions in close_popped e (record s { sessions = kept })

  unfoldable pub shutdown : Cache → Cache
  shutdown s = close_all (map (λ e. e.1) s.sessions) (record s { sessions = [] })

  abbrev pub run_on : Option ℕ → Cache → Option String × Cache
  run_on none s = (none, s)
  run_on (some conn) s = (env.answers s.ticks, await s)

  -- one attempt: with a session on its connection, else on a connection of its own that is closed
  -- before it returns
  unfoldable pub attempt : Option String → Cache → Option String × Cache
  attempt none s = (env.answers s.ticks, await s)
  attempt (some sid) s =
      if truthy sid
      then (let (conn, s') = get_or_create sid s in run_on conn s')
      else (env.answers s.ticks, await s)

  abbrev pub drop_session : Option String → Cache → Cache
  drop_session none s = s
  drop_session (some sid) s = if truthy sid then (evict sid s).1 else s

  -- the sleep before another attempt
  abbrev pub back_off : ℕ → Cache → Cache
  back_off zero s = s
  back_off (suc n) s = await s

  -- the loop of `run_agent`, with the number of attempts left; `none` raises the last exception
  unfoldable pub attempts : ℕ → Option String → Cache → Option String × Cache
  attempts zero sid s = (none, s)
  attempts (suc n) sid s =
      let tried = attempt sid s in
      let again = attempts n sid (back_off n (drop_session sid tried.1)) in
      or_again tried.0 tried.1 again

  unfoldable pub run_agent : Option String → Cache → Option String × Cache
  run_agent sid s = attempts max_attempts sid s
