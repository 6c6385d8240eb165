-- ===== src/Tests/Sessions.antt =====
-- A turn of the assistant over a cache with one session.
use stream_house_c360_demo.Prelude.{
  arith, ◌+◌, ◌≡◌, true, false, none, some, List, [], ◌∷◌, All, leb, length, ◌==◌, if◌then◌else◌,
}
use stream_house_c360_demo.Chat.Agent.{
  Entry, Cache, Env, is_expired, max_sessions, collect_evictable, run_agent,
}
use stream_house_c360_demo.Chat.Agent.Balance.{
  close_next, close_next-IsBalanced, take_evictable, take_evictable-IsBalanced, IsBalanced,
  run_agent-IsBalanced,
}
use stream_house_c360_demo.Chat.Agent.Eviction.{collect_evictable-IsBounded}

-- The first answer fails, and the retry on a new connection succeeds. At each await another turn
-- takes the sessions that expired by 1,800,200 from the cache and closes one that it took before.
abbrev env : Env
env = record {
  now = λ t. 5000 + t;
  interfere = λ s. let s' = close_next s.in_hand s in take_evictable 1800200 s';
  connects = λ t. true;
  answers = λ t. if t == 0 then none else some "hello";
}

abbrev cache : Cache
cache = record {
  sessions = ("s1", record { conn = 3; last_used = 100 }) ∷ [];
  open_conns = 3 ∷ [];
  next_conn = 4;
  in_hand = [];
  ticks = 0;
}

balanced : IsBalanced [] cache
balanced c = omega arith

run_agent-IsBalanced_example : IsBalanced [] (run_agent env (some "s1") cache).1
run_agent-IsBalanced_example =
    run_agent-IsBalanced env
      (λ extra s p.
        take_evictable-IsBalanced 1800200 extra (close_next s.in_hand s)
          (close_next-IsBalanced extra s p))
      (some "s1") [] cache balanced

abbrev entries : List Entry
entries =
    ("s1", record { conn = 3; last_used = 100 })
    ∷ ("s2", record { conn = 4; last_used = 4000000 })
    ∷ []

collect_evictable-IsBounded_example :
    (leb (length (collect_evictable 4000001 entries).1) max_sessions ≡ true)
    × All (λ e. is_expired 4000001 e.1 ≡ false) (collect_evictable 4000001 entries).1
collect_evictable-IsBounded_example = collect_evictable-IsBounded 4000001 entries
