-- ===== src/Chat/Agent/Balance.antt =====
-- No connection of the assistant is lost: each open one is held by a cached session, or by a turn
-- that is about to close it.
use stream_house_c360_demo.Prelude.{
  ap, ℕ, zero, suc, ◌+◌, ◌≡◌, Option, none, some, List, [], ◌∷◌, ◌++◌, map, arith, String,
  Bool-cases, refl, ap, inl, inr, truthy,
}
use stream_house_c360_demo.Chat.Agent.{
  max_attempts, drop_session, back_off, opened, first_look, second_look, run_on, close_popped,
  use_existing, Session, Cache, Env, lookup, pop, collect_evictable, remove_one, await, close,
  close_all, connect_new, get_or_create, evict, shutdown, attempt, attempts, run_agent, or_again,
}
use stream_house_c360_demo.Chat.Agent.Counts.{
  count, conns, held, held_opt, count-append, count-held-append, count-pop, count-collect_evictable,
  held-touch, count-remove_one, conns-held,
}

-- The open connections are those of the cached sessions, those that other turns have in hand, and
-- those in `extra`, which this turn is about to close or to cache.
abbrev pub IsBalanced : List ℕ → Cache → Type 0
IsBalanced extra s =
    (c : ℕ) → count c s.open_conns ≡ count c (held s.sessions) + count c s.in_hand + count c extra

module _ (env : Env)
    (rely : (extra : List ℕ) (s : Cache)
      → IsBalanced extra s
      → IsBalanced extra (env.interfere s)) where
  await-IsBalanced :
      (extra : List ℕ) (s : Cache) → IsBalanced extra s → IsBalanced extra (await env s)
  unfolding await
  await-IsBalanced extra s p = rely extra s p

  close-IsBalanced :
      (conn : ℕ) (extra : List ℕ) (s : Cache)
      → IsBalanced (conn ∷ extra) s
      → IsBalanced extra (close env conn s)
  unfolding close
  close-IsBalanced conn extra s p =
      await-IsBalanced extra (record s { open_conns = remove_one conn s.open_conns })
        (λ c. ground (arith, p c, p conn, count-remove_one c conn s.open_conns))

  close_all-IsBalanced :
      (victims : List Session) (extra : List ℕ) (s : Cache)
      → IsBalanced (conns victims ++ extra) s
      → IsBalanced extra (close_all env victims s)
  unfolding close_all
  close_all-IsBalanced [] extra s p = p
  close_all-IsBalanced (e ∷ more) extra s p =
      close_all-IsBalanced more extra (close env e.conn s)
        (close-IsBalanced e.conn (conns more ++ extra) s p)

  use_existing-IsBalanced :
      (conn : ℕ) (extra : List ℕ) (s : Cache)
      → IsBalanced extra s
      → IsBalanced extra (use_existing env conn s).1
  use_existing-IsBalanced conn extra s p c = rw (held-touch conn (env.now s.ticks) s.sessions) (p c)

  second_look-IsBalanced :
      (sid : String) (conn : ℕ) (existing : Option Session) (extra : List ℕ) (s : Cache)
      → IsBalanced (conn ∷ extra) s
      → IsBalanced extra (second_look env sid conn existing s).1
  second_look-IsBalanced sid conn (some e) extra s p =
      use_existing-IsBalanced e.conn extra (close env conn s) (close-IsBalanced conn extra s p)
  second_look-IsBalanced sid conn none extra s p = λ c. ground (
    arith,
    p c,
    count-held-append c s.sessions
        ((sid, record { conn = conn; last_used = env.now s.ticks }) ∷ []),
  )

  connect_new-IsBalanced :
      (sid : String) (extra : List ℕ) (s : Cache)
      → IsBalanced extra s
      → IsBalanced extra (connect_new env sid s).1
  unfolding connect_new
  connect_new-IsBalanced sid extra s p =
      let s' = await env s in
      let q = await-IsBalanced extra s p in
      elim (Bool-cases (env.connects s.ticks)) [
        | inl e ↦ rw e (
            second_look-IsBalanced sid s'.next_conn (lookup sid s'.sessions) extra (opened env s')
              (λ c. ground (arith, q c)))
        | inr e ↦ rw e q
      ]

  first_look-IsBalanced :
      (sid : String) (found : Option Session) (extra : List ℕ) (s : Cache)
      → IsBalanced extra s
      → IsBalanced extra (first_look env sid found s).1
  first_look-IsBalanced sid (some e) extra s p = use_existing-IsBalanced e.conn extra s p
  first_look-IsBalanced sid none extra s p = connect_new-IsBalanced sid extra s p

  get_or_create-IsBalanced :
      (sid : String) (extra : List ℕ) (s : Cache)
      → IsBalanced extra s
      → IsBalanced extra (get_or_create env sid s).1
  unfolding get_or_create
  get_or_create-IsBalanced sid extra s p =
      let split = collect_evictable (env.now s.ticks) s.sessions in
      let s' = close_all env split.0 (record s { sessions = split.1 }) in
      first_look-IsBalanced sid (lookup sid s'.sessions) extra s' (
        close_all-IsBalanced split.0 extra (record s { sessions = split.1 })
          (λ c. ground (
            arith,
            p c,
            count-collect_evictable c (env.now s.ticks) s.sessions,
            count-append c (conns split.0) extra,
          )))

  close_popped-IsBalanced :
      (e : Option Session) (extra : List ℕ) (s : Cache)
      → IsBalanced (held_opt e ++ extra) s
      → IsBalanced extra (close_popped env e s).1
  close_popped-IsBalanced none extra s p = p
  close_popped-IsBalanced (some e) extra s p = close-IsBalanced e.conn extra s p

  evict-IsBalanced :
      (sid : String) (extra : List ℕ) (s : Cache)
      → IsBalanced extra s
      → IsBalanced extra (evict env sid s).1
  unfolding evict
  evict-IsBalanced sid extra s p =
      let popped = pop sid s.sessions in
      close_popped-IsBalanced popped.0 extra (record s { sessions = popped.1 })
        (λ c.
          ground (arith, p c, count-pop c sid s.sessions, count-append c (held_opt popped.0) extra))

  shutdown-IsBalanced :
      (extra : List ℕ) (s : Cache) → IsBalanced extra s → IsBalanced extra (shutdown env s)
  unfolding shutdown
  shutdown-IsBalanced extra s p =
      close_all-IsBalanced (map (λ e. e.1) s.sessions) extra (record s { sessions = [] })
        (λ c. ground (
          arith,
          p c,
          conns-held s.sessions,
          count-append c (conns (map (λ e. e.1) s.sessions)) extra,
        ))

  run_on-IsBalanced :
      (conn : Option ℕ) (extra : List ℕ) (s : Cache)
      → IsBalanced extra s
      → IsBalanced extra (run_on env conn s).1
  run_on-IsBalanced none extra s p = p
  run_on-IsBalanced (some conn) extra s p = await-IsBalanced extra s p

  attempt-IsBalanced :
      (sid : Option String) (extra : List ℕ) (s : Cache)
      → IsBalanced extra s
      → IsBalanced extra (attempt env sid s).1
  unfolding attempt
  attempt-IsBalanced none extra s p = await-IsBalanced extra s p
  attempt-IsBalanced (some sid) extra s p = elim (Bool-cases (truthy sid)) [
    | inl e ↦ rw e (
        run_on-IsBalanced (get_or_create env sid s).0 extra (get_or_create env sid s).1
          (get_or_create-IsBalanced sid extra s p))
    | inr e ↦ rw e (await-IsBalanced extra s p)
  ]

  drop_session-IsBalanced :
      (sid : Option String) (extra : List ℕ) (s : Cache)
      → IsBalanced extra s
      → IsBalanced extra (drop_session env sid s)
  drop_session-IsBalanced none extra s p = p
  drop_session-IsBalanced (some sid) extra s p = elim (Bool-cases (truthy sid)) [
    | inl e ↦ rw e (evict-IsBalanced sid extra s p)
    | inr e ↦ rw e p
  ]

  back_off-IsBalanced :
      (n : ℕ) (extra : List ℕ) (s : Cache)
      → IsBalanced extra s
      → IsBalanced extra (back_off env n s)
  back_off-IsBalanced zero extra s p = p
  back_off-IsBalanced (suc n) extra s p = await-IsBalanced extra s p

  retried-IsBalanced :
      (result : Option String) (extra : List ℕ) (s : Cache) (again : Option String × Cache)
      → IsBalanced extra s
      → IsBalanced extra again.1
      → IsBalanced extra (or_again result s again).1
  retried-IsBalanced none extra s again p q = q
  retried-IsBalanced (some text) extra s again p q = p

  attempts-IsBalanced :
      (n : ℕ) (sid : Option String) (extra : List ℕ) (s : Cache)
      → IsBalanced extra s
      → IsBalanced extra (attempts env n sid s).1
  unfolding attempts
  attempts-IsBalanced zero sid extra s p = p
  attempts-IsBalanced (suc n) sid extra s p =
      let tried = attempt env sid s in
      let q = attempt-IsBalanced sid extra s p in
      retried-IsBalanced tried.0 extra tried.1 _ q (
        attempts-IsBalanced n sid extra (back_off env n (drop_session env sid tried.1)) (
          back_off-IsBalanced n extra (drop_session env sid tried.1)
            (drop_session-IsBalanced sid extra tried.1 q)))

  -- Whatever the requests and answers, `run_agent` loses no connection: each open one is held by a
  -- cached session or is in another turn's hand (or in `extra`) after it, as often as it is open, if
  -- that held before it and what the other turns do at an await keeps it. They may take sessions
  -- from the cache at one await and close them after another.
  pub run_agent-IsBalanced :
      (sid : Option String) (extra : List ℕ) (s : Cache)
      → IsBalanced extra s
      → IsBalanced extra (run_agent env sid s).1
  unfolding run_agent
  run_agent-IsBalanced sid extra s p = attempts-IsBalanced max_attempts sid extra s p

-- What another turn does up to the first close of its `_get_or_create`: it takes all that it will
-- close from the cache, and keeps it in hand.
unfoldable pub take_evictable : ℕ → Cache → Cache
take_evictable now s =
    let (victims, kept) = collect_evictable now s.sessions in
    record s { sessions = kept; in_hand = conns victims ++ s.in_hand }

pub take_evictable-IsBalanced :
    (now : ℕ) (extra : List ℕ) (s : Cache)
    → IsBalanced extra s
    → IsBalanced extra (take_evictable now s)
unfolding take_evictable
take_evictable-IsBalanced now extra s p c = ground (
  arith,
  p c,
  count-collect_evictable c now s.sessions,
  count-append c (conns (collect_evictable now s.sessions).0) s.in_hand,
)

-- What another turn does from one close to the next.
unfoldable pub close_next : List ℕ → Cache → Cache
close_next [] s = s
close_next (c ∷ more) s = record s { open_conns = remove_one c s.open_conns; in_hand = more }

pub close_next-IsBalanced :
    (extra : List ℕ) (s : Cache) → IsBalanced extra s → IsBalanced extra (close_next s.in_hand s)
unfolding close_next
close_next-IsBalanced extra s p = by_hand s.in_hand refl
  where
    by_hand : (hand : List ℕ) → s.in_hand ≡ hand → IsBalanced extra (close_next hand s)
    by_hand [] e c = p c
    by_hand (d ∷ more) e c =
        ground (arith, ap (count c) e, ap (count d) e, p c, p d, count-remove_one c d s.open_conns)
