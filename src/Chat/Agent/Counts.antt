-- ===== src/Chat/Agent/Counts.antt =====
-- chat/agent.py: how often a connection stands among the cached sessions and the evicted ones.
use stream_house_c360_demo.Prelude.{
  ℕ, zero, suc, ◌+◌, ◌≡◌, refl, Bool, true, false, Option, none, some, List, [], ◌∷◌, ◌++◌, map,
  arith, ◌==◌, String, if◌then◌else◌,
}
use stream_house_c360_demo.Chat.Agent.{
  ltb, Session, Entry, pop, touch, split_expired, least_recent, trim, collect_evictable, remove_one,
  length, with_victim, max_sessions,
}

-- how often a connection stands in a list
abbrev pub count : ℕ → List ℕ → ℕ
count c [] = 0
count c (x ∷ xs) = if x == c then suc (count c xs) else count c xs

abbrev pub conns : List Session → List ℕ
conns = map (λ e. e.conn)

abbrev pub held : List Entry → List ℕ
held = map (λ e. e.1.conn)

abbrev pub held_opt : Option Session → List ℕ
held_opt none = []
held_opt (some e) = e.conn ∷ []

pub count-append : (c : ℕ) (xs ys : List ℕ) → count c (xs ++ ys) ≡ count c xs + count c ys
count-append c [] ys = omega arith
count-append c (x ∷ xs) ys = ground (arith, count-append c xs ys)

pub count-held-append :
    (c : ℕ) (xs ys : List Entry) → count c (held (xs ++ ys)) ≡ count c (held xs) + count c (held ys)
count-held-append c [] ys = omega arith
count-held-append c (x ∷ xs) ys = ground (arith, count-held-append c xs ys)

pub count-conns-append :
    (c : ℕ) (xs ys : List Session)
    → count c (conns (xs ++ ys)) ≡ count c (conns xs) + count c (conns ys)
count-conns-append c [] ys = omega arith
count-conns-append c (x ∷ xs) ys = ground (arith, count-conns-append c xs ys)

pub count-pop :
    (c : ℕ) (sid : String) (entries : List Entry)
    → count c (held entries)
      ≡ count c (held_opt (pop sid entries).0) + count c (held (pop sid entries).1)
unfolding pop
count-pop c sid [] = refl
count-pop c sid ((k, e) ∷ more) = ground (arith, count-pop c sid more)

pub count-split_expired :
    (c now : ℕ) (entries : List Entry)
    → count c (held entries)
      ≡ count c (conns (split_expired now entries).0) + count c (held (split_expired now entries).1)
unfolding split_expired
count-split_expired c now [] = refl
count-split_expired c now ((k, e) ∷ more) = ground (arith, count-split_expired c now more)

-- one round of the second loop of `_collect_evictable`
pub count-victim :
    (c : ℕ) (over : Bool) (victim : Option Session) (rest : List Session × List Entry)
    (entries : List Entry) {left : ℕ}
    → count c (held entries) ≡ count c (held_opt victim) + left
    → left ≡ count c (conns rest.0) + count c (held rest.1)
    → let out =
        if◌then◌else◌ {A = List Session × List Entry} over
          (with_victim victim rest.0, rest.1)
          ([], entries) in
      count c (held entries) ≡ count c (conns out.0) + count c (held out.1)
count-victim c false victim rest entries p q = omega arith
count-victim c true none rest entries p q = omega arith
count-victim c true (some e) rest entries p q = ground arith

pub count-trim :
    (c n : ℕ) (entries : List Entry)
    → count c (held entries)
      ≡ count c (conns (trim n entries).0) + count c (held (trim n entries).1)
unfolding trim
count-trim c zero entries = omega arith
count-trim c (suc n) [] = refl
count-trim c (suc n) (e ∷ more) =
    let popped = pop (least_recent e more).0 (e ∷ more) in
    count-victim c (ltb max_sessions (length (e ∷ more))) popped.0 (trim n popped.1) (e ∷ more)
      (count-pop c (least_recent e more).0 (e ∷ more)) (count-trim c n popped.1)

pub held-touch : (conn t : ℕ) (entries : List Entry) → held (touch conn t entries) ≡ held entries
unfolding touch
held-touch conn t [] = refl
held-touch conn t ((k, e) ∷ more) = ground (arith, held-touch conn t more)

pub count-remove_one :
    (c d : ℕ) (xs : List ℕ)
    → count c (remove_one d xs) + (if count d xs == 0 then 0 else count c (d ∷ [])) ≡ count c xs
unfolding remove_one
count-remove_one c d [] = ground arith
count-remove_one c d (x ∷ xs) = ground (arith, count-remove_one c d xs)

pub count-collect_evictable :
    (c now : ℕ) (entries : List Entry)
    → count c (held entries)
      ≡ count c (conns (collect_evictable now entries).0)
        + count c (held (collect_evictable now entries).1)
unfolding collect_evictable
count-collect_evictable c now entries =
    let fresh = (split_expired now entries).1 in
    ground (
      arith,
      count-split_expired c now entries,
      count-trim c (length fresh) fresh,
      count-conns-append c (split_expired now entries).0 (trim (length fresh) fresh).0,
    )

pub conns-held : (entries : List Entry) → conns (map (λ e. e.1) entries) ≡ held entries
conns-held [] = refl
conns-held (e ∷ more) = grind (arith, conns-held more)
