-- ===== src/Chat/Agent/Eviction.antt =====
-- chat/agent.py: which sessions `_collect_evictable` leaves in the cache.
use stream_house_c360_demo.Prelude.{
  ℕ, zero, suc, ◌≡◌, refl, Bool, true, false, List, [], ◌∷◌, arith, String, ltb, leb, if◌then◌else◌,
  str_eq, Bool-cases, inl, inr, All, length, eq_refl,
}
use stream_house_c360_demo.Chat.Agent.{
  Entry, pop, split_expired, least_recent, trim, collect_evictable, is_expired, max_sessions,
}

-- is some session stored under this key?
abbrev has_key : String → List Entry → Bool
has_key sid [] = false
has_key sid ((k, e) ∷ more) = if str_eq k sid then true else has_key sid more

length-pop :
    (sid : String) (entries : List Entry)
    → has_key sid entries ≡ true
    → length entries ≡ suc (length (pop sid entries).1)
unfolding pop
length-pop sid [] h = ground arith
length-pop sid ((k, e) ∷ more) h = ground (arith, length-pop sid more)

least_recent-has_key :
    (best : Entry) (more : List Entry) → has_key (least_recent best more).0 (best ∷ more) ≡ true
unfolding least_recent
least_recent-has_key best [] = ground (arith, eq_refl best.0)
least_recent-has_key best (e ∷ more) =
    ground (arith, eq_refl best.0, least_recent-has_key best more, least_recent-has_key e more)

length-trim :
    (n : ℕ) (entries : List Entry)
    → leb (length entries) n ≡ true
    → leb (length (trim n entries).1) max_sessions ≡ true
unfolding trim
length-trim zero [] h = refl
length-trim zero (e ∷ more) h = ground arith
length-trim (suc n) [] h = refl
length-trim (suc n) (e ∷ more) h =
    let sid = (least_recent e more).0 in
    ground (
      arith,
      length-pop sid (e ∷ more) (least_recent-has_key e more),
      length-trim n (pop sid (e ∷ more)).1,
    )

module _ (P : Entry → Type 0) where
  pop-All : (sid : String) (entries : List Entry) → All P entries → All P (pop sid entries).1
  unfolding pop
  pop-All sid [] h = h
  pop-All sid ((k, e) ∷ more) h = elim (Bool-cases (str_eq k sid)) [
    | inl p ↦ rw p h.1
    | inr p ↦ rw p (h.0, pop-All sid more h.1)
  ]

  trim-All : (n : ℕ) (entries : List Entry) → All P entries → All P (trim n entries).1
  unfolding trim
  trim-All zero entries h = h
  trim-All (suc n) [] h = h
  trim-All (suc n) (e ∷ more) h =
      let sid = (least_recent e more).0 in
      elim (Bool-cases (ltb max_sessions (length (e ∷ more)))) [
        | inl p ↦ rw p (trim-All n (pop sid (e ∷ more)).1 (pop-All sid (e ∷ more) h))
        | inr p ↦ rw p h
      ]

split_expired-All :
    (now : ℕ) (entries : List Entry)
    → All (λ e. is_expired now e.1 ≡ false) (split_expired now entries).1
unfolding split_expired
split_expired-All now [] = tt
split_expired-All now ((k, e) ∷ more) = elim (Bool-cases (is_expired now e)) [
  | inl p ↦ rw p (split_expired-All now more)
  | inr p ↦ rw p (p, split_expired-All now more)
]

-- The sessions that `_collect_evictable` keeps are at most `_MAX_SESSIONS`, and none of them has
-- been idle for longer than the time to live.
pub collect_evictable-IsBounded :
    (now : ℕ) (entries : List Entry)
    → (leb (length (collect_evictable now entries).1) max_sessions ≡ true)
      × All (λ e. is_expired now e.1 ≡ false) (collect_evictable now entries).1
unfolding collect_evictable
collect_evictable-IsBounded now entries =
    let fresh = (split_expired now entries).1 in
    (
      length-trim (length fresh) fresh (ground arith),
      trim-All (λ e. is_expired now e.1 ≡ false) (length fresh) fresh
          (split_expired-All now entries),
    )
