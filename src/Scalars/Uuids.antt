-- ===== src/Scalars/Uuids.antt =====
-- The text of a UUID tells two UUIDs apart.
use stream_house_c360_demo.Prelude.{
  ◌≢◌, false, eq_refl, ℕ, ◌≡◌, sym, ◌∙◌, ap, some, arith, str_eq, ◌==◌, ==_iff, Bool-cases,
  str_eq_ne, inl, inr,
}
use stream_house_c360_demo.Scalars.{Formats, RoundTrips}

some_injective : {i j : ℕ} → some i ≡ some j → i ≡ j
some_injective e = cc

ne_of_test : (i j : ℕ) → (i == j) ≡ false → i ≢ j
ne_of_test i j h e = absurd (ground (arith, (==_iff i j).1 e))

pub uuid_text-same :
    (f : Formats) (laws : RoundTrips f) (i j : ℕ)
    → str_eq (f.uuid_text i) (f.uuid_text j) ≡ (i == j)
uuid_text-same f laws i j = elim (Bool-cases (i == j)) [
  | inl same ↦ rw (same, (==_iff i j).0 same) (eq_refl (f.uuid_text j))
  | inr other ↦ rw other (
      str_eq_ne _ _ (λ e.
        ne_of_test i j other (some_injective (sym (laws.uuid i) ∙ ap f.uuid_of e ∙ laws.uuid j))))
]
