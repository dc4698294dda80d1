-- ===== src/Cache/Lacking.antt =====
-- How many dimensions of a list a set lacks, which bounds the rounds of the loops of `CacheWS`
-- (src/libs/system/cache.cpp).
use trans_lucid.Prelude.{
  ℕ, ◌+◌, ◌≤◌, ◌<◌, true, false, ◌≡◌, refl, subst, List, [], ◌∷◌, arith, if◌then◌else◌, length,
  Bool-cases, inl, inr,
}
use trans_lucid.Prelude.Int.{ℤ, eqb_ℤ, eqb_ℤ_iff}
use trans_lucid.Workshops.Delta.{Delta, contains, insert, insert_all, contains-insert, mem}
use trans_lucid.Workshops.Answers.{NonEmpty, AllMissing}

-- How many of the dimensions the set does not have.
abbrev pub lacking : List ℤ → Delta → ℕ
lacking [] delta = 0
lacking (d ∷ u) delta = (if contains delta d then 0 else 1) + lacking u delta

lacking-insert-le :
    (u : List ℤ) (d : ℤ) (delta : Delta) → lacking u (insert d delta) ≤ lacking u delta
lacking-insert-le [] d delta = omega arith
lacking-insert-le (e ∷ u) d delta =
    ground (arith, lacking-insert-le u d delta, contains-insert d e delta)

lacking-insert-lt :
    (u : List ℤ) (d : ℤ) (delta : Delta)
    → mem d u ≡ true
    → contains delta d ≡ false
    → lacking u (insert d delta) < lacking u delta
lacking-insert-lt [] d delta m h = cc
lacking-insert-lt (e ∷ u) d delta m h = elim (Bool-cases (eqb_ℤ d e)) [
  | inl same ↦
      let q = subst (λ x. contains delta x ≡ false) ((eqb_ℤ_iff d e).0 same) h in
      ground (arith, lacking-insert-le u d delta, contains-insert d e delta, (eqb_ℤ_iff e d).1)
  | inr other ↦ ground (arith, lacking-insert-lt u d delta, contains-insert d e delta)
]

lacking-insert_all-le :
    (u ds : List ℤ) (delta : Delta) → lacking u (insert_all ds delta) ≤ lacking u delta
unfolding insert_all
lacking-insert_all-le u [] delta = omega arith
lacking-insert_all-le u (d ∷ ds) delta =
    omega (arith, lacking-insert_all-le u ds (insert d delta), lacking-insert-le u d delta)

pub lacking-demands :
    (u ds : List ℤ) (delta : Delta)
    → NonEmpty ds
    → AllMissing delta ds
    → ((d : ℤ) → mem d ds ≡ true → mem d u ≡ true)
    → lacking u (insert_all ds delta) < lacking u delta
unfolding insert_all
lacking-demands u [] delta n m h = absurd n
lacking-demands u (d ∷ ds) delta n m h = omega (
  arith,
  lacking-insert_all-le u ds (insert d delta),
  lacking-insert-lt u d delta (h d (ground (arith, (eqb_ℤ_iff d d).1 refl))) m.0,
)

pub lacking-le-length : (u : List ℤ) (delta : Delta) → lacking u delta ≤ length u
lacking-le-length [] delta = omega arith
lacking-le-length (d ∷ u) delta = ground (arith, lacking-le-length u delta)
