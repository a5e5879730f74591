-- ===== src/Amortisation/Solve/Bisect.antt =====
-- The loop of the bisection, for any test: it ends, and what it ends with.
use marumbot.Prelude.{
  if◌then◌else◌, HasFuel, refl, >>=-HasFuel, ok-HasFuel, if-Ensures, ap, ◌∙◌, >>=-Ensures, subst,
  ensures_ok, arith, inr, zero, false, suc, ◌<◌, ◌⊎◌, true, ensures_err, ok, ◌/◌, ◌≤◌, Ensures, ◌≡◌,
  Bool, ◌*◌, Result, ℕ,
}
use marumbot.Prelude.Int.{
  le_of_ltb_ℤ, eq_of_parts, lt_of_ltb_ℤ, negsuc, ltb_ℤ, one_part, pos_part, quot_ℤ, ◌-ℤ◌, ◌+ℤ◌,
  ◌<ℤ◌, ◌≤ℤ◌, ℤ, pos, int_laws,
}
use marumbot.Amortisation.Solve.{middle, bisect}

half_of : (d : ℤ) → pos 0 ≤ℤ d → quot_ℤ d 2 ≡ pos (pos_part d / 2)
half_of (pos n) h = refl
half_of (negsuc n) h = absurd (omega arith)

record IsMiddle (lo hi mid : ℤ) : Type 0 where
  low : lo ≤ℤ mid
  high : mid <ℤ hi
  lower_half : 2 * pos_part (mid -ℤ lo) ≤ pos_part (hi -ℤ lo)
  upper_half : 2 * pos_part (hi -ℤ (mid +ℤ pos 1)) ≤ pos_part (hi -ℤ lo)

middle-IsMiddle : (lo hi : ℤ) → lo <ℤ hi → IsMiddle lo hi (middle lo hi)
middle-IsMiddle lo hi h =
    let o = one_part (hi -ℤ lo) in
    let half = pos (pos_part (hi -ℤ lo) / 2) in
    rw (half_of (hi -ℤ lo) (omega int_laws)) (record {
      low = omega int_laws;
      high = omega (int_laws, o, h);
      lower_half = omega (int_laws, o, h, one_part (lo +ℤ half -ℤ lo));
      upper_half = omega (int_laws, o, h, one_part (hi -ℤ (lo +ℤ half +ℤ pos 1)));
    })

-- What holds before each round: hi passes the test, and either nothing is known below lo or what
-- stands directly below it fails.
pub record Brackets (test : ℤ → Result Bool) (first lo hi : ℤ) : Type 0 where
  pub ordered : lo ≤ℤ hi
  pub from_first : first ≤ℤ lo
  pub passes : test hi ≡ ok true
  pub fails : (lo ≡ first) ⊎ (test (lo -ℤ pos 1) ≡ ok false)

-- An answer of the bisection between first and last.
pub record IsFound (test : ℤ → Result Bool) (first last r : ℤ) : Type 0 where
  pub low : first ≤ℤ r
  pub high : r ≤ℤ last
  pub passes : test r ≡ ok true
  pub below_fails : (r ≡ first) ⊎ (test (r -ℤ pos 1) ≡ ok false)

back_one : (a : ℤ) → a +ℤ pos 1 -ℤ pos 1 ≡ a
back_one a = omega int_laws

-- The two bounds after a round.
abbrev new_lo : ℤ → ℤ → Bool → ℤ
new_lo lo hi fits = if fits then lo else middle lo hi +ℤ pos 1

abbrev new_hi : ℤ → ℤ → Bool → ℤ
new_hi lo hi fits = if fits then middle lo hi else hi

narrow-Brackets :
    (test : ℤ → Result Bool) (first lo hi : ℤ)
    → Brackets test first lo hi
    → lo <ℤ hi
    → (fits : Bool) → test (middle lo hi) ≡ ok fits
    → Brackets test first (new_lo lo hi fits) (new_hi lo hi fits) × (new_hi lo hi fits ≤ℤ hi)
narrow-Brackets test first lo hi h apart true e =
    let m = middle-IsMiddle lo hi apart in
    (
      record { ordered = m.low; from_first = h.from_first; passes = e; fails = h.fails },
      omega (arith, m.high),
    )
narrow-Brackets test first lo hi h apart false e =
    let m = middle-IsMiddle lo hi apart in
    (
      record {
        ordered = omega (int_laws, m.high);
        from_first = omega (int_laws, m.low, h.from_first);
        passes = h.passes;
        fails = inr (ap test (back_one (middle lo hi)) ∙ e);
      },
      omega arith,
    )

narrow-half :
    (lo hi : ℤ) (k : ℕ)
    → lo <ℤ hi
    → (fits : Bool) → pos_part (hi -ℤ lo) < 2 * k
    → pos_part (new_hi lo hi fits -ℤ new_lo lo hi fits) < k
narrow-half lo hi k apart true h =
    let m = middle-IsMiddle lo hi apart in omega (arith, m.lower_half)
narrow-half lo hi k apart false h =
    let m = middle-IsMiddle lo hi apart in omega (arith, m.upper_half)

pub bisect-IsFound :
    (fuel : ℕ) (test : ℤ → Result Bool) (first last lo hi : ℤ)
    → Brackets test first lo hi
    → hi ≤ℤ last
    → Ensures (IsFound test first last) (bisect fuel test lo hi)
unfolding bisect
bisect-IsFound zero test first last lo hi h top = ensures_err _
bisect-IsFound (suc fuel) test first last lo hi h top =
    if-Ensures (ltb_ℤ lo hi)
      (λ apart. >>=-Ensures (test (middle lo hi)) _ λ fits e.
        let (narrower, below) =
          narrow-Brackets test first lo hi h (lt_of_ltb_ℤ lo hi apart) fits e in
        bisect-IsFound fuel test first last _ _ narrower (omega (arith, below, top)))
      λ met.
        let same : lo ≡ hi =
          eq_of_parts lo hi
            (let no_less = le_of_ltb_ℤ lo hi met in omega (arith, no_less, h.ordered)) in
        ensures_ok hi (record {
          low = omega (arith, h.ordered, h.from_first);
          high = top;
          passes = h.passes;
          below_fails = subst (λ z. (z ≡ first) ⊎ (test (z -ℤ pos 1) ≡ ok false)) same h.fails;
        })

-- The powers of two.
abbrev pub doubled : ℕ → ℕ
doubled zero = 1
doubled (suc k) = 2 * doubled k

if_apart : (lo hi : ℤ) → ltb_ℤ lo hi ≡ true → 0 < pos_part (hi -ℤ lo)
if_apart lo hi e = let h = lt_of_ltb_ℤ lo hi e in omega (int_laws, h)

when-HasFuel :
    {A : Type 0} (b : Bool) {x y : Result A}
    → (b ≡ true → HasFuel x)
    → HasFuel y
    → HasFuel (if b then x else y)
when-HasFuel true h k = h refl
when-HasFuel false h k = k

-- The gap halves in each round, so fuel for as many rounds as its bits is enough.
pub bisect-HasFuel :
    (fuel : ℕ) (test : ℤ → Result Bool) (lo hi : ℤ)
    → ((u : ℤ) → HasFuel (test u))
    → pos_part (hi -ℤ lo) < doubled fuel
    → HasFuel (bisect (suc fuel) test lo hi)
unfolding bisect
bisect-HasFuel zero test lo hi some enough =
    when-HasFuel (ltb_ℤ lo hi)
      (λ apart. absurd (let room = if_apart lo hi apart in omega (arith, room, enough)))
      (ok-HasFuel hi)
bisect-HasFuel (suc fuel) test lo hi some enough =
    when-HasFuel (ltb_ℤ lo hi)
      (λ apart. >>=-HasFuel (test (middle lo hi)) _ (some (middle lo hi)) λ fits _.
        bisect-HasFuel fuel test (new_lo lo hi fits) (new_hi lo hi fits) some
          (narrow-half lo hi (doubled fuel) (lt_of_ltb_ℤ lo hi apart) fits enough))
      (ok-HasFuel hi)
