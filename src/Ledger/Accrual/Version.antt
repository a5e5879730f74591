-- ===== src/Ledger/Accrual/Version.antt =====
-- `contractFor` picks a version that covers the date, the one that took effect last.
use marumbot.Prelude.{
  subst, and_parts, ◌≡◌, refl, sym, ◌∙◌, true, false, ◌&&◌, arith, Bool-cases, inl, inr, ◌⊎◌, List,
  [], ◌∷◌, Result, ok, err, panic, Option, none, some, All, no_contract,
}
use marumbot.Date.Calendar.{Date, after}
use marumbot.Date.Calendar.Order.{
  Earlier, before-Earlier, Earlier-before, Earlier-trans, Earlier-irrefl, after-before,
}
use marumbot.Model.Loan.{Contract, covers_date}
use marumbot.Ledger.Accrual.{better, best_contract, chosen, contract_for}

after-Earlier : (a b : Date) → after a b ≡ true → Earlier b a
after-Earlier a b h = before-Earlier b a (sym (after-before a b) ∙ h)

after_trans : (a b c : Date) → after a b ≡ true → after b c ≡ true → after a c ≡ true
after_trans a b c h k =
    after-before a c
    ∙ Earlier-before c a (Earlier-trans c b a (after-Earlier b c k) (after-Earlier a b h))

after_irrefl : (a : Date) → after a a ≡ false
after_irrefl a = elim (Bool-cases (after a a)) [
  | inl h ↦ absurd (Earlier-irrefl a (after-Earlier a a h))
  | inr h ↦ h
]

-- The version c is no better than `best`: if it covers the date, it took effect no later.
abbrev pub NoBetter : Date → Contract → Contract → Type 0
NoBetter d best c = covers_date c d ≡ true → after c.effective_from best.effective_from ≡ false

-- The version c is one of the list.
abbrev pub Among : Contract → List Contract → Type 0
Among c [] = ⊥
Among c (d ∷ cs) = (c ≡ d) ⊎ Among c cs

pub All-Among :
    (P : Contract → Type 0) (c : Contract) (cs : List Contract) → All P cs → Among c cs → P c
All-Among P c [] all among = absurd among
All-Among P c (d ∷ cs) all (inl same) = subst P (sym same) all.0
All-Among P c (d ∷ cs) all (inr among) = All-Among P c cs all.1 among

-- A version r that is the best of the list cs and of one version b before it.
record Best (d : Date) (b : Contract) (cs : List Contract) (r : Contract) : Type 0 where
  covers : covers_date r d ≡ true
  keeps : (c : Contract) → NoBetter d b c → NoBetter d r c
  newest : All (NoBetter d r) cs
  member : (r ≡ b) ⊎ Among r cs

keep_better :
    (d : Date) (b c x : Contract)
    → after c.effective_from b.effective_from ≡ true
    → NoBetter d b x
    → NoBetter d c x
keep_better d b c x newer h covered = elim (Bool-cases (after x.effective_from c.effective_from)) [
  | inl later ↦
      let y = after_trans x.effective_from c.effective_from b.effective_from later newer in
      let n = h covered in cc
  | inr no_later ↦ no_later
]

Best-from :
    (d : Date) (b : Contract) (cs : List Contract)
    → covers_date b d ≡ true
    → (r : Contract) × (best_contract d (some b) cs ≡ some r) × Best d b cs r
unfolding best_contract better
Best-from d b [] h =
    (b, refl, record { covers = h; keeps = λ c k. k; newest = tt; member = inl refl })
Best-from d b (c ∷ cs) h =
    elim (Bool-cases (covers_date c d && after c.effective_from b.effective_from)) [
      | inl newer ↦
          let (covered, later) = and_parts _ _ newer in
          let (r, e, best) = Best-from d c cs covered in
          (
            r,
            rw newer e,
            record {
              covers = best.covers;
              keeps = λ x k. best.keeps x (keep_better d b c x later k);
              newest = (best.keeps c (λ _. after_irrefl c.effective_from), best.newest);
              member = inr best.member;
            },
          )
      | inr older ↦
          let (r, e, best) = Best-from d b cs h in
          let no_better : NoBetter d b c = λ covered. ground arith in
          (
            r,
            rw older e,
            record {
              covers = best.covers;
              keeps = best.keeps;
              newest = (best.keeps c no_better, best.newest);
              member = elim best.member [ inl same ↦ inl same | inr among ↦ inr (inr among) ];
            },
          )
    ]

-- What contractFor answers: no version covers the date, or the answer is one of the versions, it
-- covers the date, and no other that does took effect later.
abbrev pub Answers : Date → List Contract → Result Contract → Type 0
Answers d cs (ok r) = (covers_date r d ≡ true) × All (NoBetter d r) cs × Among r cs
Answers d cs (err e) = (e ≡ no_contract) × All (λ c. covers_date c d ≡ false) cs
Answers d cs panic = ⊥

-- The same, of the versions that the loop has seen.
abbrev Found : Date → List Contract → Option Contract → Type 0
Found d cs none = All (λ c. covers_date c d ≡ false) cs
Found d cs (some r) = (covers_date r d ≡ true) × All (NoBetter d r) cs × Among r cs

best_contract-Found : (d : Date) (cs : List Contract) → Found d cs (best_contract d none cs)
unfolding best_contract better
best_contract-Found d [] = tt
best_contract-Found d (c ∷ cs) = elim (Bool-cases (covers_date c d)) [
  | inl covered ↦
      let (r, e, best) = Best-from d c cs covered in
      rw (covered, e)
        (best.covers, (best.keeps c (λ _. after_irrefl c.effective_from), best.newest), best.member)
  | inr not_covered ↦
      rw not_covered (uncovered (best_contract d none cs) (best_contract-Found d cs) not_covered)
]
  where
    uncovered : (o : Option Contract) → Found d cs o → covers_date c d ≡ false → Found d (c ∷ cs) o
    uncovered none all e = (e, all)
    uncovered (some r) (covered, newest, among) e = (covered, ((λ h. cc), newest), inr among)

-- contractFor answers with a version in force on the date: one of the list that covers it, and the
-- latest to take effect among those that cover it. Its error is that no version covers the date.
pub contract_for-Answers :
    (versions : List Contract) (d : Date) → Answers d versions (contract_for versions d)
unfolding contract_for
contract_for-Answers versions d =
    answer (best_contract d none versions) (best_contract-Found d versions)
  where
    answer : (o : Option Contract) → Found d versions o → Answers d versions (chosen o)
    answer none all = (refl, all)
    answer (some r) found = found
