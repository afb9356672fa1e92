-- ===== src/Context/Budget.antt =====
-- packages/core/src/belief_ledger_core/context/budget.py: the budget of characters of a rendering. A
-- text is the list of its code points.
use belief_ledger_pramana.Prelude.{
  ℕ, ◌+◌, ◌≤◌, ◌≡◌, refl, sym, ap, ◌∙◌, Bool, true, false, List, [], ◌∷◌, ◌++◌, append-nil,
  append_assoc, length, length-append, leb, leb→le, arith, if◌then◌else◌,
}

abbrev pub Text : Type 0
Text = List ℕ

pub record CharacterBudget : Type 0 where
  pub maximum : ℕ
  pub parts : List Text
  pub used : ℕ
  pub truncated : Bool

abbrev pub new_budget : ℕ → CharacterBudget
new_budget maximum = record { maximum = maximum; parts = []; used = 0; truncated = false }

-- `"\n" if self.parts else ""`
abbrev pub separator : List Text → Text
separator [] = []
separator (_ ∷ _) = 10 ∷ []

-- `if separator: self.parts.append(separator)`
abbrev pub with_separator : List Text → List Text
with_separator [] = []
with_separator (p ∷ ps) = (p ∷ ps) ++ (separator (p ∷ ps) ∷ [])

-- `add`, whose `mandatory` changes nothing.
unfoldable pub add : Text → CharacterBudget → Bool × CharacterBudget
add text b =
    let needed = length (separator b.parts) + length text in
    if leb (b.used + needed) b.maximum
    then (true, record b { parts = with_separator b.parts ++ (text ∷ []); used = b.used + needed })
    else (false, record b { truncated = true })

-- `render`
abbrev pub joined : List Text → Text
joined [] = []
joined (p ∷ ps) = p ++ joined ps

abbrev pub render : CharacterBudget → Text
render b = joined b.parts

unfoldable pub add_each : List Text → CharacterBudget → CharacterBudget
unfolding add
add_each [] b = b
add_each (t ∷ ts) b = add_each ts (add t b).1

joined-append : (ps qs : List Text) → joined (ps ++ qs) ≡ joined ps ++ joined qs
joined-append [] qs = refl
joined-append (p ∷ ps) qs =
    ap (p ++◌) (joined-append ps qs) ∙ sym (append_assoc p (joined ps) (joined qs))

record IsCounted (maximum : ℕ) (b : CharacterBudget) : Type 0 where
  counted : length (render b) ≡ b.used
  within : b.used ≤ maximum
  same : b.maximum ≡ maximum

length-with_separator :
    (ps : List Text) (text : Text)
    → length (joined (with_separator ps ++ (text ∷ [])))
      ≡ length (joined ps) + (length (separator ps) + length text)
length-with_separator [] text = omega (arith, ap length (append-nil text))
length-with_separator (p ∷ ps) text =
    ap length (
      joined-append (with_separator (p ∷ ps)) (text ∷ [])
      ∙ ap (◌++ (joined (text ∷ []))) (joined-append (p ∷ ps) ((10 ∷ []) ∷ [])))
    ∙ omega (
      arith,
      length-append (joined (p ∷ ps) ++ joined ((10 ∷ []) ∷ [])) (joined (text ∷ [])),
      length-append (joined (p ∷ ps)) (joined ((10 ∷ []) ∷ [])),
      ap length (append-nil text),
    )

module _ (maximum : ℕ) where
  add-IsCounted :
      (text : Text) (b : CharacterBudget) → IsCounted maximum b → IsCounted maximum (add text b).1
  unfolding add
  add-IsCounted text b c =
      go (leb (b.used + (length (separator b.parts) + length text)) b.maximum) refl
    where
      go :
          (t : Bool)
          → leb (b.used + (length (separator b.parts) + length text)) b.maximum ≡ t
          → IsCounted maximum
              (let r : Bool × CharacterBudget =
                  if t
                  then (
                    true,
                    record b {
                      parts = with_separator b.parts ++ (text ∷ []);
                      used = b.used + (length (separator b.parts) + length text);
                    },
                  )
                  else (false, record b { truncated = true }) in
                r).1
      go true e = record {
        counted = omega (arith, length-with_separator b.parts text, c.counted);
        within = omega (arith, leb→le _ _ e, c.same);
        same = c.same;
      }
      go false e = record { counted = c.counted; within = c.within; same = c.same }

  add_each-IsCounted :
      (ts : List Text) (b : CharacterBudget)
      → IsCounted maximum b
      → IsCounted maximum (add_each ts b)
  unfolding add_each
  add_each-IsCounted [] b c = c
  add_each-IsCounted (t ∷ ts) b c = add_each-IsCounted ts (add t b).1 (add-IsCounted t b c)

  -- After any additions to a new budget, those that did not fit included, the rendering has as many
  -- characters as the budget has counted, separators included, and no more than the maximum.
  pub render-add_each :
      (ts : List Text)
      → (length (render (add_each ts (new_budget maximum)))
          ≡ (add_each ts (new_budget maximum)).used)
        × (length (render (add_each ts (new_budget maximum))) ≤ maximum)
  render-add_each ts =
      let c =
        add_each-IsCounted ts (new_budget maximum)
          (record { counted = refl; within = omega arith; same = refl }) in
      (c.counted, omega (arith, c.counted, c.within))
